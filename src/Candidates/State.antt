-- ===== src/Candidates/State.antt =====
-- semi_intel/signals/candidate_state.py: the state transitions of signal candidates. Times are
-- microseconds; an attention score is modelled by its rank, since the code only compares it here.
pub mod Jobs
pub mod Valid
use semiconductor_intelligen.Prelude.{
  ℕ, ◌+◌, ◌*◌, String, Bool, true, false, ◌&&◌, Option, none, some, List, map, ltb, leb,
  if◌then◌else◌, length, filter,
}

pub data SignalCandidateState : Type 0 where
  active promoted dismissed snoozed stale merged : SignalCandidateState

pub record SignalCandidate : Type 0 where
  pub id : ℕ
  pub title : String
  pub state : SignalCandidateState
  pub attention_score : ℕ
  pub item_count : ℕ
  pub latest_observed_at : ℕ
  pub seen_at : Option ℕ
  pub snoozed_until : Option ℕ
  pub dismissed_at : Option ℕ
  pub dismissed_reason : Option String

abbrev pub is_active : SignalCandidateState → Bool
is_active active = true
is_active _ = false

abbrev pub is_snoozed : SignalCandidateState → Bool
is_snoozed snoozed = true
is_snoozed _ = false

unfoldable pub mark_seen : ℕ → SignalCandidate → SignalCandidate
mark_seen now candidate = record candidate { seen_at = some now }

unfoldable pub mark_unseen : SignalCandidate → SignalCandidate
mark_unseen candidate = record candidate { seen_at = none }

unfoldable pub dismiss : String → ℕ → SignalCandidate → SignalCandidate
dismiss reason now candidate = record candidate {
  state = dismissed;
  dismissed_at = some now;
  dismissed_reason = some reason;
}

unfoldable pub restore : SignalCandidate → SignalCandidate
restore candidate = record candidate {
  state = active;
  dismissed_at = none;
  dismissed_reason = none;
  snoozed_until = none;
}

unfoldable pub snooze : ℕ → SignalCandidate → SignalCandidate
snooze until candidate = record candidate { state = snoozed; snoozed_until = some until }

-- A time that is set and has come.
abbrev pub has_come : ℕ → Option ℕ → Bool
has_come now none = false
has_come now (some t) = leb t now

-- The rows of `wake_snoozed`.
abbrev pub is_waking : ℕ → SignalCandidate → Bool
is_waking now candidate = is_snoozed candidate.state && has_come now candidate.snoozed_until

abbrev pub wake : SignalCandidate → SignalCandidate
wake candidate = record candidate { state = active; snoozed_until = none }

abbrev pub update_where :
    (SignalCandidate → Bool)
    → (SignalCandidate → SignalCandidate)
    → List SignalCandidate
    → List SignalCandidate
update_where p f rows = map (λ candidate. if p candidate then f candidate else candidate) rows

-- The rows, and how many were woken.
unfoldable pub wake_snoozed : ℕ → List SignalCandidate → List SignalCandidate × ℕ
wake_snoozed now rows =
    (update_where (is_waking now) wake rows, length (filter (is_waking now) rows))

abbrev pub day : ℕ
day = 86400000000

-- latest_observed_at < now - timedelta(days=staleness_days)
abbrev pub is_expired : ℕ → ℕ → SignalCandidate → Bool
is_expired staleness_days now candidate =
    is_active candidate.state && ltb (candidate.latest_observed_at + staleness_days * day) now

abbrev pub expire : SignalCandidate → SignalCandidate
expire candidate = record candidate { state = stale }

unfoldable pub mark_stale_candidates : ℕ → ℕ → List SignalCandidate → List SignalCandidate × ℕ
mark_stale_candidates staleness_days now rows = (
  update_where (is_expired staleness_days now) expire rows,
  length (filter (is_expired staleness_days now) rows),
)
