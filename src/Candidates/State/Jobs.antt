-- ===== src/Candidates/State/Jobs.antt =====
-- The two recurring jobs over the candidates.
use semiconductor_intelligen.Prelude.{
  ℕ, ◌≡◌, refl, ap, inl, inr, Bool, true, false, not, ◌||◌, some, List, [], ◌∷◌, arith, ◌==◌,
  Bool-cases, length, filter, find,
}
use semiconductor_intelligen.Candidates.State.{
  SignalCandidateState, SignalCandidate, is_active, is_snoozed, is_waking, wake, update_where,
  wake_snoozed, is_expired, expire, mark_stale_candidates,
}

-- An update that its own test no longer selects does nothing the second time.
update_where_again :
    (p : SignalCandidate → Bool) (f : SignalCandidate → SignalCandidate)
    → ((c : SignalCandidate) → p c ≡ true → p (f c) ≡ false)
    → (rows : List SignalCandidate)
    → (update_where p f (update_where p f rows) ≡ update_where p f rows)
      × (length (filter p (update_where p f rows)) ≡ 0)
update_where_again p f off [] = (refl, refl)
update_where_again p f off (c ∷ rows) =
    let rest = update_where_again p f off rows in
    elim (Bool-cases (p c)) [
      | inl e ↦ rw (e, off c e) (ap (λ t. f c ∷ t) rest.0, rest.1)
      | inr e ↦ rw (e, e) (ap (λ t. c ∷ t) rest.0, rest.1)
    ]

-- Waking twice at one time is waking once, and the second run reports nothing.
wake_snoozed_again :
    (now : ℕ) (rows : List SignalCandidate)
    → wake_snoozed now (wake_snoozed now rows).0 ≡ ((wake_snoozed now rows).0, 0)
unfolding wake_snoozed
wake_snoozed_again now rows =
    let again = update_where_again (is_waking now) wake (λ c h. refl) rows in
    λ i. (again.0 i, again.1 i)

-- So is marking stale.
mark_stale_candidates_again :
    (staleness_days now : ℕ) (rows : List SignalCandidate)
    → let marked = mark_stale_candidates staleness_days now rows in
      mark_stale_candidates staleness_days now marked.0 ≡ (marked.0, 0)
unfolding mark_stale_candidates
mark_stale_candidates_again staleness_days now rows =
    let again = update_where_again (is_expired staleness_days now) expire (λ c h. refl) rows in
    λ i. (again.0 i, again.1 i)

-- A run of one of the two jobs.
pub data Job : Type 0 where
  waking : ℕ → Job
  marking : ℕ → ℕ → Job

unfoldable pub run_jobs : List Job → List SignalCandidate → List SignalCandidate
run_jobs [] rows = rows
run_jobs (waking now ∷ jobs) rows = run_jobs jobs (wake_snoozed now rows).0
run_jobs (marking staleness_days now ∷ jobs) rows =
    run_jobs jobs (mark_stale_candidates staleness_days now rows).0

abbrev pub has_id : ℕ → SignalCandidate → Bool
has_id id candidate = candidate.id == id

-- Neither selected by waking nor by marking.
abbrev pub is_settled : SignalCandidateState → Bool
is_settled state = not (is_active state || is_snoozed state)

find-update_where :
    (p : SignalCandidate → Bool) (f : SignalCandidate → SignalCandidate) (id : ℕ)
    → ((c : SignalCandidate) → (f c).id ≡ c.id)
    → (rows : List SignalCandidate) (c : SignalCandidate) → find (has_id id) rows ≡ some c
    → p c ≡ false
    → find (has_id id) (update_where p f rows) ≡ some c
find-update_where p f id same [] c e h = e
find-update_where p f id same (x ∷ rows) c e h =
    let rest = find-update_where p f id same rows c in ground (arith, same x, rest)

-- However often waking and marking stale run, a candidate that is neither active nor snoozed is
-- found as it was.
pub run_jobs-settled :
    (jobs : List Job) (rows : List SignalCandidate) (candidate : SignalCandidate)
    → find (has_id candidate.id) rows ≡ some candidate
    → is_settled candidate.state ≡ true
    → find (has_id candidate.id) (run_jobs jobs rows) ≡ some candidate
unfolding run_jobs wake_snoozed mark_stale_candidates
run_jobs-settled [] rows candidate e h = e
run_jobs-settled (waking now ∷ jobs) rows candidate e h =
    run_jobs-settled jobs _ candidate
      (find-update_where (is_waking now) wake candidate.id (λ c. refl) rows candidate e
        (ground arith))
      h
run_jobs-settled (marking staleness_days now ∷ jobs) rows candidate e h =
    run_jobs-settled jobs _ candidate
      (find-update_where (is_expired staleness_days now) expire candidate.id (λ c. refl) rows
        candidate e (ground arith))
      h
