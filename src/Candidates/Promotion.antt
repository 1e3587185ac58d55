-- ===== src/Candidates/Promotion.antt =====
-- semi_intel/signals/promotion.py: automatic promotion. The columns of candidates are those that are
-- read here; scores are ranks and times are microseconds. Evidence and stories are not modelled: the
-- story that a promotion creates is a parameter.
pub mod Budget
pub mod Eligible
use semiconductor_intelligen.Prelude.{
  ℕ, zero, suc, ◌-◌, ◌*◌, String, Bool, true, false, not, ◌&&◌, ◌||◌, Option, none, some, List, [],
  ◌∷◌, ◌++◌, map, leb, ◌==◌, if◌then◌else◌, is_some, length, filter, update_first,
}
use semiconductor_intelligen.Signals.Admission.{Rows, candidate_transition_has_admitted_material}
use semiconductor_intelligen.Signals.Watermark.{
  NotificationEventState, auto_promotion_seen_item_ids_key, read_candidate_seen_item_ids,
  write_candidate_seen_item_ids,
}
use semiconductor_intelligen.Candidates.State.{SignalCandidateState, promoted, is_active}

pub record CandidatePromotionSettings : Type 0 where
  pub automatic_promotion_enabled : Bool
  pub minimum_attention_score : ℕ
  pub required_topic_match : Bool
  pub maximum_candidate_age_hours : ℕ
  pub hourly_promotion_budget : ℕ

pub record PromotionCandidate : Type 0 where
  pub id : ℕ
  pub state : SignalCandidateState
  pub attention_score : ℕ
  pub primary_topic_id : Option ℕ
  pub first_observed_at : Option ℕ
  pub independent_source_group_count : ℕ
  pub promoted_story_id : Option ℕ

pub record CandidatePromotionEvent : Type 0 where
  pub candidate_id : ℕ
  pub story_id : ℕ
  pub automatic : Bool
  pub promoted_by : String
  pub reason : String
  pub created_at : ℕ

-- The texts of EligibilityResult.reasons.
pub data Reason : Type 0 where
  automatic_promotion_disabled not_active below_minimum no_topic_match too_old : Reason
  no_independent_group not_authorised : Reason

pub record Tables : Type 0 where
  pub candidates : List PromotionCandidate
  pub events : List CandidatePromotionEvent
  pub event_states : List NotificationEventState

pub record AutoPromotionSummary : Type 0 where
  pub promoted_ids : List ℕ
  pub skipped : List (ℕ × List Reason)
  pub budget_exhausted : Bool

abbrev pub unless : Bool → Reason → List Reason
unless b reason = if b then [] else reason ∷ []

abbrev pub hour_length : ℕ
hour_length = 3600000000

-- The age is at most the maximum; a candidate without a first observation has age 0.
abbrev pub is_recent : ℕ → ℕ → Option ℕ → Bool
is_recent now hours none = true
is_recent now hours (some t) = leb (now - t) (hours * hour_length)

abbrev pub base_reasons : CandidatePromotionSettings → ℕ → PromotionCandidate → List Reason
base_reasons settings now c =
    unless settings.automatic_promotion_enabled automatic_promotion_disabled
    ++ (unless (is_active c.state) not_active
        ++ (unless (leb settings.minimum_attention_score c.attention_score) below_minimum
            ++ (unless (not settings.required_topic_match || is_some c.primary_topic_id)
                  no_topic_match
                ++ (unless (is_recent now settings.maximum_candidate_age_hours c.first_observed_at)
                      too_old
                    ++ unless (leb 1 c.independent_source_group_count) no_independent_group))))

-- The last reason is looked for only where there is no other.
abbrev pub with_admission : List Reason → Bool → List Reason
with_admission [] authorised = unless authorised not_authorised
with_admission (reason ∷ reasons) authorised = reason ∷ reasons

-- EligibilityResult.reasons; `rows` are the candidate's members with their sources.
unfoldable pub check_automatic_eligibility :
    CandidatePromotionSettings
    → ℕ
    → Rows
    → List NotificationEventState
    → PromotionCandidate
    → List Reason
check_automatic_eligibility settings now rows event_states c =
    with_admission (base_reasons settings now c) (
      candidate_transition_has_admitted_material
        (read_candidate_seen_item_ids auto_promotion_seen_item_ids_key c.id event_states) rows)

-- An automatic promotion since the cutoff.
abbrev pub is_recent_event : ℕ → CandidatePromotionEvent → Bool
is_recent_event now event = event.automatic && leb (now - hour_length) event.created_at

abbrev pub promotions_in_last_hour : ℕ → Tables → ℕ
promotions_in_last_hour now tables = length (filter (is_recent_event now) tables.events)

abbrev pub mark_promoted : ℕ → PromotionCandidate → PromotionCandidate
mark_promoted story_id c = record c { promoted_story_id = some story_id; state = promoted }

-- promote_candidate: `story` is the story that the candidate's items yield, or none where it has no
-- items; `at` is the time of the event. None stands for PromotionBlocked.
promote_as : String → Bool → String → ℕ → Option ℕ → PromotionCandidate → Tables → Option Tables
promote_as by automatic reason at none c tables = none
promote_as by automatic reason at (some story_id) c tables = some (record tables {
  candidates = update_first (λ k. k.id == c.id) (mark_promoted story_id) tables.candidates;
  events =
      tables.events
      ++ (record {
        candidate_id = c.id;
        story_id = story_id;
        automatic = automatic;
        promoted_by = by;
        reason = reason;
        created_at = at;
      })
        ∷ [];
})

unfoldable pub promote_candidate :
    String → Bool → String → ℕ → Option ℕ → PromotionCandidate → Tables → Option Tables
unfolding promote_as
promote_candidate by automatic reason at story c tables =
    if is_some c.promoted_story_id
    then some tables
    else promote_as by automatic reason at story c tables

-- The summary and the tables; or the tables where PromotionBlocked was raised.
pub data Outcome : Type 0 where
  finished : AutoPromotionSummary → Tables → Outcome
  blocked : Tables → Outcome

abbrev pub tables_of : Outcome → Tables
tables_of (finished summary tables) = tables
tables_of (blocked tables) = tables

abbrev pub promoted_of : Outcome → List ℕ
promoted_of (finished summary tables) = summary.promoted_ids
promoted_of (blocked tables) = []

-- ORDER BY attention_score DESC
insert_by_attention : PromotionCandidate → List PromotionCandidate → List PromotionCandidate
insert_by_attention c [] = c ∷ []
insert_by_attention c (k ∷ ks) =
    let rest = insert_by_attention c ks in
    if leb k.attention_score c.attention_score then c ∷ k ∷ ks else k ∷ rest

unfoldable pub by_attention : List PromotionCandidate → List PromotionCandidate
unfolding insert_by_attention
by_attention [] = []
by_attention (c ∷ cs) = insert_by_attention c (by_attention cs)

-- The members of a candidate, the story that its items yield, and the time of its event.
module _ (rows_of : ℕ → Rows) (story_of : ℕ → Option ℕ) (promoted_at : ℕ → ℕ)
    (settings : CandidatePromotionSettings) (now : ℕ) where
  -- What a skipped evaluation records.
  abbrev pub snapshot : PromotionCandidate → Tables → Tables
  snapshot c tables = record tables {
    event_states =
        write_candidate_seen_item_ids auto_promotion_seen_item_ids_key c.id true
          (map (λ row. row.0.id) (rows_of c.id)) tables.event_states;
  }

  -- The loop over candidates, with budget_remaining.
  unfoldable pub visit : ℕ → List PromotionCandidate → AutoPromotionSummary → Tables → Outcome
  visit budget [] summary tables = finished summary tables
  visit zero (c ∷ cs) summary tables = finished (record summary { budget_exhausted = true }) tables
  visit (suc budget) (c ∷ cs) summary tables =
      let reasons = check_automatic_eligibility settings now (rows_of c.id) tables.event_states c in
      elim reasons [
        | [] ↦
            elim (promote_candidate "automatic" true "conservative automatic promotion"
              (promoted_at c.id) (story_of c.id) c tables) [
                | none ↦ blocked tables
                | some next ↦
                    visit budget cs
                      (record summary { promoted_ids = summary.promoted_ids ++ c.id ∷ [] }) next
              ]
        | reason ∷ others ↦
            visit (suc budget) cs
              (record summary { skipped = summary.skipped ++ (c.id, reason ∷ others) ∷ [] })
              (snapshot c tables)
      ]

  abbrev pub no_promotions : Bool → AutoPromotionSummary
  no_promotions exhausted = record { promoted_ids = []; skipped = []; budget_exhausted = exhausted }

  unfoldable pub run_automatic_promotion : Tables → Outcome
  run_automatic_promotion tables =
      let remaining = settings.hourly_promotion_budget - promotions_in_last_hour now tables in
      let active_ones = by_attention (filter (λ c. is_active c.state) tables.candidates) in
      let visited = visit remaining active_ones (no_promotions false) tables in
      if not settings.automatic_promotion_enabled
      then finished (no_promotions false) tables
      else if remaining == 0
      then finished (no_promotions true) tables
      else visited
