-- ===== src/Candidates/Tests.antt =====
-- Concrete runs of semi_intel/signals/candidate_state.py and candidate_qc.py.
use semiconductor_intelligen.Prelude.{
  ℕ, ◌≤◌, ◌≡◌, refl, ◌⊎◌, true, false, not, none, some, List, [], ◌∷◌, ◌++◌, arith, ◌==◌, length,
  filter, All,
}
use mathlib.Core.List.{Permᴰ}
use semiconductor_intelligen.Signals.Admission.{Rows, candidate_transition_has_admitted_material}
use semiconductor_intelligen.Candidates.Promotion.{
  CandidatePromotionSettings, PromotionCandidate, Tables, check_automatic_eligibility,
  promotions_in_last_hour, promote_candidate, tables_of, promoted_of, by_attention, visit,
  run_automatic_promotion,
}
use semiconductor_intelligen.Candidates.Promotion.Budget.{run-within_budget}
use semiconductor_intelligen.Candidates.Promotion.Eligible.{FromEligible, run-promotes_eligible}
use semiconductor_intelligen.Candidates.State.{
  SignalCandidateState, SignalCandidate, active, dismissed,
}
use semiconductor_intelligen.Candidates.State.Jobs.{waking}
use semiconductor_intelligen.Candidates.State.Valid.{
  IsValid, dismissing, snoozing, waking, changes, changes-IsValid,
}
use semiconductor_intelligen.Candidates.Review.{
  CandidateReview, CandidateQueueFilters, useful, duplicate, submit_candidate_review, is_unreviewed,
  base_unreviewed_query,
}
use semiconductor_intelligen.Candidates.Review.Archive.{IsUnique, submit-IsUnique}
use semiconductor_intelligen.Candidates.Review.Queue.{submit-queue}
use semiconductor_intelligen.Candidates.Review.Pages.{fetch_candidate_review_queue_page}
use semiconductor_intelligen.Candidates.Review.Pages.Cursor.{IsRanked, page-behind_cursor}

abbrev lead : ℕ → SignalCandidateState → SignalCandidate
lead id state = record {
  id = id;
  title = "N2 yield";
  state = state;
  attention_score = 70;
  item_count = 3;
  latest_observed_at = 100;
  seen_at = none;
  snoozed_until = none;
  dismissed_at = some 90;
  dismissed_reason = some "old news";
}

-- A review of candidate 1, and one of candidate 2.
abbrev review_of : ℕ → CandidateReview
review_of id = record {
  candidate_id = id;
  candidate_title = "N2 yield";
  attention_score_at_review = 70;
  item_count_at_review = 3;
  disposition = useful;
  reason = none;
  correction_history = [];
  is_corrected = false;
  reviewed_at = 50;
}

changes-IsValid_example :
    IsValid (changes (dismissing "rumour" 200 ∷ snoozing 300 ∷ waking 400 ∷ []) (lead 1 dismissed))
changes-IsValid_example =
    changes-IsValid (dismissing "rumour" 200 ∷ snoozing 300 ∷ waking 400 ∷ []) (lead 1 dismissed)
      (record { wakes = λ e. cc; dismissed_then = λ e. refl; dismissed_why = λ e. refl })

abbrev two_reviews : List CandidateReview
two_reviews = review_of 1 ∷ review_of 2 ∷ []

submit-IsUnique_example : IsUnique (
    submit_candidate_review (lead 1 active) duplicate none 60 (review_of 1 ∷ []) (review_of 2 ∷ []))
submit-IsUnique_example =
    submit-IsUnique (lead 1 active) duplicate none 60 (review_of 1 ∷ []) (review_of 2 ∷ [])
      (λ id. ground arith)

abbrev everything : CandidateQueueFilters
everything = record { topic_id = none; min_score = 0 }

submit-queue_example :
    base_unreviewed_query everything []
      (submit_candidate_review (lead 1 active) useful none 60 [] (review_of 2 ∷ []))
      (lead 1 active ∷ lead 2 active ∷ lead 3 active ∷ [])
    ≡ filter
        (λ (c : SignalCandidate). not (1 == c.id))
        (base_unreviewed_query everything []
          (review_of 2 ∷ [])
          (lead 1 active ∷ lead 2 active ∷ lead 3 active ∷ []))
submit-queue_example =
    submit-queue (lead 1 active) useful none 60 [] (review_of 2 ∷ []) everything []
      (lead 1 active ∷ lead 2 active ∷ lead 3 active ∷ [])

-- Candidate 3, whose id is above the cursor, is not on the page behind it.
page-behind_cursor_example :
    let page =
      fetch_candidate_review_queue_page everything [] []
        (some 3)
        1
        (lead 1 active ∷ lead 2 active ∷ lead 3 active ∷ []) in
    (rest : List SignalCandidate) × Permᴰ (page ++ rest) (lead 1 active ∷ lead 2 active ∷ [])
    × IsRanked (page ++ rest)
    × (length page ≤ 1)
    × ((rest ≡ []) ⊎ (length page ≡ 1))
unfolding is_unreviewed
page-behind_cursor_example =
    page-behind_cursor everything [] [] 3 1 (lead 1 active ∷ lead 2 active ∷ lead 3 active ∷ [])

-- A budget of one promotion, and two eligible candidates.
abbrev promotion_settings : CandidatePromotionSettings
promotion_settings = record {
  automatic_promotion_enabled = true;
  minimum_attention_score = 5;
  required_topic_match = true;
  maximum_candidate_age_hours = 72;
  hourly_promotion_budget = 1;
}

abbrev ready : ℕ → ℕ → PromotionCandidate
ready n score = record {
  id = n;
  state = active;
  attention_score = score;
  primary_topic_id = some 1;
  first_observed_at = some 0;
  independent_source_group_count = 2;
  promoted_story_id = none;
}

abbrev two_ready : Tables
two_ready = record { candidates = ready 1 7 ∷ ready 2 9 ∷ []; events = []; event_states = [] }

abbrev no_rows : ℕ → Rows
no_rows n = []

promoted-two_ready :
    promoted_of
      (run_automatic_promotion no_rows (λ n. some n) (λ n. 0) promotion_settings 0 two_ready)
    ≡ 2 ∷ []
unfolding run_automatic_promotion by_attention visit check_automatic_eligibility promote_candidate
    candidate_transition_has_admitted_material
promoted-two_ready = refl

run-within_budget_example :
    promotions_in_last_hour 0 (
      tables_of
        (run_automatic_promotion no_rows (λ n. some n) (λ n. 0) promotion_settings 0 two_ready))
    ≤ 1
run-within_budget_example =
    run-within_budget no_rows (λ n. some n) (λ n. 0) promotion_settings 0 two_ready

run-promotes_eligible_example :
    All (FromEligible no_rows (λ n. some n) (λ n. 0) promotion_settings 0 two_ready) (
      promoted_of
        (run_automatic_promotion no_rows (λ n. some n) (λ n. 0) promotion_settings 0 two_ready))
run-promotes_eligible_example =
    run-promotes_eligible no_rows (λ n. some n) (λ n. 0) promotion_settings 0 two_ready
