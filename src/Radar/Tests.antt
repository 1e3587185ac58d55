-- ===== src/Radar/Tests.antt =====
-- Concrete runs of src/oem_radar/core/run_lock.py and feedback.py.
use semiconductor_intelligen.Prelude.{
  ℕ, String, ◌≡◌, refl, ◌≢◌, ◌↔◌, Bool, true, not, Option, none, some, List, [], ◌∷◌, arith, ◌==◌,
}
use semiconductor_intelligen.Radar.RunLock.{holding, create, write, pid_alive, step_at, step, run}
use semiconductor_intelligen.Radar.RunLock.Exclusion.{run-excludes}
use semiconductor_intelligen.Radar.RunLock.Reclaim.{
  idle, stale, acquire-both, acquire, acquire-outcome,
}
use semiconductor_intelligen.Radar.Feedback.{
  ok, error, invalid_outcome, check_codes, normalize_reason_codes, validate_outcome,
}
use semiconductor_intelligen.Radar.Feedback.Models.{AlertReview, clip, alert_review}
use semiconductor_intelligen.Radar.Feedback.Models.Accepted.{
  IsAcceptable, normal_form, alert_review_iff,
}

-- Only process 9 is dead.
abbrev probe : ℕ → Option Bool
probe pid = some (not (pid == 9))

run-excludes_example : (run probe true (4 ∷ 5 ∷ 4 ∷ 5 ∷ []) (idle none)).phase 5 ≢ holding
unfolding run step step_at create write pid_alive
run-excludes_example =
    run-excludes probe true (4 ∷ 5 ∷ 4 ∷ 5 ∷ []) (idle none) 4 5 (refl, (refl, (refl, (refl, tt))))
      tt (λ p. refl) (λ e. ground arith) refl

acquire-outcome_example :
    ((acquire probe true 4 6 (stale 9)).phase 4 ≡ holding)
    × ((acquire probe true 4 6 (stale 9)).file ≡ some (record { creator = 4; pid = some 4 }))
unfolding pid_alive
acquire-outcome_example = acquire-outcome probe true 4 (some (record { creator = 9; pid = some 9 }))

acquire-both_example :
    (ps : List ℕ) × ((run probe true ps (stale 9)).phase 4 ≡ holding)
    × ((run probe true ps (stale 9)).phase 5 ≡ holding)
unfolding pid_alive
acquire-both_example = acquire-both probe 9 refl 4 5 (λ e. ground arith)

abbrev noise : List String
noise = "OTHER" ∷ "CDN_URL_CHURN" ∷ "OTHER" ∷ []

-- With the duplicate dropped.

-- The codes come out in the order of the taxonomy, each once.
abbrev marked : List String → AlertReview
marked codes = record {
  id = none;
  alert_id = 5;
  outcome = "NOISE";
  reason_codes = codes;
  reviewer_note = some "seen before";
  reviewed_at = some 100;
  reviewer = none;
  created_at = none;
  updated_at = none;
}

alert_review_iff_example :
    (alert_review (λ s. s) (marked ("OTHER" ∷ "TEMPORARY_404" ∷ "OTHER" ∷ []))
      ≡ ok (marked ("TEMPORARY_404" ∷ "OTHER" ∷ [])))
    ↔ (IsAcceptable (λ s. s) (marked ("OTHER" ∷ "TEMPORARY_404" ∷ "OTHER" ∷ []))
        × (marked ("TEMPORARY_404" ∷ "OTHER" ∷ [])
            ≡ normal_form (λ s. s) (marked ("OTHER" ∷ "TEMPORARY_404" ∷ "OTHER" ∷ []))))
alert_review_iff_example =
    alert_review_iff (λ s. s) (marked ("OTHER" ∷ "TEMPORARY_404" ∷ "OTHER" ∷ []))
      (marked ("TEMPORARY_404" ∷ "OTHER" ∷ []))

marked-validated :
    alert_review (λ s. s) (marked ("OTHER" ∷ "TEMPORARY_404" ∷ "OTHER" ∷ []))
    ≡ ok (marked ("TEMPORARY_404" ∷ "OTHER" ∷ []))
unfolding alert_review validate_outcome normalize_reason_codes check_codes clip
marked-validated = refl

unknown-refused :
    alert_review (λ s. s) (record (marked []) { outcome = "FINE" }) ≡ error (invalid_outcome "FINE")
unfolding alert_review validate_outcome
unknown-refused = refl
