-- ===== src/Radar/Feedback/Models/Settled.antt =====
-- src/oem_radar/core/feedback.py: validating a validated review or suggestion again.
use semiconductor_intelligen.Prelude.{
  ℕ, String, ◌≡◌, refl, ap, ◌∙◌, inl, inr, Option, none, some, List, str_eq, ltb, Bool-cases,
}
use semiconductor_intelligen.Radar.Feedback.{
  Result, ok, error, reason_codes, outcomes, rule_statuses, includes, normalize_reason_codes,
  validate_outcome, validate_rule_status,
}
use semiconductor_intelligen.Radar.Feedback.Reasons.{normalize_reason_codes_again}
use semiconductor_intelligen.Radar.Feedback.Models.{
  AlertReview, RuleSuggestion, max_reviewer_len, max_note_len, max_suggested_rule_len,
  max_collector_len, max_alert_type_len, and_then, clip, alert_review, or_required, require,
  validate_reason_code, rule_suggestion,
}
use semiconductor_intelligen.Radar.Feedback.{reason_codes}
use Prim.Native.String.{count}

pub and_then-ok {ℓ κ} :
    {A : Type ℓ} {B : Type κ} (r : Result A) (f : A → Result B) (b : B)
    → and_then r f ≡ ok b
    → (a : A) × (r ≡ ok a) × (f a ≡ ok b)
and_then-ok (ok a) f b h = (a, refl, h)
and_then-ok (error e) f b h = cc

-- A validator accepts what it returned, unchanged.
abbrev IsSettled {ℓ} : {A : Type ℓ} → (A → Result A) → Type ℓ
IsSettled validate = (given result : _) → validate given ≡ ok result → validate result ≡ ok result

settle {ℓ} :
    {A : Type ℓ} (validate : A → Result A) (a result : A)
    → validate a ≡ ok a
    → ok a ≡ ok result
    → validate result ≡ ok result
settle validate a result settled e = cc

validate_outcome-IsSettled : IsSettled validate_outcome
unfolding validate_outcome
validate_outcome-IsSettled given result h = elim (Bool-cases (includes outcomes given)) [
  | inl e ↦ settle validate_outcome given result (rw e refl) (rw e at h)
  | inr e ↦ cc
]

validate_rule_status-IsSettled : IsSettled validate_rule_status
unfolding validate_rule_status
validate_rule_status-IsSettled given result h = elim (Bool-cases (includes rule_statuses given)) [
  | inl e ↦ settle validate_rule_status given result (rw e refl) (rw e at h)
  | inr e ↦ cc
]

validate_reason_code-IsSettled : IsSettled validate_reason_code
unfolding validate_reason_code
validate_reason_code-IsSettled none result h = settle validate_reason_code none result refl h
validate_reason_code-IsSettled (some code) result h = elim (Bool-cases (str_eq code "")) [
  | inl e ↦ settle validate_reason_code none result refl (rw e at h)
  | inr e ↦ elim (Bool-cases (includes reason_codes code)) [
    | inl k ↦ settle validate_reason_code (some code) result (rw (e, k) refl) (rw (e, k) at h)
    | inr k ↦ cc
  ]
]

or_required-ok :
    (field : String) (clipped : Option String) (result : String)
    → or_required field clipped ≡ ok result
    → clipped ≡ some result
or_required-ok field none result h = cc
or_required-ok field (some s) result h = cc

module _ (strip : String → String) (stripped : (s : String) → strip (strip s) ≡ strip s) where
  clip-IsSettled : (max_len : ℕ) (field : String) → IsSettled (clip strip max_len field)
  unfolding clip
  clip-IsSettled max_len field none result h = settle (clip strip max_len field) none result refl h
  clip-IsSettled max_len field (some s) result h = elim (Bool-cases (str_eq (strip s) "")) [
    | inl e ↦ settle (clip strip max_len field) none result refl (rw e at h)
    | inr e ↦ elim (Bool-cases (ltb max_len (count (strip s)))) [
      | inl k ↦ cc
      | inr k ↦
          settle (clip strip max_len field) (some (strip s)) result (rw (stripped s, e, k) refl)
            (rw (e, k) at h)
    ]
  ]

  require-IsSettled : (max_len : ℕ) (field : String) → IsSettled (require strip max_len field)
  unfolding require
  require-IsSettled max_len field given result h =
      let (clipped, e, k) =
        and_then-ok (clip strip max_len field (some given)) (or_required field) result h in
      let whole = or_required-ok field clipped result k in
      ap (λ r. and_then r (or_required field))
        (clip-IsSettled max_len field (some given) (some result) (e ∙ ap ok whole))

  abbrev review_of :
      AlertReview → String → List String → Option String → Option String → AlertReview
  review_of given outcome codes remark reviewer = record given {
    outcome = outcome;
    reason_codes = codes;
    reviewer_note = remark;
    reviewer = reviewer;
  }

  settled_review :
      (given : AlertReview) (outcome : String) (codes : List String)
      (remark reviewer : Option String)
      → validate_outcome outcome ≡ ok outcome
      → normalize_reason_codes (some codes) ≡ ok codes
      → clip strip max_note_len "reviewer_note" remark ≡ ok remark
      → clip strip max_reviewer_len "reviewer" reviewer ≡ ok reviewer
      → alert_review strip (review_of given outcome codes remark reviewer)
        ≡ ok (review_of given outcome codes remark reviewer)
  unfolding alert_review
  settled_review given outcome codes remark reviewer e k n r = rw (e, k, n, r) refl

  -- Where stripping a stripped text changes nothing, a review that validation returned passes
  -- validation again, unchanged.
  alert_review_again :
      (given result : AlertReview)
      → alert_review strip given ≡ ok result
      → alert_review strip result ≡ ok result
  unfolding alert_review
  alert_review_again given result h =
      let (outcome, e, h1) = and_then-ok (validate_outcome given.outcome) _ result h in
      let (codes, k, h2) =
        and_then-ok (normalize_reason_codes (some given.reason_codes)) _ result h1 in
      let (remark, n, h3) =
        and_then-ok (clip strip max_note_len "reviewer_note" given.reviewer_note) _ result h2 in
      let (reviewer, r, h4) =
        and_then-ok (clip strip max_reviewer_len "reviewer" given.reviewer) _ result h3 in
      settle (alert_review strip) (review_of given outcome codes remark reviewer) result
        (settled_review given outcome codes remark reviewer
          (validate_outcome-IsSettled given.outcome outcome e)
          (normalize_reason_codes_again given.reason_codes codes k)
          (clip-IsSettled max_note_len "reviewer_note" given.reviewer_note remark n)
          (clip-IsSettled max_reviewer_len "reviewer" given.reviewer reviewer r))
        h4

  abbrev suggestion_of :
      RuleSuggestion → String → String → Option String → String → String → RuleSuggestion
  suggestion_of given collector alert_type reason_code suggested_rule status = record given {
    collector = collector;
    alert_type = alert_type;
    reason_code = reason_code;
    suggested_rule = suggested_rule;
    status = status;
  }

  settled_suggestion :
      (given : RuleSuggestion) (collector alert_type : String) (reason_code : Option String)
      (suggested_rule status : String)
      → require strip max_collector_len "collector" collector ≡ ok collector
      → require strip max_alert_type_len "alert_type" alert_type ≡ ok alert_type
      → validate_reason_code reason_code ≡ ok reason_code
      → require strip max_suggested_rule_len "suggested_rule" suggested_rule ≡ ok suggested_rule
      → validate_rule_status status ≡ ok status
      → rule_suggestion strip
          (suggestion_of given collector alert_type reason_code suggested_rule status)
        ≡ ok (suggestion_of given collector alert_type reason_code suggested_rule status)
  unfolding rule_suggestion
  settled_suggestion given collector alert_type reason_code suggested_rule status c a k s t =
      rw (c, a, k, s, t) refl

  -- Likewise a suggestion.
  rule_suggestion_again : IsSettled (rule_suggestion strip)
  unfolding rule_suggestion
  rule_suggestion_again given result h =
      let (collector, c, h1) =
        and_then-ok (require strip max_collector_len "collector" given.collector) _ result h in
      let (alert_type, a, h2) =
        and_then-ok (require strip max_alert_type_len "alert_type" given.alert_type) _ result h1 in
      let (code, k, h3) = and_then-ok (validate_reason_code given.reason_code) _ result h2 in
      let (rule, s, h4) =
        and_then-ok (require strip max_suggested_rule_len "suggested_rule" given.suggested_rule) _
          result h3 in
      let (status, t, h5) = and_then-ok (validate_rule_status given.status) _ result h4 in
      settle (rule_suggestion strip) (suggestion_of given collector alert_type code rule status)
        result
        (settled_suggestion given collector alert_type code rule status
          (require-IsSettled max_collector_len "collector" given.collector collector c)
          (require-IsSettled max_alert_type_len "alert_type" given.alert_type alert_type a)
          (validate_reason_code-IsSettled given.reason_code code k)
          (require-IsSettled max_suggested_rule_len "suggested_rule" given.suggested_rule rule s)
          (validate_rule_status-IsSettled given.status status t))
        h5
