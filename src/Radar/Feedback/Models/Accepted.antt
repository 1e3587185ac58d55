-- ===== src/Radar/Feedback/Models/Accepted.antt =====
-- src/oem_radar/core/feedback.py: which reviews validation accepts, and what it makes of them.
use semiconductor_intelligen.Prelude.{
  ℕ, ◌≤◌, String, ◌≡◌, refl, sym, ap, ◌∙◌, ◌↔◌, inl, inr, true, false, Option, none, some, [], ◌∷◌,
  arith, str_eq, eq_iff, ltb, if◌then◌else◌, Bool-cases, filter, All,
}
use semiconductor_intelligen.Radar.Feedback.{
  ok, reason_codes, outcomes, includes, normalize_reason_codes, validate_outcome,
}
use semiconductor_intelligen.Radar.Feedback.Reasons.{normalize_reason_codes_iff}
use semiconductor_intelligen.Radar.Feedback.Models.{
  AlertReview, max_reviewer_len, max_note_len, clip, alert_review,
}
use semiconductor_intelligen.Radar.Feedback.Models.Settled.{and_then-ok}
use semiconductor_intelligen.Radar.Feedback.{reason_codes}
use Prim.Native.String.{count}

ok-injective {ℓ} : {A : Type ℓ} (a b : A) → ok a ≡ ok b → b ≡ a
ok-injective a b h = cc

count-empty : (s : String) (n : ℕ) → str_eq s "" ≡ true → count s ≤ n
count-empty s n e = rw ((eq_iff s "").0 e) (omega arith)

validate_outcome_iff :
    (given result : String)
    → (validate_outcome given ≡ ok result)
      ↔ ((includes ("HIT" ∷ "INTERESTING" ∷ "NOISE" ∷ "BUG" ∷ []) given ≡ true) × (result ≡ given))
unfolding validate_outcome
validate_outcome_iff given result = elim (Bool-cases (includes outcomes given)) [
  | inl e ↦
      (λ h. (e, ok-injective given result (rw e at h)), λ (known, same). rw e (ap ok (sym same)))
  | inr e ↦ (λ h. cc, λ (known, same). cc)
]

module _ (strip : String → String) where
  -- A text, if there is one, has at most so many characters when it is stripped.
  abbrev pub Fits : ℕ → Option String → Type 0
  Fits max_len none = Unit
  Fits max_len (some s) = count (strip s) ≤ max_len

  -- Nothing but blanks is no text.
  abbrev pub trimmed : Option String → Option String
  trimmed none = none
  trimmed (some s) = if str_eq (strip s) "" then none else some (strip s)

  abbrev pub IsAcceptable : AlertReview → Type 0
  IsAcceptable given =
      (includes ("HIT" ∷ "INTERESTING" ∷ "NOISE" ∷ "BUG" ∷ []) given.outcome ≡ true)
      × All (λ c. includes reason_codes c ≡ true) given.reason_codes
      × Fits 2000 given.reviewer_note
      × Fits 64 given.reviewer

  -- The codes in the order of the taxonomy, each once, and the texts stripped.
  abbrev pub normal_form : AlertReview → AlertReview
  normal_form given = record given {
    reason_codes = filter (includes given.reason_codes) reason_codes;
    reviewer_note = trimmed given.reviewer_note;
    reviewer = trimmed given.reviewer;
  }

  clip-ok :
      (max_len : ℕ) (field : String) (given result : Option String)
      → clip strip max_len field given ≡ ok result
      → Fits max_len given × (result ≡ trimmed given)
  unfolding clip
  clip-ok max_len field none result h = (tt, ok-injective none result h)
  clip-ok max_len field (some s) result h = elim (Bool-cases (str_eq (strip s) "")) [
    | inl e ↦ (count-empty (strip s) max_len e, rw e (ok-injective none result (rw e at h)))
    | inr e ↦ elim (Bool-cases (ltb max_len (count (strip s)))) [
      | inl k ↦ cc
      | inr k ↦ (ground (arith, k), rw e (ok-injective (some (strip s)) result (rw (e, k) at h)))
    ]
  ]

  clip-Fits :
      (max_len : ℕ) (field : String) (given : Option String)
      → Fits max_len given
      → clip strip max_len field given ≡ ok (trimmed given)
  unfolding clip
  clip-Fits max_len field none h = refl
  clip-Fits max_len field (some s) h = elim (Bool-cases (str_eq (strip s) "")) [
    | inl e ↦ rw e refl
    | inr e ↦ let k : ltb max_len (count (strip s)) ≡ false = ground arith in rw (e, k) refl
  ]

  alert_review-ok :
      (given result : AlertReview)
      → alert_review strip given ≡ ok result
      → IsAcceptable given × (result ≡ normal_form given)
  unfolding alert_review
  alert_review-ok given result h =
      let (outcome, e, h1) = and_then-ok (validate_outcome given.outcome) _ result h in
      let (codes, k, h2) =
        and_then-ok (normalize_reason_codes (some given.reason_codes)) _ result h1 in
      let (remark, n, h3) =
        and_then-ok (clip strip max_note_len "reviewer_note" given.reviewer_note) _ result h2 in
      let (reviewer, r, h4) =
        and_then-ok (clip strip max_reviewer_len "reviewer" given.reviewer) _ result h3 in
      let (known, same_outcome) = (validate_outcome_iff given.outcome outcome).0 e in
      let (codes_known, same_codes) = (normalize_reason_codes_iff given.reason_codes codes).0 k in
      let (remark_fits, same_remark) =
        clip-ok max_note_len "reviewer_note" given.reviewer_note remark n in
      let (reviewer_fits, same_reviewer) =
        clip-ok max_reviewer_len "reviewer" given.reviewer reviewer r in
      (
        (known, codes_known, remark_fits, reviewer_fits),
        ok-injective _ result h4 ∙ (λ i. record given {
          outcome = same_outcome i;
          reason_codes = same_codes i;
          reviewer_note = same_remark i;
          reviewer = same_reviewer i;
        }),
      )

  alert_review-IsAcceptable :
      (given : AlertReview) → IsAcceptable given → alert_review strip given ≡ ok (normal_form given)
  unfolding alert_review
  alert_review-IsAcceptable given (known, codes_known, remark_fits, reviewer_fits) =
      rw
        (
          (validate_outcome_iff given.outcome given.outcome).1 (known, refl),
          (normalize_reason_codes_iff given.reason_codes _).1 (codes_known, refl),
          clip-Fits max_note_len "reviewer_note" given.reviewer_note remark_fits,
          clip-Fits max_reviewer_len "reviewer" given.reviewer reviewer_fits,
        )
        refl

  -- Validation accepts exactly the reviews with one of the four outcomes, known reason codes, and a
  -- note and a reviewer that stripped have at most 2000 and 64 characters. It then gives the review
  -- with the codes in the order of the taxonomy, each once, and with the texts stripped, where
  -- blanks are no text; all else is as it was.
  pub alert_review_iff :
      (given result : AlertReview)
      → (alert_review strip given ≡ ok result) ↔ (IsAcceptable given × (result ≡ normal_form given))
  alert_review_iff given result = (
    alert_review-ok given result,
    λ (acceptable, same). alert_review-IsAcceptable given acceptable ∙ ap ok (sym same),
  )
