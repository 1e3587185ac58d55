-- ===== src/Candidates/Promotion/Eligible.antt =====
-- semi_intel/signals/promotion.py: only eligible candidates are promoted automatically.
use semiconductor_intelligen.Prelude.{
  ℕ, ◌-◌, ◌≤◌, ◌≡◌, refl, Bool, true, false, not, ◌||◌, Option, List, [], ◌∷◌, ◌++◌, Memᴰ, arith,
  leb, ◌==◌, is_some, if_rule, filter, All,
}
use semiconductor_intelligen.Prelude.Rows.{All-append, All-filter, All-of_Memᴰ}
use semiconductor_intelligen.Signals.Admission.{Rows}
use semiconductor_intelligen.Candidates.State.{is_active}
use semiconductor_intelligen.Candidates.Promotion.{
  CandidatePromotionSettings, PromotionCandidate, Reason, Tables, Outcome, no_independent_group,
  unless, is_recent, base_reasons, with_admission, check_automatic_eligibility,
  promotions_in_last_hour, promoted_of, by_attention, no_promotions, run_automatic_promotion,
  insert_by_attention,
}
use semiconductor_intelligen.Candidates.Promotion.Budget.{visit_rule}

unless-append :
    (b : Bool) (reason : Reason) (rest : List Reason)
    → unless b reason ++ rest ≡ []
    → (b ≡ true) × (rest ≡ [])
unless-append true reason rest e = (refl, e)
unless-append false reason rest e = cc

-- What the settings ask of a candidate, apart from admission.
pub record IsEligible (settings : CandidatePromotionSettings) (now : ℕ) (c : PromotionCandidate)
    : Type 0 where
  pub enabled : settings.automatic_promotion_enabled ≡ true
  pub is_active_now : is_active c.state ≡ true
  pub scored : settings.minimum_attention_score ≤ c.attention_score
  pub has_topic : settings.required_topic_match ≡ true → is_some c.primary_topic_id ≡ true
  pub is_young : is_recent now settings.maximum_candidate_age_hours c.first_observed_at ≡ true
  pub is_grounded : 1 ≤ c.independent_source_group_count

base_reasons-nil :
    (settings : CandidatePromotionSettings) (now : ℕ) (c : PromotionCandidate)
    → base_reasons settings now c ≡ []
    → IsEligible settings now c
base_reasons-nil settings now c e =
    let (on, e1) = unless-append settings.automatic_promotion_enabled _ _ e in
    let (act, e2) = unless-append (is_active c.state) _ _ e1 in
    let (score, e3) =
      unless-append (leb settings.minimum_attention_score c.attention_score) _ _ e2 in
    let (topic, e4) =
      unless-append (not settings.required_topic_match || is_some c.primary_topic_id) _ _ e3 in
    let (young, e5) =
      unless-append (is_recent now settings.maximum_candidate_age_hours c.first_observed_at) _ _
        e4 in
    let grounded : leb 1 c.independent_source_group_count ≡ true = last_one _ e5 in
    record {
      enabled = on;
      is_active_now = act;
      scored = ground arith;
      has_topic = λ needed. ground arith;
      is_young = young;
      is_grounded = ground arith;
    }
  where
    last_one : (b : Bool) → unless b no_independent_group ≡ [] → b ≡ true
    last_one true e = refl
    last_one false e = cc

with_admission-nil :
    (reasons : List Reason) (authorised : Bool)
    → with_admission reasons authorised ≡ []
    → reasons ≡ []
with_admission-nil [] authorised e = refl
with_admission-nil (reason ∷ reasons) authorised e = cc

All-insert_by_attention {κ} :
    (P : PromotionCandidate → Type κ) (c : PromotionCandidate) (cs : List PromotionCandidate)
    → P c
    → All P cs
    → All P (insert_by_attention c cs)
unfolding insert_by_attention
All-insert_by_attention P c [] h hs = (h, tt)
All-insert_by_attention P c (k ∷ ks) h hs =
    if_rule (All P) (leb k.attention_score c.attention_score) (h, hs)
      (hs.0, All-insert_by_attention P c ks h hs.1)

All-by_attention {κ} :
    (P : PromotionCandidate → Type κ) (cs : List PromotionCandidate)
    → All P cs
    → All P (by_attention cs)
unfolding by_attention
All-by_attention P [] hs = tt
All-by_attention P (c ∷ cs) hs =
    All-insert_by_attention P c (by_attention cs) hs.0 (All-by_attention P cs hs.1)

module _ (rows_of : ℕ → Rows) (story_of : ℕ → Option ℕ) (promoted_at : ℕ → ℕ)
    (settings : CandidatePromotionSettings) (now : ℕ) where
  abbrev pub FromEligible : Tables → ℕ → Type 0
  FromEligible tables id =
      (c : PromotionCandidate) × Memᴰ c tables.candidates × (c.id ≡ id) × IsEligible settings now c

  checked :
      (rows : Rows) (c : PromotionCandidate) (tables : Tables)
      → check_automatic_eligibility settings now rows tables.event_states c ≡ []
      → IsEligible settings now c
  unfolding check_automatic_eligibility
  checked rows c tables e = base_reasons-nil settings now c (with_admission-nil _ _ e)

  -- Every candidate in the summary's promoted ids was, when the run began, an active candidate of
  -- the table that meets the settings.
  pub run-promotes_eligible :
      (tables : Tables)
      → All
          (FromEligible tables)
          (promoted_of (run_automatic_promotion rows_of story_of promoted_at settings now tables))
  unfolding run_automatic_promotion
  run-promotes_eligible tables =
      let P = FromEligible tables in
      let remaining = settings.hourly_promotion_budget - promotions_in_last_hour now tables in
      let active_ones = by_attention (filter (λ c. is_active c.state) tables.candidates) in
      let Done = λ (o : Outcome). All P (promoted_of o) in
      let members =
        All-by_attention (λ c. Memᴰ c tables.candidates)
          (filter (λ c. is_active c.state) tables.candidates)
          (All-filter _ (λ c. is_active c.state) tables.candidates
            (All-of_Memᴰ _ tables.candidates (λ c m. m))) in
      if_rule Done (not settings.automatic_promotion_enabled) tt (
        if_rule Done (remaining == 0) tt (
          visit_rule rows_of story_of promoted_at settings now (λ b s t. All P s.promoted_ids) Done
            (λ b s t h. h) (λ s t h. h) (λ b s t h. tt) (λ c. Memᴰ c tables.candidates)
            (λ b c s t next m e go h.
              All-append P s.promoted_ids (c.id ∷ []) h
                ((c, m, refl, checked (rows_of c.id) c t e), tt))
            (λ b c rs s t h. h) remaining active_ones
            (no_promotions rows_of story_of promoted_at settings now false) tables members tt))
