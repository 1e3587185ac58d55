-- ===== src/Candidates/Promotion/Budget.antt =====
-- semi_intel/signals/promotion.py: the hourly budget of automatic promotions, and whom they promote.
use semiconductor_intelligen.Prelude.{
  ℕ, zero, suc, ◌+◌, ◌-◌, ◌≤◌, String, ◌≡◌, ap, inl, inr, Bool, true, false, not, Option, none,
  some, List, [], ◌∷◌, ◌++◌, arith, ◌==◌, Bool-cases, Option-cases, is_some, if_rule, filter, All,
}
use semiconductor_intelligen.Prelude.Rows.{length-filter_snoc, All-of_Memᴰ, List-cases}
use semiconductor_intelligen.Signals.Admission.{Rows}
use semiconductor_intelligen.Candidates.State.{is_active}
use semiconductor_intelligen.Candidates.Promotion.{
  CandidatePromotionSettings, PromotionCandidate, CandidatePromotionEvent, Reason, Tables,
  AutoPromotionSummary, Outcome, finished, blocked, check_automatic_eligibility, is_recent_event,
  promotions_in_last_hour, promote_candidate, tables_of, by_attention, snapshot, visit,
  no_promotions, run_automatic_promotion, promote_as,
}

promote_as-recent :
    (by reason : String) (automatic : Bool) (at now : ℕ) (story : Option ℕ) (c : PromotionCandidate)
    (tables next : Tables)
    → promote_as by automatic reason at story c tables ≡ some next
    → promotions_in_last_hour now next ≤ suc (promotions_in_last_hour now tables)
unfolding promote_as
promote_as-recent by reason automatic at now none c tables next e = cc
promote_as-recent by reason automatic at now (some story_id) c tables next e =
    let row : CandidatePromotionEvent = record {
      candidate_id = c.id;
      story_id = story_id;
      automatic = automatic;
      promoted_by = by;
      reason = reason;
      created_at = at;
    } in
    let more = length-filter_snoc (is_recent_event now) tables.events row in
    let same = ap (λ (o : Option Tables). promotions_of now o) e in ground (arith, more, same)
  where
    promotions_of : ℕ → Option Tables → ℕ
    promotions_of now none = 0
    promotions_of now (some t) = promotions_in_last_hour now t

promote_candidate-recent :
    (by reason : String) (automatic : Bool) (at now : ℕ) (story : Option ℕ) (c : PromotionCandidate)
    (tables next : Tables)
    → promote_candidate by automatic reason at story c tables ≡ some next
    → promotions_in_last_hour now next ≤ suc (promotions_in_last_hour now tables)
unfolding promote_candidate
promote_candidate-recent by reason automatic at now story c tables next e =
    elim (Bool-cases (is_some c.promoted_story_id)) [
      | inl t ↦
          let same : some tables ≡ some next = rw t at e in
          let this : tables ≡ next = ground arith in rw this (omega arith)
      | inr t ↦ promote_as-recent by reason automatic at now story c tables next (rw t at e)
    ]

module _ (rows_of : ℕ → Rows) (story_of : ℕ → Option ℕ) (promoted_at : ℕ → ℕ)
    (settings : CandidatePromotionSettings) (now : ℕ) where
  abbrev pub reasons_of : PromotionCandidate → Tables → List Reason
  reasons_of c tables =
      check_automatic_eligibility settings now (rows_of c.id) tables.event_states c

  abbrev pub promotion_of : PromotionCandidate → Tables → Option Tables
  promotion_of c =
      promote_candidate "automatic" true "conservative automatic promotion" (promoted_at c.id)
        (story_of c.id) c

  -- What holds at every round of the loop holds of its outcome.
  module _ {κ μ} (Good : ℕ → AutoPromotionSummary → Tables → Type κ) (Done : Outcome → Type μ)
      (finish : (b : ℕ) (s : AutoPromotionSummary) (t : Tables) → Good b s t → Done (finished s t))
      (exhaust : (s : AutoPromotionSummary) (t : Tables)
        → Good 0 s t
        → Done (finished (record s { budget_exhausted = true }) t))
      (block : (b : ℕ) (s : AutoPromotionSummary) (t : Tables) → Good b s t → Done (blocked t))
      (Visited : PromotionCandidate → Type 0)
      (promote_one : (b : ℕ) (c : PromotionCandidate) (s : AutoPromotionSummary) (t next : Tables)
        → Visited c
        → reasons_of c t ≡ []
        → promotion_of c t ≡ some next
        → Good (suc b) s t
        → Good b (record s { promoted_ids = s.promoted_ids ++ c.id ∷ [] }) next)
      (skip_one : (b : ℕ) (c : PromotionCandidate) (rs : List Reason) (s : AutoPromotionSummary)
          (t : Tables)
        → Good (suc b) s t
        → Good
            (suc b)
            (record s { skipped = s.skipped ++ (c.id, rs) ∷ [] })
            (snapshot rows_of story_of promoted_at settings now c t)) where
    pub visit_rule :
        (b : ℕ) (cs : List PromotionCandidate) (s : AutoPromotionSummary) (t : Tables)
        → All Visited cs
        → Good b s t
        → Done (visit rows_of story_of promoted_at settings now b cs s t)
    unfolding visit
    visit_rule b [] s t v h = finish b s t h
    visit_rule zero (c ∷ cs) s t v h = exhaust s t h
    visit_rule (suc b) (c ∷ cs) s t v h = elim (List-cases (reasons_of c t)) [
      | inl e ↦ elim (Option-cases (promotion_of c t)) [
        | inl stop ↦ rw (e, visit) (rw (stop, visit) (block (suc b) s t h))
        | inr (next, go) ↦
            rw (e, visit)
              (rw (go, visit)
                (visit_rule b cs (record s { promoted_ids = s.promoted_ids ++ c.id ∷ [] }) next v.1
                  (promote_one b c s t next v.0 e go h)))
      ]
      | inr (reason, others, e) ↦
          rw (e, visit)
            (visit_rule (suc b) cs
              (record s { skipped = s.skipped ++ (c.id, reason ∷ others) ∷ [] })
              (snapshot rows_of story_of promoted_at settings now c t) v.1
              (skip_one b c (reason ∷ others) s t h))
    ]

  -- After a run, also one that PromotionBlocked ends, there are at most as many automatic promotions
  -- of the last hour as before together with what they left of the hourly budget.
  pub run-within_budget :
      (tables : Tables)
      → promotions_in_last_hour now
          (tables_of (run_automatic_promotion rows_of story_of promoted_at settings now tables))
        ≤ promotions_in_last_hour now tables
          + (settings.hourly_promotion_budget - promotions_in_last_hour now tables)
  unfolding run_automatic_promotion
  run-within_budget tables =
      let already = promotions_in_last_hour now tables in
      let remaining = settings.hourly_promotion_budget - already in
      let active_ones = by_attention (filter (λ c. is_active c.state) tables.candidates) in
      let Within =
        λ (o : Outcome). promotions_in_last_hour now (tables_of o) ≤ already + remaining in
      if_rule Within (not settings.automatic_promotion_enabled) (omega arith) (
        if_rule Within (remaining == 0) (omega arith) (
          visit_rule (λ b s t. promotions_in_last_hour now t + b ≤ already + remaining) Within
            (λ b s t h. omega arith) (λ s t h. omega arith) (λ b s t h. omega arith) (λ c. Unit)
            (λ b c s t next v e go h.
              let more =
                promote_candidate-recent "automatic" "conservative automatic promotion" true
                  (promoted_at c.id) now (story_of c.id) c t next go in
              omega arith)
            (λ b c rs s t h. h) remaining active_ones
            (no_promotions rows_of story_of promoted_at settings now false) tables
            (All-of_Memᴰ (λ c. Unit) active_ones (λ c m. tt)) (omega arith)))
