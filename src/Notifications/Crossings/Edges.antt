-- ===== src/Notifications/Crossings/Edges.antt =====
-- semi_intel/notifications/service.py: when crossings are announced.
use semiconductor_intelligen.Prelude.{
  ℕ, zero, suc, ◌+◌, String, ◌≡◌, refl, ap, ◌∙◌, inl, inr, Bool, true, false, not, ◌&&◌, Option,
  none, some, List, [], ◌∷◌, ◌++◌, map, arith, ltb, leb, if◌then◌else◌, Bool-cases, if-false,
  if_rule,
}
use semiconductor_intelligen.Signals.Admission.{candidate_transition_has_admitted_material}
use semiconductor_intelligen.Signals.Watermark.{NotificationEventType}
use semiconductor_intelligen.Candidates.Promotion.{CandidatePromotionSettings}
use semiconductor_intelligen.Notifications.Emission.{Outbox}
use semiconductor_intelligen.Notifications.Crossings.{
  Facts, CrossingSettings, Flag, Level, EventStates, Look, CrossingTexts, new_flag, crossed, settle,
  edge, high_edge, ready_edge, score_edge, corroboration_edge, is_promotion_ready, is_high,
  emit_number, look_at, candidate_events,
}

-- An evaluation that is recent, admitted and enabled.
abbrev pub authorised : Bool → Look
authorised condition = record {
  condition = condition;
  recent = true;
  admitted = true;
  enabled = true;
}

abbrev to_list {ℓ} : {A : Type ℓ} → Option A → List A
to_list none = []
to_list (some a) = a ∷ []

-- The numbers of the events of a sequence of evaluations.
abbrev pub high_run : ℕ → List Look → Option Flag → List ℕ
high_run now [] o = []
high_run now (look ∷ looks) o =
    let (f, number) = high_edge now look o in to_list number ++ high_run now looks (some f)

-- How often a condition starts to hold, after it held or not.
abbrev pub rising : Bool → List Bool → ℕ
rising previous [] = 0
rising previous (c ∷ cs) = let rest = rising c cs in if c && not previous then suc rest else rest

abbrev pub count_from : ℕ → ℕ → List ℕ
count_from n zero = []
count_from n (suc k) = n ∷ count_from (suc n) k

high_run-flag :
    (now : ℕ) (cs : List Bool) (f : Flag)
    → high_run now (map authorised cs) (some f) ≡ count_from (suc f.sequence) (rising f.last cs)
unfolding high_edge
high_run-flag now [] f = refl
high_run-flag now (true ∷ cs) f = elim (Bool-cases f.last) [
  | inl t ↦ rw t (high_run-flag now cs (record f { last = true }))
  | inr t ↦ rw t (
      ap (λ (ns : List ℕ). suc f.sequence ∷ ns)
        (high_run-flag now cs (record (crossed now f) { last = true })))
]
high_run-flag now (false ∷ cs) f = high_run-flag now cs (record f { last = false })

-- Evaluations that are all recent, admitted and enabled announce high attention once for each time
-- that it begins, with the numbers from 1 on.
pub high_run-rising :
    (now : ℕ) (cs : List Bool)
    → high_run now (map authorised cs) none ≡ count_from 1 (rising false cs)
unfolding high_edge
high_run-rising now [] = refl
high_run-rising now (true ∷ cs) =
    ap (λ (ns : List ℕ). 1 ∷ ns) (high_run-flag now cs (crossed now (new_flag true)))
high_run-rising now (false ∷ cs) = high_run-flag now cs (new_flag false)

edge-unauthorised :
    (now : ℕ) (look : Look) (f : Flag)
    → (look.recent && look.admitted) ≡ false
    → (edge now look f).1 ≡ none
edge-unauthorised now look f e =
    ap (λ (p : Flag × Option ℕ). p.1)
      (if-false (look.condition && not f.last && (look.recent && look.admitted) && look.enabled)
        (settle look (crossed now f), some (suc f.sequence)) (settle look f, none)
        (ground (arith, e)))

high_edge-unauthorised :
    (now : ℕ) (look : Look) (o : Option Flag)
    → (look.recent && look.admitted) ≡ false
    → (high_edge now look o).1 ≡ none
unfolding high_edge
high_edge-unauthorised now look none e = elim (Bool-cases look.recent) [
  | inl t ↦ let barred : look.admitted ≡ false = ground arith in rw t (rw barred refl)
  | inr t ↦ rw t refl
]
high_edge-unauthorised now look (some f) e = edge-unauthorised now look f e

ready_edge-unauthorised :
    (now : ℕ) (look : Look) (o : Option Flag)
    → (look.recent && look.admitted) ≡ false
    → (ready_edge now look o).1 ≡ none
unfolding ready_edge
ready_edge-unauthorised now look none e = edge-unauthorised now look (new_flag false) e
ready_edge-unauthorised now look (some f) e = edge-unauthorised now look f e

score_edge-barred :
    (now increase : ℕ) (may effective : Bool) (score : ℕ) (o : Option Level)
    → effective ≡ false
    → (score_edge now increase may effective score o).1 ≡ none
unfolding score_edge
score_edge-barred now increase may effective score none e = refl
score_edge-barred now increase may effective score (some l) e =
    let Silent = λ (p : Level × Option ℕ). p.1 ≡ none in
    if_rule Silent (may && leb (l.last + increase) score) (rw e refl)
      (if_rule Silent (ltb score l.last) refl refl)

corroboration_edge-barred :
    (now : ℕ) (may : Bool) (groups : ℕ) (o : Option Level)
    → may ≡ false
    → (corroboration_edge now may groups o).1 ≡ none
unfolding corroboration_edge
corroboration_edge-barred now may groups none e = refl
corroboration_edge-barred now may groups (some l) e = rw e refl

module _ (texts : CrossingTexts) (settings : CrossingSettings)
    (promotion_settings : CandidatePromotionSettings) (now : ℕ) where
  emit_none :
      (event_type : NotificationEventType) (prefix : String) (threshold : ℕ) (c : Facts)
      (number : Option ℕ)
      → number ≡ none
      → (outbox : Outbox)
      → emit_number texts settings promotion_settings now event_type prefix threshold c number
          outbox
        ≡ outbox
  emit_none event_type prefix threshold c number e outbox = rw e refl

  -- An evaluation that is not both recent and admitted announces nothing.
  pub candidate_events-unauthorised :
      (c : Facts) (states : EventStates) (outbox : Outbox)
      → (leb settings.activation_at c.latest_observed_at
          && candidate_transition_has_admitted_material states.seen c.rows)
        ≡ false
      → (candidate_events texts settings promotion_settings now c states outbox).1 ≡ outbox
  unfolding candidate_events
  candidate_events-unauthorised c states outbox e =
      let high =
        look_at texts settings promotion_settings now c states.seen (is_high settings c)
          settings.high_score_enabled in
      let ready =
        look_at texts settings promotion_settings now c states.seen
          (is_promotion_ready promotion_settings now c) settings.promotion_ready_enabled in
      emit_none _ _ _ c _ (ready_edge-unauthorised now ready states.ready e) _
      ∙ emit_none _ _ _ c _
          (corroboration_edge-barred now _ c.independent_source_group_count states.corroboration
            (ground (arith, e)))
          _
      ∙ emit_none _ _ _ c _
          (score_edge-barred now settings.minimum_score_increase _ _ c.attention_score states.score
            e)
          _
      ∙ emit_none _ _ _ c _ (high_edge-unauthorised now high states.high e) outbox
