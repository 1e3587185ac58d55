-- ===== src/Signals/Lifecycle/Gate.antt =====
-- When an observation passes the gate: source_lifecycle.py, item_is_delivery_admitted.
use semiconductor_intelligen.Prelude.{
  ℕ, ◌≤◌, ◌<◌, ◌≡◌, ◌∙◌, ◌↔◌, true, false, not, ◌&&◌, none, some, List, [], ◌∷◌, arith, ltb, any,
}
use semiconductor_intelligen.Signals.Source.{
  Source, source_delivery_admitted_at, source_requires_delivery_admission,
  stamp_first_success_baseline, clear_collection_identity_watermarks, admit_source_for_delivery,
}
use semiconductor_intelligen.Signals.Admission.{
  SignalItem, item_is_baseline, item_is_delivery_admitted,
}
use semiconductor_intelligen.Signals.Lifecycle.{
  Operation, ensure, clear, first_success, succeed, admit, set_muted, apply, run, is_admit,
}
use semiconductor_intelligen.Signals.Lifecycle.Watermarks.{
  admitted_at-admit, baseline-admit, requires-admit, muted-admit, admitted_at-stamp, requires-stamp,
  baseline-stamp, stamp_again, admitted_at-succeed, requires-succeed, admitted_at-set_muted,
  requires-set_muted, admitted_at-clear, requires-clear, admitted_at-ensure, requires-ensure,
}

-- An observation of a source under the sticky contract is admitted exactly when the source is not
-- muted, has an admission on record at a time `a`, and the observation was collected after `a` and
-- is not part of the source's baseline.
pub gate_iff :
    (item : SignalItem) (s : Source)
    → source_requires_delivery_admission s ≡ true
    → (item_is_delivery_admitted item s ≡ true) ↔ (
        (a c : ℕ) × (source_delivery_admitted_at s ≡ some a)
        × (item.collected_at ≡ some c)
        × (a < c)
        × (s.muted ≡ false)
        × (item_is_baseline item s ≡ false))
unfolding item_is_delivery_admitted
gate_iff item s h = (λ p. ground arith, λ (a, c, p, q, lt, m, b). ground arith)

-- With no admission on record, a source under the contract has no observation admitted.
no_admission :
    (item : SignalItem) (s : Source)
    → source_requires_delivery_admission s ≡ true
    → source_delivery_admitted_at s ≡ none
    → item_is_delivery_admitted item s ≡ false
unfolding item_is_delivery_admitted
no_admission item s h n = ground arith

run-requires :
    (ops : List Operation) (s : Source)
    → source_requires_delivery_admission s ≡ true
    → source_requires_delivery_admission (run ops s) ≡ true
unfolding run apply
run-requires [] s h = h
run-requires (ensure ∷ ops) s h = run-requires ops _ (requires-ensure s)
run-requires (clear ∷ ops) s h = run-requires ops _ (requires-clear s ∙ h)
run-requires (first_success now ∷ ops) s h = run-requires ops _ (requires-stamp now s ∙ h)
run-requires (succeed now ∷ ops) s h = run-requires ops _ (requires-succeed now s ∙ h)
run-requires (admit now ∷ ops) s h = run-requires ops _ (requires-admit now s)
run-requires (set_muted b ∷ ops) s h = run-requires ops _ (requires-set_muted s b ∙ h)

run-not_admitted :
    (ops : List Operation) (s : Source)
    → any is_admit ops ≡ false
    → source_delivery_admitted_at s ≡ none
    → source_delivery_admitted_at (run ops s) ≡ none
unfolding run apply
run-not_admitted [] s e h = h
run-not_admitted (ensure ∷ ops) s e h = run-not_admitted ops _ e (admitted_at-ensure s ∙ h)
run-not_admitted (clear ∷ ops) s e h = run-not_admitted ops _ e (admitted_at-clear s)
run-not_admitted (first_success now ∷ ops) s e h =
    run-not_admitted ops _ e (admitted_at-stamp now s ∙ h)
run-not_admitted (succeed now ∷ ops) s e h =
    run-not_admitted ops _ e (admitted_at-succeed now s ∙ h)
run-not_admitted (admit now ∷ ops) s e h = cc
run-not_admitted (set_muted b ∷ ops) s e h =
    run-not_admitted ops _ e (admitted_at-set_muted s b ∙ h)

-- Once the collection identity of a source under the contract is cleared, no run of calls without
-- `admit_source_for_delivery` (unmuting included) gets one of its observations admitted.
pub clear-fails_closed :
    (item : SignalItem) (ops : List Operation) (s : Source)
    → source_requires_delivery_admission s ≡ true
    → any is_admit ops ≡ false
    → item_is_delivery_admitted item (run ops (clear_collection_identity_watermarks s)) ≡ false
clear-fails_closed item ops s h e =
    let s' = clear_collection_identity_watermarks s in
    no_admission item _ (run-requires ops s' (requires-clear s ∙ h))
      (run-not_admitted ops s' e (admitted_at-clear s))

-- Admission does not replay history: for a source that had no admission on record, exactly the
-- observations collected after the moment of admission and behind the baseline are admitted.
pub admit-no_replay :
    (now c : ℕ) (item : SignalItem) (s : Source)
    → source_delivery_admitted_at s ≡ none
    → item.collected_at ≡ some c
    → item_is_delivery_admitted item (admit_source_for_delivery now s)
      ≡ (ltb now c && not (item_is_baseline item s))
unfolding item_is_delivery_admitted item_is_baseline
admit-no_replay now c item s h e =
    ground (
      arith,
      admitted_at-admit now s,
      baseline-admit now s,
      requires-admit now s,
      muted-admit now s,
    )

-- A second admission does not move the watermark: it admits the same observations as the first.
admit_twice :
    (first second : ℕ) (item : SignalItem) (s : Source)
    → item_is_delivery_admitted item
        (admit_source_for_delivery second (admit_source_for_delivery first s))
      ≡ item_is_delivery_admitted item (admit_source_for_delivery first s)
unfolding item_is_delivery_admitted item_is_baseline
admit_twice first second item s =
    let s' = admit_source_for_delivery first s in
    ground (
      arith,
      admitted_at-admit first s,
      admitted_at-admit second s',
      baseline-admit second s',
      requires-admit first s,
      requires-admit second s',
      muted-admit first s,
      muted-admit second s',
    )

-- After a run that stamps the first-populate baseline, no observation collected up to the stamp is
-- admitted.
pub stamp-silences :
    (now : ℕ) (s : Source) (item : SignalItem) (c : ℕ)
    → (stamp_first_success_baseline now s).1 ≡ true
    → item.collected_at ≡ some c
    → c ≤ now
    → item_is_delivery_admitted item (stamp_first_success_baseline now s).0 ≡ false
unfolding item_is_delivery_admitted item_is_baseline
stamp-silences now s item c h e le = ground (arith, baseline-stamp now s h)

-- A run that stamps the first-populate baseline is the first of its source, and no later run stamps
-- it again.
stamp_once :
    (now later : ℕ) (s : Source)
    → (stamp_first_success_baseline now s).1 ≡ true
    → (s.last_success_at ≡ none)
      × ((stamp_first_success_baseline later (stamp_first_success_baseline now s).0).1 ≡ false)
stamp_once now later s h =
    (unfold stamp_first_success_baseline in ground arith, stamp_again now s later h)
