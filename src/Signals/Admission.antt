-- ===== src/Signals/Admission.antt =====
-- semi_intel/signals/source_lifecycle.py: which observations may enter the novelty path, and which
-- of a candidate's transitions the material behind it may authorise.
pub mod Transition
use semiconductor_intelligen.Prelude.{
  ℕ, Bool, true, false, not, ◌||◌, Option, none, some, List, [], ◌∷◌, ltb, leb, if◌then◌else◌,
  is_some, any, filter, contains,
}
use semiconductor_intelligen.Signals.Source.{
  Source, maturity_experimental, source_baseline_completed_at, source_delivery_admitted_at,
  source_maturity_is, source_requires_delivery_admission,
}

pub record SignalItem : Type 0 where
  pub id : ℕ
  pub source_id : ℕ
  pub collected_at : Option ℕ

-- `a <= b` and `a > b` on datetimes that may be missing; a missing one fails the test.
abbrev pub at_or_before : Option ℕ → Option ℕ → Bool
at_or_before (some a) (some b) = leb a b
at_or_before _ _ = false

abbrev pub after : Option ℕ → Option ℕ → Bool
after (some a) (some b) = ltb b a
after _ _ = false

unfoldable pub item_is_baseline : SignalItem → Source → Bool
item_is_baseline item source = at_or_before item.collected_at (source_baseline_completed_at source)

unfoldable pub item_is_delivery_admitted : SignalItem → Source → Bool
item_is_delivery_admitted item source =
    let admitted_at = source_delivery_admitted_at source in
    if source.muted
    then false
    else if item_is_baseline item source
    then false
    else if source_requires_delivery_admission source
    then after item.collected_at admitted_at
    else if not (is_some admitted_at)
    then true
    else after item.collected_at admitted_at

unfoldable pub source_is_admission_controlled : Source → Bool
source_is_admission_controlled source =
    source_requires_delivery_admission source
    || source.muted
    || source_maturity_is maturity_experimental source

-- The rows of `candidate_member_rows`: the member observations with their sources.
abbrev pub Rows : Type 0
Rows = List (SignalItem × Source)

abbrev pub row_is_admitted : SignalItem × Source → Bool
row_is_admitted (item, source) = item_is_delivery_admitted item source

abbrev pub row_is_controlled : SignalItem × Source → Bool
row_is_controlled (item, source) = source_is_admission_controlled source

abbrev pub row_is_new : List ℕ → SignalItem × Source → Bool
row_is_new seen (item, source) = not (contains seen item.id)

unfoldable pub candidate_has_admitted_novelty : Rows → Bool
candidate_has_admitted_novelty [] = true
candidate_has_admitted_novelty (row ∷ rows) = any row_is_admitted (row ∷ rows)

-- `any` over the new rows is false on none, as the early return is.
new_material : Rows → Bool
new_material [] = false
new_material (row ∷ rows) = any row_is_admitted (row ∷ rows)

controlled_transition : Option (List ℕ) → Rows → Bool
unfolding new_material
controlled_transition none rows = any row_is_admitted (filter row_is_controlled rows)
controlled_transition (some seen) rows = new_material (filter (row_is_new seen) rows)

unfoldable pub candidate_transition_has_admitted_material : Option (List ℕ) → Rows → Bool
unfolding controlled_transition
candidate_transition_has_admitted_material seen [] = true
candidate_transition_has_admitted_material seen (row ∷ rows) =
    if not (any row_is_controlled (row ∷ rows))
    then true
    else controlled_transition seen (row ∷ rows)
