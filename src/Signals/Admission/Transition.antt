-- ===== src/Signals/Admission/Transition.antt =====
-- Which transitions a candidate's material authorises: source_lifecycle.py,
-- candidate_transition_has_admitted_material.
use semiconductor_intelligen.Prelude.{
  ℕ, ◌≡◌, refl, ◌∙◌, Bool, true, false, ◌&&◌, ◌||◌, none, some, List, [], ◌∷◌, ◌++◌, arith, any,
  filter, All, contains,
}
use semiconductor_intelligen.Signals.Source.{Source}
use semiconductor_intelligen.Signals.Admission.{
  SignalItem, Rows, row_is_admitted, row_is_controlled, row_is_new,
  candidate_transition_has_admitted_material, new_material, controlled_transition,
}

any-filter {ℓ} :
    {A : Type ℓ} (p q : A → Bool) (xs : List A) → any q (filter p xs) ≡ any (λ x. p x && q x) xs
any-filter p q [] = refl
any-filter p q (x ∷ xs) = ground (arith, any-filter p q xs)

new_material_lem : (rows : Rows) → new_material rows ≡ any row_is_admitted rows
unfolding new_material
new_material_lem [] = refl
new_material_lem (row ∷ rows) = refl

-- For a candidate with a source under admission control, an authority that evaluated it before
-- authorises a transition exactly when some member that it has not yet seen is admitted; one that
-- never did, exactly when a member of a source under control is admitted.
pub transition_lem :
    (rows : Rows)
    → any row_is_controlled rows ≡ true
    → ((seen : List ℕ)
        → candidate_transition_has_admitted_material (some seen) rows
          ≡ any (λ row. row_is_new seen row && row_is_admitted row) rows)
      × (candidate_transition_has_admitted_material none rows
          ≡ any (λ row. row_is_controlled row && row_is_admitted row) rows)
unfolding candidate_transition_has_admitted_material controlled_transition
transition_lem [] h = cc
transition_lem (row ∷ rows) h = (
  λ seen. rw h (
      new_material_lem (filter (row_is_new seen) (row ∷ rows))
      ∙ any-filter (row_is_new seen) row_is_admitted (row ∷ rows)),
  rw h (any-filter row_is_controlled row_is_admitted (row ∷ rows)),
)

abbrev pub row_id : SignalItem × Source → ℕ
row_id (item, source) = item.id

-- The rows of `more` were never seen, and none is admitted.
abbrev pub NotAdmitted : SignalItem × Source → Type 0
NotAdmitted row = row_is_admitted row ≡ false

old_rows :
    (seen : List ℕ) (rows : Rows)
    → All (λ row. contains seen (row_id row) ≡ true) rows
    → any (λ row. row_is_new seen row && row_is_admitted row) rows ≡ false
old_rows seen [] h = refl
old_rows seen ((item, source) ∷ rows) h = ground (arith, h.0, old_rows seen rows h.1)

experimental_rows :
    (seen : List ℕ) (rows : Rows)
    → All NotAdmitted rows
    → any (λ row. row_is_new seen row && row_is_admitted row) rows ≡ false
experimental_rows seen [] h = refl
experimental_rows seen ((item, source) ∷ rows) h =
    ground (arith, h.0, experimental_rows seen rows h.1)

any-append {ℓ} :
    {A : Type ℓ} (p : A → Bool) (xs ys : List A) → any p (xs ++ ys) ≡ (any p xs || any p ys)
any-append p [] ys = refl
any-append p (x ∷ xs) ys = ground (arith, any-append p xs ys)

-- Members that an authority has recorded, admitted ones among them, never authorise a transition
-- again: with only members that are not admitted beside them, a candidate under admission control
-- has no admitted material.
pub transition-consumed :
    (seen : List ℕ) (rows more : Rows)
    → any row_is_controlled (rows ++ more) ≡ true
    → All (λ row. contains seen (row_id row) ≡ true) rows
    → All NotAdmitted more
    → candidate_transition_has_admitted_material (some seen) (rows ++ more) ≡ false
transition-consumed seen rows more h old experimental =
    (transition_lem (rows ++ more) h).0 seen
    ∙ any-append (λ row. row_is_new seen row && row_is_admitted row) rows more
    ∙ ground (arith, old_rows seen rows old, experimental_rows seen more experimental)
