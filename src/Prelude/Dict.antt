-- ===== src/Prelude/Dict.antt =====
-- Python's `dict` with text keys, as an association list. The program serialises with sorted keys
-- and never depends on the order of entries.
use Prim.Native.String.{String}
use mathlib.Core.Path.{◌≡◌, refl, subst}
use mathlib.Core.Bool.{Bool, true, false}
use mathlib.Core.Option.{Option, none, some}
use mathlib.Core.List.{List, [], ◌∷◌}
use native.Mathlib.Omega.{arith}
use text.Mathlib.Text.{◌==◌}
use text.Mathlib.TextEquality.{eq_iff}
use semiconductor_intelligen.Prelude.Tests.{Bool-cases, if◌then◌else◌}
use semiconductor_intelligen.Prelude.Lists.{All}
use mathlib.Core.Logic.{inl, inr}

abbrev pub Dict {ℓ} : Type ℓ → Type ℓ
Dict V = List (String × V)

module _ {ℓ} {V : Type ℓ} where
  -- d.get(k)
  unfoldable pub get : String → Dict V → Option V
  get k [] = none
  get k ((j, v) ∷ d) = let rest = get k d in if j == k then some v else rest

  -- d.pop(k, None)
  unfoldable pub pop : String → Dict V → Dict V
  pop k [] = []
  pop k ((j, v) ∷ d) = let rest = pop k d in if j == k then rest else (j, v) ∷ rest

  -- d[k] = v
  unfoldable pub put : String → V → Dict V → Dict V
  put k v [] = (k, v) ∷ []
  put k v ((j, w) ∷ d) = let rest = put k v d in if j == k then (k, v) ∷ d else (j, w) ∷ rest

  pub get-put :
      (k j : String) (v : V) (d : Dict V) → get j (put k v d) ≡ (if k == j then some v else get j d)
  unfolding get put
  get-put k j v [] = refl
  get-put k j v ((i, w) ∷ d) = ground (arith, eq_iff k j, eq_iff i k, eq_iff i j, get-put k j v d)

  pub get-pop : (k j : String) (d : Dict V) → get j (pop k d) ≡ (if k == j then none else get j d)
  unfolding get pop
  get-pop k j [] = ground arith
  get-pop k j ((i, w) ∷ d) = ground (arith, get-pop k j d, eq_iff k j, eq_iff i k, eq_iff i j)

  module _ {κ} (P : String × V → Type κ) where
    pub All-put : (k : String) (v : V) (d : Dict V) → P (k, v) → All P d → All P (put k v d)
    unfolding put
    All-put k v [] h hs = (h, tt)
    All-put k v ((j, w) ∷ d) h hs = elim (Bool-cases (j == k)) [
      | inl t ↦ rw t (h, hs.1)
      | inr t ↦ rw t (hs.0, All-put k v d h hs.1)
    ]

    -- The entry that is read.
    pub All-get : (k : String) (v : V) (d : Dict V) → get k d ≡ some v → All P d → P (k, v)
    unfolding get
    All-get k v [] e hs = cc
    All-get k v ((j, w) ∷ d) e hs = elim (Bool-cases (j == k)) [
      | inl t ↦
          let same_key : j ≡ k = (eq_iff j k).0 t in
          let same : w ≡ v = ground arith in
          subst (λ i. P (i, v)) same_key (subst (λ x. P (j, x)) same hs.0)
      | inr t ↦ All-get k v d (rw t at e) hs.1
    ]

  pub get-if :
      (k : String) (b : Bool) (d e : Dict V)
      → get k (if b then d else e) ≡ (if b then get k d else get k e)
  get-if k true d e = refl
  get-if k false d e = refl

pub ruleset dict_laws = (get-put, get-pop, get-if)
