-- ===== src/Prelude/Lists.antt =====
-- Lists as the program uses them: Python's `any`, `all`, `len`, `in` and comprehensions with `if`,
-- and the first row of a query.
use Prim.Native.Nat.{ℕ, suc, ◌+◌, ◌≤◌}
use mathlib.Core.Path.{◌≡◌, refl, ap, ◌∙◌}
use mathlib.Core.Option
use mathlib.Core.Bool.{Bool, true, false, not, ◌&&◌, ◌||◌}
use mathlib.Core.Option.{Option, none, some}
use mathlib.Core.List.{List, [], ◌∷◌, ◌++◌}
use native.Mathlib.Omega.{arith}
use semiconductor_intelligen.Prelude.Tests.{Bool-cases, if◌then◌else◌, ◌==◌, leb}
use mathlib.Core.Logic.{inl, inr}

module _ {ℓ} {A : Type ℓ} where
  abbrev pub length : List A → ℕ
  length [] = 0
  length (x ∷ xs) = suc (length xs)

  abbrev pub any : (A → Bool) → List A → Bool
  any p [] = false
  any p (x ∷ xs) = p x || any p xs

  abbrev pub all : (A → Bool) → List A → Bool
  all p [] = true
  all p (x ∷ xs) = p x && all p xs

  abbrev pub filter : (A → Bool) → List A → List A
  filter p [] = []
  filter p (x ∷ xs) = let rest = filter p xs in if p x then x ∷ rest else rest

  -- The first row that passes, as `session.scalar(select(...))` has it.
  abbrev pub find : (A → Bool) → List A → Option A
  find p [] = none
  find p (x ∷ xs) = let rest = find p xs in if p x then some x else rest

  -- `for x in xs: for y in f(x)`, or what a loop's rounds append.
  abbrev pub concat_map {κ} : {B : Type κ} → (A → List B) → List A → List B
  concat_map f [] = []
  concat_map f (x ∷ xs) = f x ++ concat_map f xs

  abbrev pub All {κ} : (A → Type κ) → List A → Type κ
  All P [] = Unit
  All P (x ∷ xs) = P x × All P xs

  pub length-append : (xs ys : List A) → length (xs ++ ys) ≡ length xs + length ys
  length-append [] ys = omega arith
  length-append (x ∷ xs) ys = omega (arith, length-append xs ys)

-- `x in xs`, for a set or a list of integers.
abbrev pub contains : List ℕ → ℕ → Bool
contains xs a = any (λ x. x == a) xs

-- set(xs), in the order of first occurrence
unfoldable pub unique : List ℕ → List ℕ
unique [] = []
unique (x ∷ xs) = x ∷ filter (λ y. not (y == x)) (unique xs)

-- A set of integers sorted: the rows that `sorted(...)` lists.
insert : ℕ → List ℕ → List ℕ
insert a [] = a ∷ []
insert a (x ∷ xs) = let rest = insert a xs in if leb a x then a ∷ x ∷ xs else x ∷ rest

unfoldable pub sorted : List ℕ → List ℕ
unfolding insert
sorted [] = []
sorted (x ∷ xs) = insert x (sorted xs)

contains-insert : (a b : ℕ) (xs : List ℕ) → contains (insert a xs) b ≡ (a == b || contains xs b)
unfolding insert
contains-insert a b [] = refl
contains-insert a b (x ∷ xs) = ground (arith, contains-insert a b xs)

pub contains-sorted : (b : ℕ) (xs : List ℕ) → contains (sorted xs) b ≡ contains xs b
unfolding sorted
contains-sorted b [] = refl
contains-sorted b (x ∷ xs) =
    contains-insert x b (sorted xs) ∙ ap (λ t. x == b || t) (contains-sorted b xs)

-- The first row that passes is replaced: an update of the row that a query found.
module _ {ℓ} {A : Type ℓ} (p : A → Bool) (f : A → A) where
  unfoldable pub update_first : List A → List A
  update_first [] = []
  update_first (x ∷ xs) = let rest = update_first xs in if p x then f x ∷ xs else x ∷ rest

  pub find-update_first :
      ((x : A) → p (f x) ≡ p x)
      → (xs : List A) → find p (update_first xs) ≡ Option.map f (find p xs)
  unfolding update_first
  find-update_first keep [] = refl
  find-update_first keep (x ∷ xs) = ground (arith, keep x, find-update_first keep xs)

  -- A query that the updated row fails, before and after, is not disturbed.
  pub find-update_first_ne :
      (q : A → Bool)
      → ((x : A) → p x ≡ true → q x ≡ false)
      → ((x : A) → p x ≡ true → q (f x) ≡ false)
      → (xs : List A) → find q (update_first xs) ≡ find q xs
  unfolding update_first
  find-update_first_ne q before after [] = refl
  find-update_first_ne q before after (x ∷ xs) =
      ground (arith, before x, after x, find-update_first_ne q before after xs)

pub find-append {ℓ} :
    {A : Type ℓ} (p : A → Bool) (xs : List A) (y : A)
    → find p xs ≡ none
    → find p (xs ++ y ∷ []) ≡ (if p y then some y else none)
find-append p [] y h = refl
find-append p (x ∷ xs) y h = ground (arith, find-append p xs y)

-- ORDER BY key ASC, stable.
module _ {ℓ} {A : Type ℓ} (key : A → ℕ) where
  insert_by : A → List A → List A
  insert_by a [] = a ∷ []
  insert_by a (x ∷ xs) =
      let rest = insert_by a xs in if leb (key a) (key x) then a ∷ x ∷ xs else x ∷ rest

  unfoldable pub sort_by : List A → List A
  unfolding insert_by
  sort_by [] = []
  sort_by (x ∷ xs) = insert_by x (sort_by xs)

  sort_by_nil : (xs : List A) → sort_by xs ≡ [] → xs ≡ []
  unfolding sort_by
  sort_by_nil [] h = refl
  sort_by_nil (x ∷ xs) h = absurd (go (sort_by xs) h)
    where
      go : (ys : List A) → insert_by x ys ≡ [] → ⊥
      go [] e = cc
      go (y ∷ ys) e = ground arith

  length-insert_by : (a : A) (xs : List A) → length (insert_by a xs) ≡ suc (length xs)
  unfolding insert_by
  length-insert_by a [] = refl
  length-insert_by a (x ∷ xs) = ground (arith, length-insert_by a xs)

  pub length-sort_by : (xs : List A) → length (sort_by xs) ≡ length xs
  unfolding sort_by
  length-sort_by [] = refl
  length-sort_by (x ∷ xs) = length-insert_by x (sort_by xs) ∙ ap suc (length-sort_by xs)

  find-none-insert_by :
      (p : A → Bool) (a : A) (xs : List A) → find p (insert_by a xs) ≡ none → find p (a ∷ xs) ≡ none
  unfolding insert_by
  find-none-insert_by p a [] h = h
  find-none-insert_by p a (x ∷ xs) h = ground (arith, find-none-insert_by p a xs)

  -- What is not found in the sorted list is not in the list.
  pub find-none-sort_by :
      (p : A → Bool) (xs : List A) → find p (sort_by xs) ≡ none → find p xs ≡ none
  unfolding sort_by
  find-none-sort_by p [] h = refl
  find-none-sort_by p (x ∷ xs) h =
      let outer = find-none-insert_by p x (sort_by xs) h in
      ground (arith, outer, find-none-sort_by p xs)

  -- Ascending keys, from a bound on.
  abbrev pub Ascends : ℕ → List A → Type 0
  Ascends low [] = Unit
  Ascends low (x ∷ xs) = (low ≤ key x) × Ascends (key x) xs

  Ascends-insert_by :
      (low : ℕ) (a : A) (xs : List A) → low ≤ key a → Ascends low xs → Ascends low (insert_by a xs)
  unfolding insert_by
  Ascends-insert_by low a [] e h = (e, tt)
  Ascends-insert_by low a (x ∷ xs) e h = elim (Bool-cases (leb (key a) (key x))) [
    | inl t ↦ rw t (e, (ground arith, h.1))
    | inr t ↦ rw t (h.0, Ascends-insert_by (key x) a xs (ground arith) h.1)
  ]

  pub Ascends-sort_by : (xs : List A) → Ascends 0 (sort_by xs)
  unfolding sort_by
  Ascends-sort_by [] = tt
  Ascends-sort_by (x ∷ xs) = Ascends-insert_by 0 x (sort_by xs) (omega arith) (Ascends-sort_by xs)

  any-insert_by : (p : A → Bool) (a : A) (xs : List A) → any p (insert_by a xs) ≡ (p a || any p xs)
  unfolding insert_by
  any-insert_by p a [] = refl
  any-insert_by p a (x ∷ xs) = ground (arith, any-insert_by p a xs)

  pub any-sort_by : (p : A → Bool) (xs : List A) → any p (sort_by xs) ≡ any p xs
  unfolding sort_by
  any-sort_by p [] = refl
  any-sort_by p (x ∷ xs) = any-insert_by p x (sort_by xs) ∙ ap (λ b. p x || b) (any-sort_by p xs)
