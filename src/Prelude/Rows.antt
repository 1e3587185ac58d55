-- ===== src/Prelude/Rows.antt =====
-- A predicate on every entry of a list, through the list operations.
use mathlib.Core.Path.{◌≡◌, refl, sym, subst}
use mathlib.Core.Bool.{Bool, true, false, ◌||◌}
use mathlib.Core.Option.{none, some}
use mathlib.Core.List.{List, [], ◌∷◌, ◌++◌, map, Memᴰ}
use mathlib.Core.List.Memᴰ
use Prim.Native.Nat.{ℕ, ◌+◌}
use native.Mathlib.Omega.{arith}
use mathlib.Core.Logic.{◌⊎◌, inl, inr}
use semiconductor_intelligen.Prelude.Tests.{◌==◌, Bool-cases, if◌then◌else◌}
use semiconductor_intelligen.Prelude.Lists.{
  any, concat_map, contains, All, filter, find, update_first, length, length-append,
}

module _ {ℓ κ} {A : Type ℓ} (P : A → Type κ) where
  pub All-append : (xs ys : List A) → All P xs → All P ys → All P (xs ++ ys)
  All-append [] ys h k = k
  All-append (x ∷ xs) ys h k = (h.0, All-append xs ys h.1 k)

  pub All-filter : (p : A → Bool) (xs : List A) → All P xs → All P (filter p xs)
  All-filter p [] h = tt
  All-filter p (x ∷ xs) h = elim (Bool-cases (p x)) [
    | inl e ↦ rw e (h.0, All-filter p xs h.1)
    | inr e ↦ rw e (All-filter p xs h.1)
  ]

  All-update_first :
      (p : A → Bool) (f : A → A) (xs : List A)
      → ((x : A) → P x → P (f x))
      → All P xs
      → All P (update_first p f xs)
  unfolding update_first
  All-update_first p f [] keep h = tt
  All-update_first p f (x ∷ xs) keep h = elim (Bool-cases (p x)) [
    | inl e ↦ rw e (keep x h.0, h.1)
    | inr e ↦ rw e (h.0, All-update_first p f xs keep h.1)
  ]

  -- The row that a query finds.
  pub All-find : (p : A → Bool) (xs : List A) (x : A) → find p xs ≡ some x → All P xs → P x
  All-find p [] x e h = cc
  All-find p (y ∷ xs) x e h = elim (Bool-cases (p y)) [
    | inl t ↦ let same : y ≡ x = ground arith in rw same at h.0
    | inr t ↦ All-find p xs x (rw t at e) h.1
  ]

module _ {ℓ κ μ} {A : Type ℓ} {P : A → Type κ} {Q : A → Type μ} where
  pub All-mp : (xs : List A) → ((x : A) → P x → Q x) → All P xs → All Q xs
  All-mp [] f h = tt
  All-mp (x ∷ xs) f h = (f x h.0, All-mp xs f h.1)

module _ {ℓ} {A : Type ℓ} (p : A → Bool) where
  pub find-true : (xs : List A) (x : A) → find p xs ≡ some x → p x ≡ true
  find-true [] x e = cc
  find-true (y ∷ xs) x e = elim (Bool-cases (p y)) [
    | inl t ↦ let same : y ≡ x = ground arith in rw same at t
    | inr t ↦ find-true xs x (rw t at e)
  ]

  pub find-none : (xs : List A) → find p xs ≡ none → All (λ x. p x ≡ false) xs
  find-none [] e = tt
  find-none (y ∷ xs) e = elim (Bool-cases (p y)) [
    | inl t ↦ cc
    | inr t ↦ (t, find-none xs (rw t at e))
  ]

  pub find_absent : (xs : List A) → All (λ x. p x ≡ false) xs → find p xs ≡ none
  find_absent [] h = refl
  find_absent (y ∷ xs) h = rw h.0 (find_absent xs h.1)

  pub find-filter :
      (q : A → Bool) (xs : List A) (x : A)
      → find p xs ≡ some x
      → q x ≡ true
      → find p (filter q xs) ≡ some x
  find-filter q [] x e h = e
  find-filter q (y ∷ xs) x e h = ground (arith, find-filter q xs x)

  pub find-append_some : (xs ys : List A) (x : A) → find p xs ≡ some x → find p (xs ++ ys) ≡ some x
  find-append_some [] ys x e = cc
  find-append_some (y ∷ xs) ys x e = ground (arith, find-append_some xs ys x)

module _ {ℓ κ μ ν} {A : Type ℓ} {P : A → Type κ} {Q : A → Type μ} {R : A → Type ν} where
  pub All-mp2 : (xs : List A) → ((x : A) → P x → Q x → R x) → All P xs → All Q xs → All R xs
  All-mp2 [] f h k = tt
  All-mp2 (x ∷ xs) f h k = (f x h.0 k.0, All-mp2 xs f h.1 k.1)

pub filter-snoc {ℓ} :
    {A : Type ℓ} (p : A → Bool) (xs : List A) (y : A)
    → filter p (xs ++ y ∷ []) ≡ (if p y then filter p xs ++ y ∷ [] else filter p xs)
filter-snoc p [] y = refl
filter-snoc p (x ∷ xs) y = ground (arith, filter-snoc p xs y)

pub length-filter-none {ℓ} :
    {A : Type ℓ} (p : A → Bool) (xs : List A) → find p xs ≡ none → length (filter p xs) ≡ 0
length-filter-none p [] h = refl
length-filter-none p (x ∷ xs) h = ground (arith, length-filter-none p xs)

pub find-none-of_length {ℓ} :
    {A : Type ℓ} (p : A → Bool) (xs : List A) → length (filter p xs) ≡ 0 → find p xs ≡ none
find-none-of_length p [] h = refl
find-none-of_length p (x ∷ xs) h = ground (arith, find-none-of_length p xs)

-- One more row, that passes or not.
pub length-filter_snoc {ℓ} :
    {A : Type ℓ} (p : A → Bool) (xs : List A) (y : A)
    → length (filter p (xs ++ y ∷ [])) ≡ length (filter p xs) + (if p y then 1 else 0)
length-filter_snoc p xs y = ground (arith, filter-snoc p xs y, length-append (filter p xs) (y ∷ []))

pub any-append {ℓ} :
    {A : Type ℓ} (p : A → Bool) (xs ys : List A) → any p (xs ++ ys) ≡ (any p xs || any p ys)
any-append p [] ys = refl
any-append p (x ∷ xs) ys = ground (arith, any-append p xs ys)

-- What holds of the rows that pass.
pub All-of_filter {ℓ κ} :
    {A : Type ℓ} (P : A → Type κ) (p : A → Bool) (xs : List A)
    → All P (filter p xs)
    → All (λ x. p x ≡ true → P x) xs
All-of_filter P p [] h = tt
All-of_filter P p (x ∷ xs) h = elim (Bool-cases (p x)) [
  | inl e ↦
      let rows : All P (x ∷ filter p xs) = rw e at h in (λ _. rows.0, All-of_filter P p xs rows.1)
  | inr e ↦ (λ t. cc, All-of_filter P p xs (rw e at h))
]

pub All-Memᴰ {ℓ κ} :
    {A : Type ℓ} (P : A → Type κ) {x : A} (xs : List A) → All P xs → Memᴰ x xs → P x
All-Memᴰ P [] h m = absurd (Memᴰ.not-nil m)
All-Memᴰ P (y ∷ xs) h (Memᴰ.head e) = subst P (sym e) h.0
All-Memᴰ P (y ∷ xs) h (Memᴰ.tail m) = All-Memᴰ P xs h.1 m

-- What holds of every entry, entry by entry.
pub All-of_Memᴰ {ℓ κ} :
    {A : Type ℓ} (P : A → Type κ) (xs : List A) → ((x : A) → Memᴰ x xs → P x) → All P xs
All-of_Memᴰ P [] h = tt
All-of_Memᴰ P (x ∷ xs) h = (h x (Memᴰ.head refl), All-of_Memᴰ P xs (λ y m. h y (Memᴰ.tail m)))

pub All-split {ℓ κ} :
    {A : Type ℓ} (P : A → Type κ) (xs ys : List A) → All P (xs ++ ys) → All P xs × All P ys
All-split P [] ys h = (tt, h)
All-split P (x ∷ xs) ys h = let rest = All-split P xs ys h.1 in ((h.0, rest.0), rest.1)

module _ {ℓ κ μ} {A : Type ℓ} {B : Type κ} (P : B → Type μ) (f : A → List B) where
  pub All-concat_map : (xs : List A) → All (λ x. All P (f x)) xs → All P (concat_map f xs)
  All-concat_map [] h = tt
  All-concat_map (x ∷ xs) h = All-append P (f x) (concat_map f xs) h.0 (All-concat_map xs h.1)

  pub All-of_concat_map : (xs : List A) → All P (concat_map f xs) → All (λ x. All P (f x)) xs
  All-of_concat_map [] h = tt
  All-of_concat_map (x ∷ xs) h =
      let (first, rest) = All-split P (f x) (concat_map f xs) h in
      (first, All-of_concat_map xs rest)

module _ {ℓ κ μ} {A : Type ℓ} {B : Type κ} (P : B → Type μ) (f : A → B) where
  pub All-map : (xs : List A) → All (λ x. P (f x)) xs → All P (map f xs)
  All-map [] h = tt
  All-map (x ∷ xs) h = (h.0, All-map xs h.1)

  pub All-of_map : (xs : List A) → All P (map f xs) → All (λ x. P (f x)) xs
  All-of_map [] h = tt
  All-of_map (x ∷ xs) h = (h.0, All-of_map xs h.1)

pub Memᴰ-filter {ℓ} :
    {A : Type ℓ} (p : A → Bool) {x : A} (xs : List A)
    → p x ≡ true
    → Memᴰ x xs
    → Memᴰ x (filter p xs)
Memᴰ-filter p [] e m = absurd (Memᴰ.not-nil m)
Memᴰ-filter p (y ∷ xs) e (Memᴰ.head same) =
    let t : p y ≡ true = subst (λ z. p z ≡ true) same e in rw t (Memᴰ.head same)
Memᴰ-filter p (y ∷ xs) e (Memᴰ.tail m) = elim (Bool-cases (p y)) [
  | inl t ↦ rw t (Memᴰ.tail (Memᴰ-filter p xs e m))
  | inr t ↦ rw t (Memᴰ-filter p xs e m)
]

pub any-Memᴰ {ℓ} :
    {A : Type ℓ} (p : A → Bool) {x : A} (xs : List A) → p x ≡ true → Memᴰ x xs → any p xs ≡ true
any-Memᴰ p [] e m = absurd (Memᴰ.not-nil m)
any-Memᴰ p (y ∷ xs) e (Memᴰ.head same) =
    let t : p y ≡ true = subst (λ z. p z ≡ true) same e in rw t refl
any-Memᴰ p (y ∷ xs) e (Memᴰ.tail m) = let rest = any-Memᴰ p xs e m in ground arith

-- A row that passes, if there is any.
pub any-row {ℓ} :
    {A : Type ℓ} (p : A → Bool) (xs : List A) → any p xs ≡ true → (x : A) × Memᴰ x xs × (p x ≡ true)
any-row p [] e = cc
any-row p (y ∷ xs) e = elim (Bool-cases (p y)) [
  | inl t ↦ (y, Memᴰ.head refl, t)
  | inr t ↦ let (x, m, h) = any-row p xs (rw t at e) in (x, Memᴰ.tail m, h)
]

-- The rows that pass, with the reason.
pub filter-Memᴰ {ℓ} :
    {A : Type ℓ} (p : A → Bool) (xs : List A) → All (λ x. Memᴰ x xs × (p x ≡ true)) (filter p xs)
filter-Memᴰ p [] = tt
filter-Memᴰ p (x ∷ xs) =
    let rest = All-mp (filter p xs) (λ y h. (Memᴰ.tail {x = x} h.0, h.1)) (filter-Memᴰ p xs) in
    elim (Bool-cases (p x)) [ inl e ↦ rw e ((Memᴰ.head refl, e), rest) | inr e ↦ rw e rest ]

-- No number occurs twice.
abbrev pub Distinct : List ℕ → Type 0
Distinct [] = Unit
Distinct (x ∷ xs) = (contains xs x ≡ false) × Distinct xs

pub Distinct-snoc :
    (xs : List ℕ) (y : ℕ) → Distinct xs → contains xs y ≡ false → Distinct (xs ++ y ∷ [])
Distinct-snoc [] y h e = (refl, tt)
Distinct-snoc (x ∷ xs) y h e = (
  ground (arith, any-append (λ (z : ℕ). z == x) xs (y ∷ [])),
  Distinct-snoc xs y h.1 (ground arith),
)

-- To split on a computed list and keep the equation.
pub List-cases {ℓ} :
    {A : Type ℓ} (xs : List A) → (xs ≡ []) ⊎ ((x : A) × (rest : List A) × (xs ≡ x ∷ rest))
List-cases [] = inl refl
List-cases (x ∷ xs) = inr (x, xs, refl)
