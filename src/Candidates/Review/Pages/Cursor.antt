-- ===== src/Candidates/Review/Pages/Cursor.antt =====
-- What a page holds.
use semiconductor_intelligen.Prelude.{
  ℕ, zero, suc, ◌≤◌, ◌<◌, ◌≡◌, refl, sym, ap, subst, ◌⊎◌, inl, inr, Bool, true, false, ◌&&◌, some,
  List, [], ◌∷◌, ◌++◌, arith, ltb, Bool-cases, length, filter, All,
}
use semiconductor_intelligen.Prelude.Rows.{All-mp}
use mathlib.Core.List.Permᴰ
use mathlib.Core.List.{Permᴰ}
use semiconductor_intelligen.Candidates.State.{SignalCandidate}
use semiconductor_intelligen.Candidates.Review.{
  CandidateReview, CandidateQueueFilters, is_unreviewed, base_unreviewed_query,
}
use semiconductor_intelligen.Candidates.Review.Pages.{
  limit, insert_row, order_rows, by_score, fetch_candidate_review_queue_page,
}

-- No later row comes before an earlier one.
abbrev IsOrdered {ℓ} : {A : Type ℓ} → (A → A → Bool) → List A → Type ℓ
IsOrdered first [] = Unit
IsOrdered first (x ∷ xs) = All (λ y. first y x ≡ false) xs × IsOrdered first xs

-- What `OFFSET n` leaves.
skip_rows {ℓ} : {A : Type ℓ} → ℕ → List A → List A
skip_rows zero xs = xs
skip_rows (suc n) [] = []
skip_rows (suc n) (x ∷ xs) = skip_rows n xs

module _ {ℓ} {A : Type ℓ} where
  limit-skip_rows : (n : ℕ) (xs : List A) → limit n xs ++ skip_rows n xs ≡ xs
  unfolding skip_rows
  limit-skip_rows zero xs = refl
  limit-skip_rows (suc n) [] = refl
  limit-skip_rows (suc n) (x ∷ xs) = ap (λ rest. x ∷ rest) (limit-skip_rows n xs)

  length-limit : (n : ℕ) (xs : List A) → length (limit n xs) ≤ n
  length-limit zero xs = omega arith
  length-limit (suc n) [] = omega arith
  length-limit (suc n) (x ∷ xs) = omega (arith, length-limit n xs)

  limit_full : (n : ℕ) (xs : List A) → (skip_rows n xs ≡ []) ⊎ (length (limit n xs) ≡ n)
  unfolding skip_rows
  limit_full zero xs = inr refl
  limit_full (suc n) [] = inl refl
  limit_full (suc n) (x ∷ xs) = elim (limit_full n xs) [ inl e ↦ inl e | inr e ↦ inr (ap suc e) ]

  filter-filter :
      (p q : A → Bool) (xs : List A) → filter q (filter p xs) ≡ filter (λ x. p x && q x) xs
  filter-filter p q [] = refl
  filter-filter p q (x ∷ xs) = elim (Bool-cases (p x)) [
    | inl e ↦ rw (e, filter-filter p q xs) refl
    | inr e ↦ rw (e, filter-filter p q xs) refl
  ]

  module _ (first : A → A → Bool) where
    insert_row-Permᴰ : (a : A) (xs : List A) → Permᴰ (insert_row first a xs) (a ∷ xs)
    unfolding insert_row
    insert_row-Permᴰ a [] = Permᴰ.refl (a ∷ [])
    insert_row-Permᴰ a (x ∷ xs) = elim (Bool-cases (first a x)) [
      | inl e ↦ rw e (Permᴰ.refl (a ∷ x ∷ xs))
      | inr e ↦ rw e (Permᴰ.trans (Permᴰ.cons refl (insert_row-Permᴰ a xs)) (Permᴰ.swap refl refl))
    ]

    -- The rows stay the same.
    order_rows-Permᴰ : (xs : List A) → Permᴰ (order_rows first xs) xs
    unfolding order_rows
    order_rows-Permᴰ [] = Permᴰ.nil
    order_rows-Permᴰ (x ∷ xs) =
        Permᴰ.trans (insert_row-Permᴰ x (order_rows first xs))
          (Permᴰ.cons refl (order_rows-Permᴰ xs))

    All-insert_row :
        (P : A → Type 0) (a : A) (xs : List A) → P a → All P xs → All P (insert_row first a xs)
    unfolding insert_row
    All-insert_row P a [] p h = (p, tt)
    All-insert_row P a (x ∷ xs) p h = elim (Bool-cases (first a x)) [
      | inl e ↦ rw e (p, h)
      | inr e ↦ rw e (h.0, All-insert_row P a xs p h.1)
    ]

    -- For a test that is transitive and asymmetric the rows come in order.
    module _ (behind : (a b c : A) → first a b ≡ true → first c b ≡ false → first c a ≡ false)
        (asym : (a b : A) → first a b ≡ true → first b a ≡ false) where
      insert_row-IsOrdered :
          (a : A) (xs : List A) → IsOrdered first xs → IsOrdered first (insert_row first a xs)
      unfolding insert_row
      insert_row-IsOrdered a [] h = (tt, tt)
      insert_row-IsOrdered a (x ∷ xs) h = elim (Bool-cases (first a x)) [
        | inl e ↦ rw e ((asym a x e, All-mp xs (λ c late. behind a x c e late) h.0), h)
        | inr e ↦
            rw e (All-insert_row (λ y. first y x ≡ false) a xs e h.0, insert_row-IsOrdered a xs h.1)
      ]

      order_rows-IsOrdered : (xs : List A) → IsOrdered first (order_rows first xs)
      unfolding order_rows
      order_rows-IsOrdered [] = tt
      order_rows-IsOrdered (x ∷ xs) =
          insert_row-IsOrdered x (order_rows first xs) (order_rows-IsOrdered xs)

by_score-behind :
    (a b c : SignalCandidate) → by_score a b ≡ true → by_score c b ≡ false → by_score c a ≡ false
by_score-behind a b c e late = ground arith

by_score-asym : (a b : SignalCandidate) → by_score a b ≡ true → by_score b a ≡ false
by_score-asym a b e = ground arith

-- By falling score, and by falling id where scores are equal.
abbrev pub IsRanked : List SignalCandidate → Type 0
IsRanked [] = Unit
IsRanked (x ∷ xs) =
    All
      (λ (y : SignalCandidate).
        (y.attention_score < x.attention_score)
        ⊎ ((y.attention_score ≡ x.attention_score) × (y.id ≤ x.id)))
      xs
    × IsRanked xs

IsRanked-of_ordered : (xs : List SignalCandidate) → IsOrdered by_score xs → IsRanked xs
IsRanked-of_ordered [] h = tt
IsRanked-of_ordered (x ∷ xs) h =
    (All-mp xs (λ y late. ranked y late) h.0, IsRanked-of_ordered xs h.1)
  where
    ranked :
        (y : SignalCandidate)
        → by_score y x ≡ false
        → (y.attention_score < x.attention_score)
          ⊎ ((y.attention_score ≡ x.attention_score) × (y.id ≤ x.id))
    ranked y late = ground arith

-- A page of the queue behind a cursor is the first `size` rows, by falling score and then falling
-- id, of the unreviewed candidates whose id is below the cursor, whatever their score; it is
-- shorter only where there are no further ones.
pub page-behind_cursor :
    (filters : CandidateQueueFilters) (topics : List (ℕ × ℕ)) (rows : List CandidateReview)
    (before_id size : ℕ) (candidates : List SignalCandidate)
    → let page =
        fetch_candidate_review_queue_page filters topics rows (some before_id) size candidates in
      (rest : List SignalCandidate) × Permᴰ (page ++ rest) (
        filter
          (λ (c : SignalCandidate). is_unreviewed filters topics rows c && ltb c.id before_id)
          candidates)
      × IsRanked (page ++ rest)
      × (length page ≤ size)
      × ((rest ≡ []) ⊎ (length page ≡ size))
unfolding fetch_candidate_review_queue_page base_unreviewed_query
page-behind_cursor filters topics rows before_id size candidates =
    let below = λ (c : SignalCandidate). ltb c.id before_id in
    let matching = filter below (filter (is_unreviewed filters topics rows) candidates) in
    let expected : List SignalCandidate =
      filter (λ c. is_unreviewed filters topics rows c && ltb c.id before_id) candidates in
    let ordered = order_rows by_score matching in
    let whole = limit-skip_rows size ordered in
    (
      skip_rows size ordered,
      subst (λ xs. Permᴰ xs expected) (sym whole)
          (subst (Permᴰ ordered)
            (filter-filter (is_unreviewed filters topics rows) below candidates)
            (order_rows-Permᴰ by_score matching)),
      subst IsRanked (sym whole) (
          IsRanked-of_ordered ordered
            (order_rows-IsOrdered by_score by_score-behind by_score-asym matching)),
      length-limit size ordered,
      limit_full size ordered,
    )
