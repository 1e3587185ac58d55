-- ===== src/Signals/Independence/Lineage.antt =====
-- semi_intel/signals/independence.py: the unions along quotes, replies and attributions.
use semiconductor_intelligen.Prelude.{
  ℕ, String, ◌≡◌, refl, subst, ◌≢◌, ◌⊎◌, inl, inr, Bool, true, not, ◌&&◌, Option, none, some, List,
  ◌++◌, map, Memᴰ, arith, ◌==◌, Bool-cases, any, filter, All,
}
use semiconductor_intelligen.Prelude.Rows.{
  All-append, All-mp, All-Memᴰ, All-of_Memᴰ, All-concat_map, All-of_concat_map, All-map, All-of_map,
  Memᴰ-filter, any-Memᴰ, any-row, filter-Memᴰ,
}
use semiconductor_intelligen.Signals.Independence.{
  Item, link, UnionCall, known_parent, lineage_calls, credits, citation_calls,
}
use mathlib.Core.List.Memᴰ

-- One item quotes or answers the other. An id that is 0 counts as missing.
abbrev pub Answers : List Item → ℕ → ℕ → Type 0
Answers items x y =
    (a : Item) × (b : Item) × Memᴰ a items
    × Memᴰ b items
    × (a.id ≡ x)
    × (b.id ≡ y)
    × (y ≢ 0)
    × ((a.quoted_signal_item_id ≡ some y) ⊎ (a.reply_to_signal_item_id ≡ some y))

abbrev Known : List Item → ℕ → Type 0
Known items y = (b : Item) × Memᴰ b items × (b.id ≡ y)

known_parent_sound :
    (items : List Item) (o : Option ℕ)
    → All (λ y. Known items y × (y ≢ 0) × (o ≡ some y)) (known_parent items o)
known_parent_sound items none = tt
known_parent_sound items (some y) =
    elim (Bool-cases (not (y == 0) && any (λ it. it.id == y) items)) [
      | inl t ↦
          let (b, m, e) = any-row (λ (it : Item). it.id == y) items (ground arith) in
          rw t (((b, m, ground arith), ground arith, refl), tt)
      | inr t ↦ rw t tt
    ]

known_parent-complete :
    (items : List Item) (o : Option ℕ) (y : ℕ)
    → Known items y
    → y ≢ 0
    → o ≡ some y
    → Memᴰ y (known_parent items o)
known_parent-complete items none y k n e = cc
known_parent-complete items (some z) y (b, m, same) n e =
    let found = any-Memᴰ (λ (it : Item). it.id == z) items (ground arith) m in
    let t : (not (z == 0) && any (λ it. it.id == z) items) ≡ true = ground arith in
    rw t (Memᴰ.head (ground arith))

abbrev parents_of : List Item → Item → List ℕ
parents_of items it =
    known_parent items it.quoted_signal_item_id ++ known_parent items it.reply_to_signal_item_id

module _ (items : List Item) where
  parents_of_sound :
      (a : Item) → Memᴰ a items → All (λ y. Answers items a.id y) (parents_of items a)
  parents_of_sound a m =
      All-append (λ y. Answers items a.id y) (known_parent items a.quoted_signal_item_id)
        (known_parent items a.reply_to_signal_item_id)
        (All-mp (known_parent items a.quoted_signal_item_id)
          (λ y ((b, mb, e), n, q). (a, b, m, mb, refl, e, n, inl q))
          (known_parent_sound items a.quoted_signal_item_id))
        (All-mp (known_parent items a.reply_to_signal_item_id)
          (λ y ((b, mb, e), n, q). (a, b, m, mb, refl, e, n, inr q))
          (known_parent_sound items a.reply_to_signal_item_id))

  pub lineage_calls_sound : All (λ c. Answers items c.0 c.1) (lineage_calls items items)
  lineage_calls_sound =
      All-concat_map (λ (c : UnionCall). Answers items c.0 c.1) _ items
        (All-of_Memᴰ _ items (λ a m.
          All-map (λ (c : UnionCall). Answers items c.0 c.1) (λ y. (a.id, y, "lineage"))
            (parents_of items a) (parents_of_sound a m)))

  parents_of-complete :
      (a : Item) (y : ℕ)
      → Known items y
      → y ≢ 0
      → (a.quoted_signal_item_id ≡ some y) ⊎ (a.reply_to_signal_item_id ≡ some y)
      → Memᴰ y (parents_of items a)
  parents_of-complete a y k n (inl e) =
      Memᴰ.append_left (known_parent items a.reply_to_signal_item_id)
        (known_parent-complete items a.quoted_signal_item_id y k n e)
  parents_of-complete a y k n (inr e) =
      Memᴰ.append_right (known_parent items a.quoted_signal_item_id)
        (known_parent-complete items a.reply_to_signal_item_id y k n e)

  pub lineage_calls-complete {κ} :
      (Q : ℕ → ℕ → Type κ) (x y : ℕ)
      → All (λ c. Q c.0 c.1) (lineage_calls items items)
      → Answers items x y
      → Q x y
  lineage_calls-complete Q x y h (a, b, ma, mb, ea, eb, n, link) =
      let rounds =
        All-of_concat_map (λ (c : UnionCall). Q c.0 c.1)
          (λ (it : Item). map (λ p. (it.id, p, "lineage")) (parents_of items it)) items h in
      let calls =
        All-of_map (λ (c : UnionCall). Q c.0 c.1) (λ p. (a.id, p, "lineage")) (parents_of items a)
          (All-Memᴰ _ items rounds ma) in
      subst (λ z. Q z y) ea
        (All-Memᴰ (Q a.id) (parents_of items a) calls (parents_of-complete a y (b, mb, eb) n link))

  module _ (canonical_url lower : String → String) (is_in : String → String → Bool)
      (extract_attributed_names : String → List String) where
    abbrev credited : Item → Item → Bool
    credited a b =
        not (a.id == b.id)
        && credits canonical_url lower is_in extract_attributed_names
            (extract_attributed_names a.normalized_text) b

    -- The text of one item credits a name of the other.
    abbrev pub Cites : ℕ → ℕ → Type 0
    Cites x y =
        (a : Item) × (b : Item) × Memᴰ a items
        × Memᴰ b items
        × (a.id ≡ x)
        × (b.id ≡ y)
        × (x ≢ y)
        × (credits canonical_url lower is_in extract_attributed_names
              (extract_attributed_names a.normalized_text) b
            ≡ true)

    abbrev cited_by : Item → List UnionCall
    cited_by a = map (λ b. (a.id, b.id, "citation")) (filter (credited a) items)

    cited_by_sound : (a : Item) → Memᴰ a items → All (λ c. Cites c.0 c.1) (cited_by a)
    cited_by_sound a m =
        All-map (λ (c : UnionCall). Cites c.0 c.1) (λ (b : Item). (a.id, b.id, "citation"))
          (filter (credited a) items)
          (All-mp (filter (credited a) items)
            (λ b (mb, e). (a, b, m, mb, refl, refl, ground arith, ground arith))
            (filter-Memᴰ (credited a) items))

    pub citation_calls_sound :
        All
          (λ c. Cites c.0 c.1)
          (citation_calls canonical_url lower is_in extract_attributed_names items items)
    citation_calls_sound =
        All-concat_map (λ (c : UnionCall). Cites c.0 c.1) cited_by items
          (All-of_Memᴰ _ items cited_by_sound)

    pub citation_calls-complete {κ} :
        (Q : ℕ → ℕ → Type κ) (x y : ℕ)
        → All
            (λ c. Q c.0 c.1)
            (citation_calls canonical_url lower is_in extract_attributed_names items items)
        → Cites x y
        → Q x y
    citation_calls-complete Q x y h (a, b, ma, mb, ea, eb, n, e) =
        let rounds = All-of_concat_map (λ (c : UnionCall). Q c.0 c.1) cited_by items h in
        let calls =
          All-of_map (λ (c : UnionCall). Q c.0 c.1) (λ (b : Item). (a.id, b.id, "citation"))
            (filter (credited a) items) (All-Memᴰ _ items rounds ma) in
        let apart : a.id ≢ b.id = ground arith in
        let row =
          All-Memᴰ (λ (b : Item). Q a.id b.id) (filter (credited a) items) calls
            (Memᴰ-filter (credited a) items (ground arith) mb) in
        subst (λ z. Q z y) ea (subst (Q a.id) eb row)
