-- ===== src/Signals/Independence/Index.antt =====
-- semi_intel/signals/independence.py: the two dicts of ids by key, and the unions along them.
use semiconductor_intelligen.Prelude.{
  ℕ, String, ◌≡◌, refl, sym, subst, ◌⊎◌, inl, inr, Bool, true, false, Option, none, some, List, [],
  ◌∷◌, ◌++◌, Memᴰ, arith, str_eq, eq_iff, if◌then◌else◌, Bool-cases, All,
}
use semiconductor_intelligen.Prelude.Rows.{
  All-append, All-mp, All-Memᴰ, All-of_Memᴰ, All-concat_map, All-of_concat_map, All-map, All-of_map,
}
use semiconductor_intelligen.Prelude.Dict.{Dict, get, get-put, All-put, All-get}
use semiconductor_intelligen.Signals.Independence.{
  Item, UnionCall, ids_in, index_item, index_from, star, key_calls,
}
use mathlib.Core.List.Memᴰ

abbrev is_key : String → Option String → Bool
is_key k none = false
is_key k (some j) = str_eq j k

is_key-some : (k : String) (key : Option String) → key ≡ some k → is_key k key ≡ true
is_key-some k none e = cc
is_key-some k (some j) e = (eq_iff j k).1 (ground arith)

-- All pairs of a star are related by an equivalence that has its edges.
star-joins {κ} :
    (Q : ℕ → ℕ → Type κ)
    → ((x : ℕ) → Q x x)
    → ((x y : ℕ) → Q x y → Q y x)
    → ((x y z : ℕ) → Q x y → Q y z → Q x z)
    → (reason : String) (ids : List ℕ) → All (λ c. Q c.0 c.1) (star reason ids)
    → (x y : ℕ) → Memᴰ x ids
    → Memᴰ y ids
    → Q x y
star-joins Q id back via reason [] h x y mx my = absurd (Memᴰ.not-nil mx)
star-joins Q id back via reason (first ∷ others) h x y mx my =
    via x first y (back first x (from_first x mx)) (from_first y my)
  where
    edges : All (λ other. Q first other) others
    edges =
        All-of_map (λ (c : UnionCall). Q c.0 c.1) (λ (other : ℕ). (first, other, reason)) others h

    from_first : (z : ℕ) → Memᴰ z (first ∷ others) → Q first z
    from_first z (Memᴰ.head e) = subst (Q first) (sym e) (id first)
    from_first z (Memᴰ.tail m) = All-Memᴰ (Q first) others edges m

module _ (key : Item → Option String) (items : List Item) where
  -- The two ids belong to items with the same key.
  abbrev pub SameKey : ℕ → ℕ → Type 0
  SameKey x y =
      (k : String) × (a : Item) × (b : Item) × Memᴰ a items
      × Memᴰ b items
      × (a.id ≡ x)
      × (b.id ≡ y)
      × (key a ≡ some k)
      × (key b ≡ some k)

  abbrev HasKey : String → ℕ → Type 0
  HasKey k x = (a : Item) × Memᴰ a items × (a.id ≡ x) × (key a ≡ some k)

  abbrev HasKeys : String × List ℕ → Type 0
  HasKeys entry = All (HasKey entry.0) entry.1

  HasKeys-in :
      (k : String) (o : Option (List ℕ)) (d : Dict (List ℕ))
      → get k d ≡ o
      → All HasKeys d
      → All (HasKey k) (ids_in o)
  HasKeys-in k none d e hs = tt
  HasKeys-in k (some ids) d e hs = All-get HasKeys k ids d e hs

  HasKeys-item :
      (it : Item) (o : Option String) (d : Dict (List ℕ))
      → Memᴰ it items
      → key it ≡ o
      → All HasKeys d
      → All HasKeys (index_item o it.id d)
  HasKeys-item it none d m e hs = hs
  HasKeys-item it (some k) d m e hs =
      All-put HasKeys k (ids_in (get k d) ++ it.id ∷ []) d
        (All-append (HasKey k) (ids_in (get k d)) (it.id ∷ []) (HasKeys-in k (get k d) d refl hs)
          ((it, m, refl, e), tt))
        hs

  HasKeys-index :
      (rest : List Item) (d : Dict (List ℕ))
      → All (λ it. Memᴰ it items) rest
      → All HasKeys d
      → All HasKeys (index_from key rest d)
  unfolding index_from
  HasKeys-index [] d ms hs = hs
  HasKeys-index (it ∷ rest) d ms hs =
      HasKeys-index rest (index_item (key it) it.id d) ms.1
        (HasKeys-item it (key it) d ms.0 refl hs)

  HasKeys-star :
      (reason : String) (k : String) (ids : List ℕ)
      → All (HasKey k) ids
      → All (λ c. SameKey c.0 c.1) (star reason ids)
  HasKeys-star reason k [] hs = tt
  HasKeys-star reason k (first ∷ others) hs =
      let (a, ma, ea, ka) = hs.0 in
      All-map (λ (c : UnionCall). SameKey c.0 c.1) (λ other. (first, other, reason)) others
        (All-mp others (λ x (b, mb, eb, kb). (k, a, b, ma, mb, ea, eb, ka, kb)) hs.1)

  -- Every call is on items with the same key.
  pub key_calls_sound : (reason : String) → All (λ c. SameKey c.0 c.1) (key_calls reason key items)
  key_calls_sound reason =
      let d = index_from key items [] in
      All-concat_map (λ (c : UnionCall). SameKey c.0 c.1)
        (λ (entry : String × List ℕ). star reason entry.1) d
        (All-mp d (λ entry hs. HasKeys-star reason entry.0 entry.1 hs)
          (HasKeys-index items [] (All-of_Memᴰ _ items (λ it m. m)) tt))

  ids_in-item :
      (k : String) (o : Option String) (id : ℕ) (d : Dict (List ℕ))
      → ids_in (get k (index_item o id d))
        ≡ (if is_key k o then ids_in (get k d) ++ id ∷ [] else ids_in (get k d))
  ids_in-item k none id d = refl
  ids_in-item k (some j) id d =
      ground (arith, get-put j k (ids_in (get j d) ++ id ∷ []) d, eq_iff j k)

  stays :
      (k : String) (o : Option String) (id x : ℕ) (d : Dict (List ℕ))
      → Memᴰ x (ids_in (get k d))
      → Memᴰ x (ids_in (get k (index_item o id d)))
  stays k o id x d m = subst (Memᴰ x) (sym (ids_in-item k o id d)) (elim (Bool-cases (is_key k o)) [
    | inl t ↦ rw t (Memᴰ.append_left (id ∷ []) m)
    | inr t ↦ rw t m
  ])

  enters :
      (k : String) (o : Option String) (id : ℕ) (d : Dict (List ℕ))
      → o ≡ some k
      → Memᴰ id (ids_in (get k (index_item o id d)))
  enters k o id d e =
      subst (Memᴰ id) (sym (ids_in-item k o id d))
        (rw (is_key-some k o e) (Memᴰ.append_right (ids_in (get k d)) (Memᴰ.head refl)))

  -- An item is listed under its key, and stays listed.
  listed :
      (k : String) (a : Item) (rest : List Item) (d : Dict (List ℕ))
      → key a ≡ some k
      → Memᴰ a rest ⊎ Memᴰ a.id (ids_in (get k d))
      → Memᴰ a.id (ids_in (get k (index_from key rest d)))
  unfolding index_from
  listed k a [] d e (inl m) = absurd (Memᴰ.not-nil m)
  listed k a [] d e (inr m) = m
  listed k a (it ∷ rest) d e (inl (Memᴰ.head same)) =
      let here = enters k (key a) a.id d e in
      listed k a rest (index_item (key it) it.id d) e (
        inr
          (subst (λ (i : Item). Memᴰ a.id (ids_in (get k (index_item (key i) i.id d)))) same here))
  listed k a (it ∷ rest) d e (inl (Memᴰ.tail m)) =
      listed k a rest (index_item (key it) it.id d) e (inl m)
  listed k a (it ∷ rest) d e (inr m) =
      listed k a rest (index_item (key it) it.id d) e (inr (stays k (key it) it.id a.id d m))

  module _ {κ} (Q : ℕ → ℕ → Type κ) (id : (x : ℕ) → Q x x) (back : (x y : ℕ) → Q x y → Q y x)
      (via : (x y z : ℕ) → Q x y → Q y z → Q x z) where
    joins_ids :
        (reason k : String) (o : Option (List ℕ)) (x y : ℕ)
        → get k (index_from key items []) ≡ o
        → All (λ c. Q c.0 c.1) (key_calls reason key items)
        → Memᴰ x (ids_in o)
        → Memᴰ y (ids_in o)
        → Q x y
    joins_ids reason k none x y e h mx my = absurd (Memᴰ.not-nil mx)
    joins_ids reason k (some ids) x y e h mx my =
        let d = index_from key items [] in
        let stars =
          All-of_concat_map (λ (c : UnionCall). Q c.0 c.1)
            (λ (entry : String × List ℕ). star reason entry.1) d h in
        let edges =
          All-get (λ (entry : String × List ℕ). All (λ c. Q c.0 c.1) (star reason entry.1)) k ids d
            e stars in
        star-joins Q id back via reason ids edges x y mx my

    -- An equivalence that has the calls' pairs relates all items with the same key.
    pub key_calls-complete :
        (reason : String) (x y : ℕ)
        → All (λ c. Q c.0 c.1) (key_calls reason key items)
        → SameKey x y
        → Q x y
    key_calls-complete reason x y h (k, a, b, ma, mb, ea, eb, ka, kb) =
        let d = index_from key items [] in
        joins_ids reason k (get k d) x y refl h
          (subst (λ z. Memᴰ z (ids_in (get k d))) ea (listed k a items [] ka (inl ma)))
          (subst (λ z. Memᴰ z (ids_in (get k d))) eb (listed k b items [] kb (inl mb)))
