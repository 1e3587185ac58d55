-- ===== src/Signals/Independence/Grouping.antt =====
-- semi_intel/signals/independence.py: group_items against the relation that its documentation lists.
use semiconductor_intelligen.Prelude.{
  ℕ, ◌≤◌, String, ◌≡◌, refl, sym, ap, ◌∙◌, subst, Bool, some, List, [], ◌∷◌, map, Memᴰ, arith,
  length, All,
}
use semiconductor_intelligen.Prelude.Rows.{All-append, All-mp, All-Memᴰ, All-split}
use semiconductor_intelligen.Signals.Independence.{
  Item, UnionFind, Groups, UnionCall, groups_of, find_all, url_key, author_key, union_calls,
  singletons, group_items,
}
use semiconductor_intelligen.Signals.Independence.Find.{
  Leads, at_root, up, Leads-longer, Leads-unique, find_root-Found,
}
use semiconductor_intelligen.Signals.Independence.Union.{
  Closure, Forest, related, itself, back, via, Joined,
}
use semiconductor_intelligen.Signals.Independence.Unions.{run_unions-Ran}
use semiconductor_intelligen.Signals.Independence.Index.{
  SameKey, key_calls_sound, key_calls-complete,
}
use semiconductor_intelligen.Signals.Independence.Lineage.{
  Answers, lineage_calls_sound, lineage_calls-complete, Cites, citation_calls_sound,
  citation_calls-complete,
}

-- Each item with a root that it is led to.
Rooted : (ℕ → ℕ) → ℕ → List (ℕ × ℕ) → Type 0
Rooted parent depth = All (λ entry. Leads parent depth entry.0 entry.1)

find_all-Rooted :
    (fuel depth : ℕ) (items : List Item) (parent original : ℕ → ℕ)
    → depth ≤ fuel
    → ((x : ℕ) → (r : ℕ) × Leads original depth x r)
    → ((k z s : ℕ) → Leads original k z s → Leads parent k z s)
    → (roots : List (ℕ × ℕ)) × (find_all fuel items parent ≡ some roots)
      × Rooted original depth roots
      × (map (λ (entry : ℕ × ℕ). entry.0) roots ≡ map (λ (it : Item). it.id) items)
unfolding find_all Rooted
find_all-Rooted fuel depth [] parent original e total kept = ([], refl, tt, refl)
find_all-Rooted fuel depth (it ∷ items) parent original e total kept =
    let (r, l) = total it.id in
    let found = find_root-Found fuel parent (Leads-longer e (kept depth it.id r l)) in
    let (roots, answer, rooted, ids) =
      find_all-Rooted fuel depth items found.after original e total
        (λ k z s m. found.kept (kept k z s m)) in
    (
      (it.id, r) ∷ roots,
      rw found.answer (rw answer refl),
      (l, rooted),
      ap (λ (rest : List ℕ). it.id ∷ rest) ids,
    )

module _ (canonical_url lower : String → String) (is_in : String → String → Bool)
    (extract_attributed_names : String → List String) where
  -- Why two items depend on each other.
  pub data Depends (items : List Item) (x y : ℕ) : Type 0 where
    same_url :
        SameKey (url_key canonical_url lower is_in extract_attributed_names) items x y
        → Depends items x y
    same_author :
        SameKey (author_key canonical_url lower is_in extract_attributed_names) items x y
        → Depends items x y
    lineage : Answers items x y → Depends items x y
    citation :
        Cites items canonical_url lower is_in extract_attributed_names x y → Depends items x y

  module _ (items : List Item) where
    abbrev pub Dependent : ℕ → ℕ → Type 0
    Dependent = Closure (Depends items)

    abbrev calls : List UnionCall
    calls = union_calls canonical_url lower is_in extract_attributed_names items

    calls_sound : All (λ c. Dependent c.0 c.1) calls
    calls_sound =
        let P = λ (c : UnionCall). Dependent c.0 c.1 in
        let by_url =
          key_calls_sound (url_key canonical_url lower is_in extract_attributed_names) items
            "same_url" in
        let by_author =
          key_calls_sound (author_key canonical_url lower is_in extract_attributed_names) items
            "same_author" in
        let by_lineage = lineage_calls_sound items in
        let by_citation =
          citation_calls_sound items canonical_url lower is_in extract_attributed_names in
        All-append P _ _ (All-mp _ (λ c h. related (same_url h)) by_url) (
          All-append P _ _ (All-mp _ (λ c h. related (same_author h)) by_author) (
            All-append P _ _ (All-mp _ (λ c h. related (lineage h)) by_lineage)
              (All-mp _ (λ c h. related (citation h)) by_citation)))

    module _ {κ} (Q : ℕ → ℕ → Type κ) (id : (x : ℕ) → Q x x) (back_q : (x y : ℕ) → Q x y → Q y x)
        (via_q : (x y z : ℕ) → Q x y → Q y z → Q x z) (h : All (λ c. Q c.0 c.1) calls) where
      calls-complete : (x y : ℕ) → Depends items x y → Q x y
      calls-complete x y d =
          let P = λ (c : UnionCall). Q c.0 c.1 in
          let (by_url, rest) = All-split P _ _ h in
          let (by_author, others) = All-split P _ _ rest in
          let (by_lineage, by_citation) = All-split P _ _ others in
          elim d [
            | same_url s ↦
                key_calls-complete (url_key canonical_url lower is_in extract_attributed_names)
                  items Q id back_q via_q "same_url" x y by_url s
            | same_author s ↦
                key_calls-complete (author_key canonical_url lower is_in extract_attributed_names)
                  items Q id back_q via_q "same_author" x y by_author s
            | lineage s ↦ lineage_calls-complete items Q x y by_lineage s
            | citation s ↦
                citation_calls-complete items canonical_url lower is_in extract_attributed_names Q x
                  y by_citation s
          ]

      Dependent-least : {x y : ℕ} → Dependent x y → Q x y
      Dependent-least {x} {y} (related d) = calls-complete x y d
      Dependent-least {x} itself = id x
      Dependent-least {x} {y} (back c) = back_q y x (Dependent-least c)
      Dependent-least {x} {y = z} (via {y} c d) =
          via_q x y z (Dependent-least c) (Dependent-least d)

    -- Each item once has a root, and two items have the same root exactly when they are dependent.
    pub record IsGrouping (groups : Groups) : Type 0 where
      pub ids : map (λ (entry : ℕ × ℕ). entry.0) groups.roots ≡ map (λ (it : Item). it.id) items
      pub exact :
          (x y r s : ℕ)
          → Memᴰ (x, r) groups.roots
          → Memᴰ (y, s) groups.roots
          → (r ≡ s → Dependent x y) × (Dependent x y → r ≡ s)

    Forest-singletons :
        Forest (Depends items) 0 (singletons canonical_url lower is_in extract_attributed_names)
    Forest-singletons = record { total = λ x. (x, at_root refl); sound = λ l. single l }
      where
        single : {k x r : ℕ} → Leads (λ x. x) k x r → Dependent x r
        single (at_root e) = itself
        single (up n l) = absurd (n refl)

    Joined-via :
        (parent : ℕ → ℕ) (m x y z : ℕ)
        → Joined parent m x y
        → Joined parent m y z
        → Joined parent m x z
    Joined-via parent m x y z (r, lx, ly) (s, my, mz) =
        (r, lx, subst (Leads parent m z) (Leads-unique my ly) mz)

    exact_roots :
        (depth : ℕ) (uf : UnionFind)
        → Forest (Depends items) depth uf
        → All (λ c. Joined uf.parent depth c.0 c.1) calls
        → (roots : List (ℕ × ℕ)) → Rooted uf.parent depth roots
        → (x y r s : ℕ) → Memᴰ (x, r) roots
        → Memᴰ (y, s) roots
        → (r ≡ s → Dependent x y) × (Dependent x y → r ≡ s)
    unfolding Rooted
    exact_roots depth uf forest joins roots rooted x y r s mx my =
        let lx =
          All-Memᴰ (λ (entry : ℕ × ℕ). Leads uf.parent depth entry.0 entry.1) roots rooted mx in
        let ly =
          All-Memᴰ (λ (entry : ℕ × ℕ). Leads uf.parent depth entry.0 entry.1) roots rooted my in
        (
          λ e. via (forest.sound lx) (subst (λ z. Dependent z y) (sym e) (back (forest.sound ly))),
          λ d.
              let (t, jx, jy) =
                Dependent-least (Joined uf.parent depth)
                  (λ z. let (t, l) = forest.total z in (t, l, l)) (λ _ _ (t, l, m). (t, m, l))
                  (Joined-via uf.parent depth) joins d in
              Leads-unique lx jx ∙ Leads-unique jy ly,
        )

  -- group_items returns: it gives every item, in order, a root, and two items have the same root
  -- exactly when a chain of items, each with the next one's URL, author, a quote or reply, or an
  -- attribution in either direction, leads from one to the other.
  pub group_items-IsGrouping :
      (items : List Item)
      → (groups : Groups) × (group_items canonical_url lower is_in extract_attributed_names items
          ≡ some groups)
        × IsGrouping items groups
  unfolding group_items
  group_items-IsGrouping items =
      let ran =
        run_unions-Ran (Depends items) (length (calls items)) 0 (calls items)
          (singletons canonical_url lower is_in extract_attributed_names) (omega arith)
          (calls_sound items) (Forest-singletons items) in
      let (roots, answer, rooted, ids) =
        find_all-Rooted (length (calls items)) ran.depth items ran.next.parent ran.next.parent
          (omega (arith, ran.shallow)) ran.forest.total (λ k z s l. l) in
      (
        groups_of ran.next.reason roots,
        rw ran.answered (rw answer refl),
        record {
          ids = ids;
          exact = exact_roots items ran.depth ran.next ran.forest ran.joins roots rooted;
        },
      )
