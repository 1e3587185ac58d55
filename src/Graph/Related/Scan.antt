-- ===== src/Graph/Related/Scan.antt =====
-- semi_intel/graph/queries.py: the loop over relationships on a search.
use semiconductor_intelligen.Prelude.{
  ℕ, suc, ◌<◌, String, ◌≡◌, refl, sym, ap, subst, inl, inr, true, false, Option, none, some, List,
  [], ◌∷◌, ◌++◌, map, Memᴰ, map-append, arith, ◌==◌, ==_iff, Bool-cases, is_some, All, contains,
}
use semiconductor_intelligen.Prelude.Rows.{find-true}
use semiconductor_intelligen.Graph.Entities.{Entity, Relationship, Graph, get_entity}
use semiconductor_intelligen.Graph.Related.{
  GraphNode, Search, is_incident, neighbor_of, node_of, mark, enter, offer, scan,
}
use semiconductor_intelligen.Graph.Related.Sweep.{
  Within, Held, hop, Links, Labels, near, near-snoc, Held-mark, Held-enter,
}

abbrev pub label_of : GraphNode → ℕ × ℕ
label_of node = (node.entity_id, node.depth)

module _ (g : Graph) (origin max_depth : ℕ) where
  abbrev pub labels_of : Search → Labels
  labels_of s = (origin, 0) ∷ map label_of s.results

  unfoldable pub Holds : ℕ → ℕ → Search → Type 0
  Holds current depth s = Held g origin max_depth current depth s.visited s.queue (labels_of s)

  abbrev pub Grows : Search → Search → Type 0
  Grows s t = (v most : ℕ) → near (labels_of s) v most ≡ true → near (labels_of t) v most ≡ true

  -- What one relationship does to the facts that are kept.
  record Offered (current depth n : ℕ) (s t : Search) : Type 0 where
    held : Holds current depth t
    grows : Grows s t
    labelled : is_some (get_entity n g.entities) ≡ true → near (labels_of t) n (suc depth) ≡ true

  labels_of-snoc :
      (s : Search) (node : GraphNode)
      → labels_of s ++ label_of node ∷ [] ≡ (origin, 0) ∷ map label_of (s.results ++ node ∷ [])
  labels_of-snoc s node =
      ap (λ ls. (origin, 0) ∷ ls) (sym (map-append label_of s.results (node ∷ [])))

  Offered-enter :
      (current depth n : ℕ) (current_name : Option String) (rel : Relationship)
      (found : Option Entity) (s : Search)
      → get_entity n g.entities ≡ found
      → contains s.visited n ≡ false
      → depth < max_depth
      → (is_some (get_entity n g.entities) ≡ true → Within g origin n (suc depth))
      → Holds current depth s
      → Offered current depth n s (enter n depth current_name rel found (mark n s))
  unfolding Holds
  Offered-enter current depth n current_name rel none s e new less walk h = record {
    held =
        Held-mark g origin max_depth current depth s.visited s.queue (labels_of s) n
          (ground (arith, e)) h;
    grows = λ v most t. t;
    labelled = λ there. cc;
  }
  Offered-enter current depth n current_name rel (some neighbor) s e new less walk h =
      let node = node_of depth current_name rel neighbor in
      let same : neighbor.id ≡ n =
        (==_iff neighbor.id n).0 (find-true (λ (x : Entity). x.id == n) g.entities neighbor e) in
      let labels' : labels_of s ++ (n, suc depth) ∷ []
          ≡ (origin, 0) ∷ map label_of (s.results ++ node ∷ []) =
        subst
          (λ i.
            labels_of s ++ (i, suc depth) ∷ []
            ≡ (origin, 0) ∷ map label_of (s.results ++ node ∷ []))
          same (labels_of-snoc s node) in
      record {
        held =
            subst
              (Held g origin max_depth current depth (n ∷ s.visited)
                (s.queue ++ (n, suc depth) ∷ []))
              labels'
              (Held-enter g origin max_depth current depth s.visited s.queue (labels_of s) n new
                less (walk (ground (arith, e))) h);
        grows = λ v most t.
            subst (λ ls. near ls v most ≡ true) labels'
              (ground (arith, near-snoc (labels_of s) v most n (suc depth)));
        labelled = λ there.
            subst (λ ls. near ls n (suc depth) ≡ true) labels'
              (ground (arith, near-snoc (labels_of s) n (suc depth) n (suc depth)));
      }

  Offered-offer :
      (current depth : ℕ) (current_name : Option String) (rel : Relationship) (s : Search)
      → Memᴰ rel g.relationships
      → is_incident current rel ≡ true
      → depth < max_depth
      → Within g origin current depth
      → Holds current depth s
      → Offered current depth (neighbor_of current rel) s (offer g current depth current_name rel s)
  unfolding offer Holds
  Offered-offer current depth current_name rel s m incident less walk h =
      let n = neighbor_of current rel in
      let linked : Links current n rel = ground arith in
      elim (Bool-cases (contains s.visited n)) [
        | inl seen ↦
            rw seen (record { held = h; grows = λ v most t. t; labelled = h.covers n seen })
        | inr new ↦ rw new (
            Offered-enter current depth n current_name rel (get_entity n g.entities) s refl new less
              (λ there. hop walk (rel, m, linked, there)) h)
      ]

  pub record Scanned (current depth : ℕ) (rels : List Relationship) (s t : Search) : Type 0 where
    pub held : Holds current depth t
    pub grows : Grows s t
    pub labelled :
        All
          (λ rel.
            is_some (get_entity (neighbor_of current rel) g.entities) ≡ true
            → near (labels_of t) (neighbor_of current rel) (suc depth) ≡ true)
          rels

  pub Scanned-scan :
      (current depth : ℕ) (current_name : Option String) (rels : List Relationship) (s : Search)
      → All (λ rel. Memᴰ rel g.relationships × (is_incident current rel ≡ true)) rels
      → depth < max_depth
      → Within g origin current depth
      → Holds current depth s
      → Scanned current depth rels s (scan g current depth current_name rels s)
  unfolding scan
  Scanned-scan current depth current_name [] s ms less walk h = record {
    held = h;
    grows = λ v most t. t;
    labelled = tt;
  }
  Scanned-scan current depth current_name (rel ∷ rels) s ms less walk h =
      let first = Offered-offer current depth current_name rel s ms.0.0 ms.0.1 less walk h in
      let rest =
        Scanned-scan current depth current_name rels (offer g current depth current_name rel s) ms.1
          less walk first.held in
      record {
        held = rest.held;
        grows = λ v most t. rest.grows v most (first.grows v most t);
        labelled = (
          λ there. rest.grows (neighbor_of current rel) (suc depth) (first.labelled there),
          rest.labelled,
        );
      }
