-- ===== src/Graph/Related/Shortest.antt =====
-- semi_intel/graph/queries.py: related_entities returns the entities within the given number of
-- hops, each once, with its distance.
use semiconductor_intelligen.Prelude.{
  ℕ, zero, suc, ◌≤◌, ◌≡◌, refl, ap, ◌∙◌, subst, ◌⊎◌, inl, inr, Bool, true, ◌&&◌, ◌||◌, some, List,
  [], ◌∷◌, map, arith, ltb, leb, ◌==◌, Bool-cases, is_some, length, any, filter, All, contains,
}
use semiconductor_intelligen.Prelude.Rows.{
  All-mp, All-of_filter, All-Memᴰ, filter-Memᴰ, Distinct, List-cases,
}
use semiconductor_intelligen.Graph.Entities.{Graph, get_entity}
use semiconductor_intelligen.Graph.Related.{
  GraphNode, Search, is_incident, neighbor_of, name_of, scan, expand, loop, start, related_entities,
}
use semiconductor_intelligen.Graph.Related.Sweep.{
  Within, here, hop, Adjacent, Labels, near, Steps, Steps-relax, Closed, Settled, Pending, Reached,
  Walked,
}
use semiconductor_intelligen.Graph.Related.Fuel.{unvisited-start, rounds, rounds-expand}
use semiconductor_intelligen.Graph.Related.Scan.{label_of, labels_of, Holds, Scanned-scan}

near-deeper :
    (labels : Labels) (v low high : ℕ)
    → low ≤ high
    → near labels v low ≡ true
    → near labels v high ≡ true
near-deeper [] v low high e h = cc
near-deeper (l ∷ labels) v low high e h = ground (arith, near-deeper labels v low high)

-- The label that is near enough.
near-label {κ} :
    (P : ℕ × ℕ → Type κ) (labels : Labels) (v most : ℕ)
    → near labels v most ≡ true
    → All P labels
    → (k : ℕ) × (k ≤ most) × P (v, k)
near-label P [] v most e h = cc
near-label P (l ∷ labels) v most e h = elim (Bool-cases (l.0 == v && leb l.1 most)) [
  | inl t ↦
      let same : l.0 ≡ v = ground arith in (l.1, ground arith, subst (λ i. P (i, l.1)) same h.0)
  | inr t ↦ near-label P labels v most (rw t at e) h.1
]

abbrev pub is_at : ℕ → ℕ → GraphNode → Bool
is_at v most node = node.entity_id == v && leb node.depth most

module _ (g : Graph) (origin max_depth : ℕ) where
  -- The nodes of walks up to the depth, each once, and nothing left out.
  pub record IsNeighbourhood (results : List GraphNode) : Type 0 where
    pub sound :
        All (λ node. Within g origin node.entity_id node.depth × (node.depth ≤ max_depth)) results
    pub once : Distinct (origin ∷ map (λ (node : GraphNode). node.entity_id) results)
    pub full :
        (v k : ℕ)
        → Within g origin v k
        → k ≤ max_depth
        → (v ≡ origin) ⊎ (any (is_at v k) results ≡ true)

  abbrev labels_at : Search → Labels
  labels_at = labels_of g origin max_depth

  -- At the head of the `while` loop.
  record Inv (s : Search) : Type 0 where
    low : ℕ
    steps : Steps low (suc low) s.queue
    covers :
        (v : ℕ)
        → contains s.visited v ≡ true
        → is_some (get_entity v g.entities) ≡ true
        → near (labels_at s) v (suc low) ≡ true
    reached : All (Reached g origin max_depth s.visited) (labels_at s)
    distinct : Distinct (map (λ (l : ℕ × ℕ). l.0) (labels_at s))
    queued : All (Walked g origin max_depth) s.queue
    settled : All (λ l. Settled g origin max_depth s.queue (labels_at s) l.0 l.1) (labels_at s)

  Pending-pop :
      (current depth : ℕ) (rest labels : Labels) (v k : ℕ)
      → Settled g origin max_depth ((current, depth) ∷ rest) labels v k
      → Pending g origin max_depth current depth rest labels (v, k)
  Pending-pop current depth rest labels v k (inl w) =
      elim (Bool-cases (current == v && depth == k)) [
        | inl t ↦ inl (ground arith, ground arith)
        | inr t ↦ inr (inl (rw t at w))
      ]
  Pending-pop current depth rest labels v k (inr h) = inr (inr h)

  -- When the head has left the queue.
  Held-pop :
      (s : Search) (current depth : ℕ) (rest : Labels)
      → s.queue ≡ (current, depth) ∷ rest
      → Inv s
      → Holds g origin max_depth current depth (record s { queue = rest })
  unfolding Holds
  Held-pop s current depth rest e h =
      let steps = rw e at h.steps in
      let low = h.low in
      record {
        steps = Steps-relax depth (suc low) (suc depth) rest (omega (arith, steps.0)) steps.1;
        covers = λ v seen there.
            near-deeper (labels_at s) v (suc low) (suc depth) (omega (arith, steps.0))
              (h.covers v seen there);
        reached = h.reached;
        distinct = h.distinct;
        queued = (rw e at h.queued).1;
        pending =
            All-mp (labels_at s)
              (λ l t. Pending-pop current depth rest (labels_at s) l.0 l.1 (rw e at t)) h.settled;
      }

  Settled-close :
      (current depth : ℕ) (queue labels : Labels)
      → (max_depth ≤ depth) ⊎ Closed g origin max_depth labels current depth
      → (l : ℕ × ℕ) → Pending g origin max_depth current depth queue labels l
      → Settled g origin max_depth queue labels l.0 l.1
  Settled-close current depth queue labels h l (inl t) = inr (rw t.0 (rw t.1 h))
  Settled-close current depth queue labels h l (inr t) = t

  Inv-close :
      (current depth : ℕ) (s : Search)
      → (max_depth ≤ depth) ⊎ Closed g origin max_depth (labels_at s) current depth
      → Holds g origin max_depth current depth s
      → Inv s
  unfolding Holds
  Inv-close current depth s c h = record {
    low = depth;
    steps = h.steps;
    covers = h.covers;
    reached = h.reached;
    distinct = h.distinct;
    queued = h.queued;
    settled = All-mp (labels_at s) (Settled-close current depth s.queue (labels_at s) c) h.pending;
  }

  -- A neighbour is labelled, as the loop has gone through all relationships.
  close_link :
      {current b : ℕ} (after : Search) (depth : ℕ)
      → Adjacent g current b
      → All
          (λ rel.
            is_incident current rel ≡ true
            → is_some (get_entity (neighbor_of current rel) g.entities) ≡ true
            → near (labels_at after) (neighbor_of current rel) (suc depth) ≡ true)
          g.relationships
      → near (labels_at after) b (suc depth) ≡ true
  close_link {current} {b} after depth (rel, m, link, there) rows =
      let same : neighbor_of current rel ≡ b = ground arith in
      subst
        (λ x.
          is_some (get_entity x g.entities) ≡ true → near (labels_at after) x (suc depth) ≡ true)
        same (All-Memᴰ _ g.relationships rows m (ground arith)) there

  Inv-expand :
      (s : Search) (current depth : ℕ) (rest : Labels)
      → s.queue ≡ (current, depth) ∷ rest
      → Inv s
      → Inv (expand g max_depth current depth (record s { queue = rest }))
  unfolding expand
  Inv-expand s current depth rest e h =
      let popped = Held-pop s current depth rest e h in
      let name = name_of (get_entity current g.entities) in
      let rels = filter (is_incident current) g.relationships in
      elim (Bool-cases (leb max_depth depth)) [
        | inl t ↦
            rw t (Inv-close current depth (record s { queue = rest }) (inl (ground arith)) popped)
        | inr t ↦
            let all_done =
              Scanned-scan g origin max_depth current depth name rels (record s { queue = rest })
                (filter-Memᴰ (is_incident current) g.relationships) (ground arith)
                (rw e at h.queued).0 popped in
            let after = scan g current depth name rels (record s { queue = rest }) in
            let rows = All-of_filter _ (is_incident current) g.relationships all_done.labelled in
            let closed : Closed g origin max_depth (labels_at after) current depth =
              λ b a. close_link after depth a rows in
            rw t (Inv-close current depth after (inr closed) all_done.held)
      ]

  Inv-start : Inv (start g origin)
  Inv-start = record {
    low = 0;
    steps = (omega arith, omega arith);
    covers = λ v seen there. ground arith;
    reached = ((here, omega arith, ground arith), tt);
    distinct = (refl, tt);
    queued = (here, tt);
    settled = (inl (ground arith), tt);
  }

  loop-empty : (fuel : ℕ) (s : Search) → s.queue ≡ [] → loop g max_depth fuel s ≡ some s.results
  unfolding loop
  loop-empty zero s e = rw e refl
  loop-empty (suc fuel) s e = rw e refl

  loop-next :
      (fuel : ℕ) (s : Search) (current depth : ℕ) (rest : Labels)
      → s.queue ≡ (current, depth) ∷ rest
      → loop g max_depth (suc fuel) s
        ≡ loop g max_depth fuel (expand g max_depth current depth (record s { queue = rest }))
  unfolding loop
  loop-next fuel s current depth rest e = rw e refl

  -- Enough fuel gives a result, at an empty queue.
  loop-ends :
      (fuel : ℕ) (s : Search)
      → Inv s
      → rounds g s ≤ fuel
      → (t : Search) × (loop g max_depth fuel s ≡ some t.results) × Inv t × (t.queue ≡ [])
  loop-ends zero s h e = elim (List-cases s.queue) [
    | inl none_left ↦ (s, loop-empty zero s none_left, h, none_left)
    | inr (head, rest, next) ↦ let popped = ap length next in absurd (omega arith)
  ]
  loop-ends (suc fuel) s h e = elim (List-cases s.queue) [
    | inl none_left ↦ (s, loop-empty (suc fuel) s none_left, h, none_left)
    | inr ((current, depth), rest, next) ↦
        let after = expand g max_depth current depth (record s { queue = rest }) in
        let shorter = rounds-expand g max_depth current depth (record s { queue = rest }) in
        let popped = ap length next in
        let (t, result, inv, empty) =
          loop-ends fuel after (Inv-expand s current depth rest next h) (omega arith) in
        (t, loop-next fuel s current depth rest next ∙ result, inv, empty)
  ]

  -- At an empty queue everything within reach is labelled.
  complete :
      (t : Search)
      → Inv t
      → t.queue ≡ []
      → {v k : ℕ} → Within g origin v k
      → k ≤ max_depth
      → near (labels_at t) v k ≡ true
  complete t h e here less = ground arith
  complete t h e (hop {a} {b} {k} walk adjacent) less =
      let (j, below, settled) =
        near-label (λ l. Settled g origin max_depth t.queue (labels_at t) l.0 l.1) (labels_at t) a k
          (complete t h e walk (omega arith)) h.settled in
      elim settled [
        | inl w ↦ absurd (ground (arith, e))
        | inr (inl far) ↦ absurd (omega arith)
        | inr (inr closed) ↦
            near-deeper (labels_at t) b (suc j) (suc k) (omega arith) (closed b adjacent)
      ]

  near-is_at :
      (nodes : List GraphNode) (v k : ℕ) → near (map label_of nodes) v k ≡ any (is_at v k) nodes
  near-is_at [] v k = refl
  near-is_at (node ∷ nodes) v k = ap (λ b. is_at v k node || b) (near-is_at nodes v k)

  ids-labels :
      (nodes : List GraphNode)
      → map (λ (l : ℕ × ℕ). l.0) (map label_of nodes)
        ≡ map (λ (node : GraphNode). node.entity_id) nodes
  ids-labels [] = refl
  ids-labels (node ∷ nodes) = ap (λ ids. node.entity_id ∷ ids) (ids-labels nodes)

  All-labels :
      (visited : List ℕ) (nodes : List GraphNode)
      → All (Reached g origin max_depth visited) (map label_of nodes)
      → All (λ node. Within g origin node.entity_id node.depth × (node.depth ≤ max_depth)) nodes
  All-labels visited [] h = tt
  All-labels visited (node ∷ nodes) h = ((h.0.0, h.0.1), All-labels visited nodes h.1)

  Inv-IsNeighbourhood : (t : Search) → Inv t → t.queue ≡ [] → IsNeighbourhood t.results
  Inv-IsNeighbourhood t h e = record {
    sound = All-labels t.visited t.results h.reached.1;
    once = subst (λ ids. Distinct (origin ∷ ids)) (ids-labels t.results) h.distinct;
    full = λ v k walk less.
        let found = complete t h e walk less in ground (arith, near-is_at t.results v k);
  }

  -- Nothing but the start is within zero hops.
  Within-zero : {v k : ℕ} → Within g origin v k → k ≤ 0 → v ≡ origin
  Within-zero here e = refl
  Within-zero (hop walk adjacent) e = absurd (omega arith)

-- related_entities returns, and its result lists ids of entities other than the start, each once,
-- with a depth up to max_depth at which a walk of undirected relationships through existing entities
-- leads to it; every end of such a walk is the start or is listed with no greater depth.
pub related_entities-IsNeighbourhood :
    (g : Graph) (entity_id max_depth : ℕ)
    → (results : List GraphNode) × (related_entities g entity_id max_depth ≡ some results)
      × IsNeighbourhood g entity_id max_depth results
unfolding related_entities
related_entities-IsNeighbourhood g entity_id max_depth = elim (Bool-cases (ltb max_depth 1)) [
  | inl t ↦ (
    [],
    rw t refl,
    record {
      sound = tt;
      once = (refl, tt);
      full = λ v k walk less. inl (Within-zero g entity_id max_depth walk (ground arith));
    },
  )
  | inr t ↦
      let fits = unvisited-start (entity_id ∷ []) g.entities in
      let (found, result, inv, empty) =
        loop-ends g entity_id max_depth (suc (length g.entities)) (start g entity_id)
          (Inv-start g entity_id max_depth) (omega arith) in
      (found.results, rw t result, Inv-IsNeighbourhood g entity_id max_depth found inv empty)
]
