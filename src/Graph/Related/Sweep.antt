-- ===== src/Graph/Related/Sweep.antt =====
-- semi_intel/graph/queries.py: what the loop over relationships keeps, for the visited ids, the
-- queue, and the labels: the start and the results with their depths.
use semiconductor_intelligen.Prelude.{
  ℕ, suc, ◌≤◌, ◌<◌, ◌≡◌, refl, sym, subst, ◌⊎◌, inl, inr, Bool, true, false, ◌&&◌, ◌||◌, List, [],
  ◌∷◌, ◌++◌, map, Memᴰ, map-append, arith, leb, ◌==◌, Bool-cases, is_some, any, All, contains,
}
use semiconductor_intelligen.Prelude.Rows.{All-append, All-mp, any-append, Distinct, Distinct-snoc}
use semiconductor_intelligen.Graph.Entities.{Relationship, Graph, get_entity}

-- A relationship between the two, in either direction.
abbrev pub Links : ℕ → ℕ → Relationship → Type 0
Links a b rel =
    ((rel.from_entity_id ≡ a) × (rel.to_entity_id ≡ b))
    ⊎ ((rel.to_entity_id ≡ a) × (rel.from_entity_id ≡ b))

-- One hop: to an entity that exists.
abbrev pub Adjacent : Graph → ℕ → ℕ → Type 0
Adjacent g a b =
    (rel : Relationship) × Memᴰ rel g.relationships
    × Links a b rel
    × (is_some (get_entity b g.entities) ≡ true)

-- The walks from the start with their numbers of hops.
pub data Within (g : Graph) (origin : ℕ) : ℕ → ℕ → Type 0 where
  here : Within g origin origin 0
  hop : {a b k : ℕ} → Within g origin a k → Adjacent g a b → Within g origin b (suc k)

abbrev pub Labels : Type 0
Labels = List (ℕ × ℕ)

-- Labelled with at most this depth.
abbrev pub near : Labels → ℕ → ℕ → Bool
near labels v most = any (λ l. l.0 == v && leb l.1 most) labels

abbrev pub waiting : Labels → ℕ → ℕ → Bool
waiting queue v k = any (λ q. q.0 == v && q.1 == k) queue

-- The depths in the queue ascend, from the first bound to the second.
abbrev pub Steps : ℕ → ℕ → Labels → Type 0
Steps low high [] = low ≤ high
Steps low high (q ∷ queue) = (low ≤ q.1) × Steps q.1 high queue

pub Steps-snoc :
    (low high n : ℕ) (queue : Labels)
    → Steps low high queue
    → Steps low high (queue ++ (n, high) ∷ [])
Steps-snoc low high n [] h = (h, omega arith)
Steps-snoc low high n (q ∷ queue) h = (h.0, Steps-snoc q.1 high n queue h.1)

-- The first bound is at most the second, which may be lowered to what the queue allows.
pub Steps-bounds : (low high : ℕ) (queue : Labels) → Steps low high queue → low ≤ high
Steps-bounds low high [] h = h
Steps-bounds low high (q ∷ queue) h = omega (arith, h.0, Steps-bounds q.1 high queue h.1)

pub Steps-relax :
    (low high higher : ℕ) (queue : Labels)
    → high ≤ higher
    → Steps low high queue
    → Steps low higher queue
Steps-relax low high higher [] e h = omega arith
Steps-relax low high higher (q ∷ queue) e h = (h.0, Steps-relax q.1 high higher queue e h.1)

pub near-snoc :
    (labels : Labels) (v most n k : ℕ)
    → near (labels ++ (n, k) ∷ []) v most ≡ (near labels v most || n == v && leb k most)
near-snoc labels v most n k =
    ground (arith, any-append (λ (l : ℕ × ℕ). l.0 == v && leb l.1 most) labels ((n, k) ∷ []))

waiting-snoc :
    (queue : Labels) (v k n j : ℕ)
    → waiting (queue ++ (n, j) ∷ []) v k ≡ (waiting queue v k || n == v && j == k)
waiting-snoc queue v k n j =
    ground (arith, any-append (λ (q : ℕ × ℕ). q.0 == v && q.1 == k) queue ((n, j) ∷ []))

module _ (g : Graph) (origin max_depth : ℕ) where
  abbrev pub Closed : Labels → ℕ → ℕ → Type 0
  Closed labels v k = (b : ℕ) → Adjacent g v b → near labels b (suc k) ≡ true

  abbrev pub Settled : Labels → Labels → ℕ → ℕ → Type 0
  Settled queue labels v k = (waiting queue v k ≡ true) ⊎ ((max_depth ≤ k) ⊎ Closed labels v k)

  -- What is left to show of a label: it may be the one that is being expanded.
  abbrev pub Pending : ℕ → ℕ → Labels → Labels → ℕ × ℕ → Type 0
  Pending current depth queue labels l =
      ((l.0 ≡ current) × (l.1 ≡ depth)) ⊎ Settled queue labels l.0 l.1

  abbrev pub Reached : List ℕ → ℕ × ℕ → Type 0
  Reached visited l = Within g origin l.0 l.1 × (l.1 ≤ max_depth) × (contains visited l.0 ≡ true)

  abbrev pub Walked : ℕ × ℕ → Type 0
  Walked q = Within g origin q.0 q.1

  -- While the relationships of `current`, at this depth, are gone through.
  pub record Held (current depth : ℕ) (visited : List ℕ) (queue labels : Labels) : Type 0 where
    pub steps : Steps depth (suc depth) queue
    pub covers :
        (v : ℕ)
        → contains visited v ≡ true
        → is_some (get_entity v g.entities) ≡ true
        → near labels v (suc depth) ≡ true
    pub reached : All (Reached visited) labels
    pub distinct : Distinct (map (λ (l : ℕ × ℕ). l.0) labels)
    pub queued : All Walked queue
    pub pending : All (Pending current depth queue labels) labels

  Settled-snoc :
      (queue labels : Labels) (n j v k : ℕ)
      → Settled queue labels v k
      → Settled (queue ++ (n, j) ∷ []) (labels ++ (n, j) ∷ []) v k
  Settled-snoc queue labels n j v k (inl w) = inl (ground (arith, waiting-snoc queue v k n j))
  Settled-snoc queue labels n j v k (inr (inl h)) = inr (inl h)
  Settled-snoc queue labels n j v k (inr (inr c)) =
      inr (inr (λ b a. let at_b = c b a in ground (arith, near-snoc labels b (suc k) n j)))

  Pending-snoc :
      (current depth : ℕ) (queue labels : Labels) (n j : ℕ) (l : ℕ × ℕ)
      → Pending current depth queue labels l
      → Pending current depth (queue ++ (n, j) ∷ []) (labels ++ (n, j) ∷ []) l
  Pending-snoc current depth queue labels n j l (inl s) = inl s
  Pending-snoc current depth queue labels n j l (inr s) =
      inr (Settled-snoc queue labels n j l.0 l.1 s)

  Reached-mark :
      (visited : List ℕ) (n : ℕ) (l : ℕ × ℕ) → Reached visited l → Reached (n ∷ visited) l
  Reached-mark visited n l h = (h.0, h.1, let seen = h.2 in ground arith)

  absent :
      (visited : List ℕ) (labels : Labels) (n : ℕ)
      → contains visited n ≡ false
      → All (Reached visited) labels
      → contains (map (λ (l : ℕ × ℕ). l.0) labels) n ≡ false
  absent visited [] n e h = refl
  absent visited (l ∷ labels) n e h =
      let seen = h.0.2 in
      let rest = absent visited labels n e h.1 in
      elim (Bool-cases (l.0 == n)) [
        | inl t ↦ let same : l.0 ≡ n = ground arith in let wrong = rw same at seen in cc
        | inr t ↦ rw t rest
      ]

  -- A neighbour without a row is marked.
  pub Held-mark :
      (current depth : ℕ) (visited : List ℕ) (queue labels : Labels) (n : ℕ)
      → is_some (get_entity n g.entities) ≡ false
      → Held current depth visited queue labels
      → Held current depth (n ∷ visited) queue labels
  Held-mark current depth visited queue labels n e h = record {
    steps = h.steps;
    covers = λ v seen there. elim (Bool-cases (n == v)) [
      | inl t ↦ let same : n ≡ v = ground arith in let missing = rw same at e in cc
      | inr t ↦ h.covers v (rw t at seen) there
    ];
    reached = All-mp labels (Reached-mark visited n) h.reached;
    distinct = h.distinct;
    queued = h.queued;
    pending = h.pending;
  }

  -- A neighbour with a row is marked, labelled and queued.
  pub Held-enter :
      (current depth : ℕ) (visited : List ℕ) (queue labels : Labels) (n : ℕ)
      → contains visited n ≡ false
      → depth < max_depth
      → Within g origin n (suc depth)
      → Held current depth visited queue labels
      → Held current depth
          (n ∷ visited)
          (queue ++ (n, suc depth) ∷ [])
          (labels ++ (n, suc depth) ∷ [])
  Held-enter current depth visited queue labels n e less walk h = record {
    steps = Steps-snoc depth (suc depth) n queue h.steps;
    covers = λ v seen there. elim (Bool-cases (n == v)) [
      | inl t ↦ ground (arith, near-snoc labels v (suc depth) n (suc depth))
      | inr t ↦
          let old = h.covers v (rw t at seen) there in
          ground (arith, near-snoc labels v (suc depth) n (suc depth))
    ];
    reached =
        All-append (Reached (n ∷ visited)) labels ((n, suc depth) ∷ [])
          (All-mp labels (Reached-mark visited n) h.reached)
          ((walk, omega arith, ground arith), tt);
    distinct = subst Distinct (sym (map-append (λ (l : ℕ × ℕ). l.0) labels ((n, suc depth) ∷ []))) (
        Distinct-snoc (map (λ (l : ℕ × ℕ). l.0) labels) n h.distinct
          (absent visited labels n e h.reached));
    queued = All-append Walked queue ((n, suc depth) ∷ []) h.queued (walk, tt);
    pending =
        All-append
          (Pending current depth (queue ++ (n, suc depth) ∷ []) (labels ++ (n, suc depth) ∷ []))
          labels ((n, suc depth) ∷ [])
          (All-mp labels (Pending-snoc current depth queue labels n (suc depth)) h.pending)
          (inr (inl (ground (arith, waiting-snoc queue n (suc depth) n (suc depth)))), tt);
  }
