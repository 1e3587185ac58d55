-- ===== src/Graph/Related/Fuel.antt =====
-- semi_intel/graph/queries.py: why the search ends. Every entity enters the queue at most once.
use semiconductor_intelligen.Prelude.{
  ℕ, suc, ◌+◌, ◌≤◌, ◌<◌, String, ◌≡◌, refl, inl, inr, true, false, not, Option, none, some, List,
  [], ◌∷◌, arith, leb, ◌==◌, Bool-cases, is_some, length, filter, length-append, contains,
}
use semiconductor_intelligen.Graph.Entities.{Entity, Relationship, Graph, get_entity}
use semiconductor_intelligen.Graph.Related.{
  Search, is_incident, neighbor_of, name_of, mark, enter, offer, scan, expand,
}

abbrev unvisited : List ℕ → List Entity → ℕ
unvisited visited entities = length (filter (λ e. not (contains visited e.id)) entities)

unvisited-mark :
    (visited : List ℕ) (n : ℕ) (entities : List Entity)
    → unvisited (n ∷ visited) entities ≤ unvisited visited entities
unvisited-mark visited n [] = omega arith
unvisited-mark visited n (e ∷ entities) = ground (arith, unvisited-mark visited n entities)

unvisited-enter :
    (visited : List ℕ) (n : ℕ) (entities : List Entity)
    → contains visited n ≡ false
    → is_some (get_entity n entities) ≡ true
    → unvisited (n ∷ visited) entities < unvisited visited entities
unvisited-enter visited n [] new there = cc
unvisited-enter visited n (e ∷ entities) new there = elim (Bool-cases (e.id == n)) [
  | inl t ↦
      let same : e.id ≡ n = ground arith in
      let this : contains visited e.id ≡ false = rw same new in
      ground (arith, unvisited-mark visited n entities)
  | inr t ↦ let rest = unvisited-enter visited n entities new (rw t at there) in ground arith
]

pub unvisited-start :
    (visited : List ℕ) (entities : List Entity) → unvisited visited entities ≤ length entities
unvisited-start visited [] = omega arith
unvisited-start visited (e ∷ entities) = ground (arith, unvisited-start visited entities)

module _ (g : Graph) where
  -- The rounds that are left, at most.
  abbrev pub rounds : Search → ℕ
  rounds s = length s.queue + unvisited s.visited g.entities

  rounds-enter :
      (n depth : ℕ) (current_name : Option String) (rel : Relationship) (found : Option Entity)
      (s : Search)
      → get_entity n g.entities ≡ found
      → contains s.visited n ≡ false
      → rounds (enter n depth current_name rel found (mark n s)) ≤ rounds s
  rounds-enter n depth current_name rel none s e new =
      omega (arith, unvisited-mark s.visited n g.entities)
  rounds-enter n depth current_name rel (some neighbor) s e new =
      let less = unvisited-enter s.visited n g.entities new (ground (arith, e)) in
      omega (arith, length-append s.queue ((n, suc depth) ∷ []))

  rounds-offer :
      (current depth : ℕ) (current_name : Option String) (rel : Relationship) (s : Search)
      → rounds (offer g current depth current_name rel s) ≤ rounds s
  unfolding offer
  rounds-offer current depth current_name rel s =
      let n = neighbor_of current rel in
      elim (Bool-cases (contains s.visited n)) [
        | inl seen ↦ rw seen (omega arith)
        | inr new ↦
            rw new (rounds-enter n depth current_name rel (get_entity n g.entities) s refl new)
      ]

  rounds-scan :
      (current depth : ℕ) (current_name : Option String) (rels : List Relationship) (s : Search)
      → rounds (scan g current depth current_name rels s) ≤ rounds s
  unfolding scan
  rounds-scan current depth current_name [] s = omega arith
  rounds-scan current depth current_name (rel ∷ rels) s = omega (
    arith,
    rounds-offer current depth current_name rel s,
    rounds-scan current depth current_name rels (offer g current depth current_name rel s),
  )

  pub rounds-expand :
      (max_depth current depth : ℕ) (s : Search)
      → rounds (expand g max_depth current depth s) ≤ rounds s
  unfolding expand
  rounds-expand max_depth current depth s = elim (Bool-cases (leb max_depth depth)) [
    | inl t ↦ rw t (omega arith)
    | inr t ↦ rw t (
        rounds-scan current depth (name_of (get_entity current g.entities))
          (filter (is_incident current) g.relationships) s)
  ]
