-- ===== src/Signals/Origins/Counted.antt =====
-- semi_intel/signals/origin_graph.py: the counts of an origin graph.
use semiconductor_intelligen.Prelude.{
  ℕ, suc, ◌+◌, ◌<◌, String, ◌≡◌, refl, sym, ap, ◌∙◌, inl, inr, true, not, Option, none, some, List,
  [], ◌∷◌, ◌++◌, map, arith, ◌==◌, Option-cases, is_some, length, filter, All, length-append,
}
use semiconductor_intelligen.Signals.Origins.{
  ItemRow, GroupRow, OriginNode, OriginEdge, OriginGraph, node, item_by_id, origin_id, is_same,
  member_nodes, group_nodes, echo_edges_of, echo_edges, lineage_edges, or_all, least_of, graph_of,
  singleton_nodes, build_origin_graph,
}

-- The group has its origin once among its members, and each of these is an item of the candidate.
abbrev pub IsGrouped : List ItemRow → GroupRow → Type 0
IsGrouped rows group =
    ((origin : ℕ) × (origin_id group ≡ some origin)
      × (length (filter (λ id. id == origin) group.member_ids) ≡ 1))
    × All (λ id. is_some (item_by_id rows id) ≡ true) group.member_ids

no_row : (row : Option ItemRow) → row ≡ none → is_some row ≡ true → ⊥
no_row none e h = cc
no_row (some row) e h = cc

member_nodes-length :
    (rows : List ItemRow) (group : GroupRow) (ids : List ℕ)
    → All (λ id. is_some (item_by_id rows id) ≡ true) ids
    → (nodes : List OriginNode) × (member_nodes rows group ids ≡ some nodes)
      × (length nodes ≡ length ids)
unfolding member_nodes
member_nodes-length rows group [] h = ([], refl, refl)
member_nodes-length rows group (id ∷ ids) h = elim (Option-cases (item_by_id rows id)) [
  | inl e ↦ absurd (no_row (item_by_id rows id) e h.0)
  | inr (row, e) ↦
      let (nodes, n, k) = member_nodes-length rows group ids h.1 in
      (node row group.id (is_same (origin_id group) id) ∷ nodes, rw (e, n) refl, ap suc k)
]

length-split :
    (origin : ℕ) (ids : List ℕ)
    → length ids
      ≡ length (filter (λ id. id == origin) ids) + length (filter (λ id. not (id == origin)) ids)
length-split origin [] = refl
length-split origin (id ∷ ids) = ground (arith, length-split origin ids)

length-map {ℓ κ} :
    {A : Type ℓ} {B : Type κ} (f : A → B) (xs : List A) → length (map f xs) ≡ length xs
length-map f [] = refl
length-map f (x ∷ xs) = ap suc (length-map f xs)

-- One member is the origin, and the others are its echoes.
length-echo_edges_of :
    (reason : String) (origin : ℕ) (ids : List ℕ)
    → length (filter (λ id. id == origin) ids) ≡ 1
    → length ids ≡ suc (length (echo_edges_of reason (some origin) ids))
length-echo_edges_of reason origin ids one =
    let others = filter (λ id. not (id == origin)) ids in
    let edges =
      length-map {B = OriginEdge}
        (λ (id : ℕ). record {
          from_signal_item_id = origin;
          to_signal_item_id = id;
          reason = reason;
        })
        others in
    omega (arith, one, length-split origin ids, edges)

group_nodes-length :
    (rows : List ItemRow) (groups : List GroupRow)
    → All (IsGrouped rows) groups
    → (nodes : List OriginNode) × (group_nodes rows groups ≡ some nodes)
      × (length nodes ≡ length groups + length (echo_edges groups))
unfolding group_nodes
group_nodes-length rows [] h = ([], refl, refl)
group_nodes-length rows (group ∷ groups) (((origin, e, one), known), others) =
    let (own, o, k) = member_nodes-length rows group group.member_ids known in
    let (rest, r, l) = group_nodes-length rows groups others in
    let echoes = echo_edges_of group.reason (origin_id group) group.member_ids in
    let counted : length group.member_ids ≡ suc (length echoes) =
      length-echo_edges_of group.reason origin group.member_ids one
      ∙ ap (λ id. suc (length (echo_edges_of group.reason id group.member_ids))) (sym e) in
    (
      own ++ rest,
      rw (o, r) refl,
      omega
          (arith, k, l, counted, length-append own rest, length-append echoes (echo_edges groups)),
    )

least_of-some :
    (origins nodes : List OriginNode)
    → 0 < length nodes
    → (n : OriginNode) × (least_of (or_all origins nodes) ≡ some n)
least_of-some [] [] h = absurd (omega arith)
least_of-some [] (n ∷ nodes) h = (_, refl)
least_of-some (o ∷ origins) nodes h = (_, refl)

graph_of-Counted :
    (nodes : List OriginNode) (edges : List OriginEdge) (confirmations echoes : ℕ)
    → 0 < length nodes
    → length nodes ≡ confirmations + echoes
    → (graph : OriginGraph) × (graph_of nodes edges confirmations echoes ≡ some graph)
      × (length graph.nodes ≡ graph.independent_confirmations + graph.echoes)
graph_of-Counted nodes edges confirmations echoes some_node counted =
    let (n, e) = least_of-some (filter (λ (n : OriginNode). n.is_origin) nodes) nodes some_node in
    (
      record {
        origin = some n;
        nodes = nodes;
        edges = edges;
        independent_confirmations = confirmations;
        echoes = echoes;
      },
      rw e refl,
      counted,
    )

-- Where every group has its origin once among its members, and these are items of the candidate,
-- the graph is built, and each of its nodes is counted once: as many nodes as independent
-- confirmations and echoes.
pub build_origin_graph-counted :
    (rows : List ItemRow) (groups : List GroupRow)
    → All (IsGrouped rows) groups
    → (graph : OriginGraph) × (build_origin_graph rows groups ≡ some graph)
      × (length graph.nodes ≡ graph.independent_confirmations + graph.echoes)
unfolding build_origin_graph
build_origin_graph-counted [] groups h = (_, refl, refl)
build_origin_graph-counted (row ∷ rows) [] h =
    graph_of-Counted (singleton_nodes (row ∷ rows)) (lineage_edges (row ∷ rows))
      (length (singleton_nodes (row ∷ rows))) 0 (omega arith) (omega arith)
build_origin_graph-counted (row ∷ rows) (group ∷ groups) h =
    let (nodes, e, counted) = group_nodes-length (row ∷ rows) (group ∷ groups) h in
    let echoes = echo_edges (group ∷ groups) in
    let (graph, g, total) =
      graph_of-Counted nodes (echoes ++ lineage_edges (row ∷ rows)) (length (group ∷ groups))
        (length echoes) (omega (arith, counted)) counted in
    (graph, rw e g, total)
