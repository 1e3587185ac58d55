-- ===== src/Graph/Tests.antt =====
-- Concrete runs of the queries on the knowledge graph.
use semiconductor_intelligen.Prelude.{ℕ, String, ◌≡◌, refl, Option, none, some, List, [], ◌∷◌, map}
use semiconductor_intelligen.Graph.Entities.{Entity, Relationship, Graph, product, uses_node}
use semiconductor_intelligen.Graph.Related.{GraphNode, offer, scan, expand, loop, related_entities}
use semiconductor_intelligen.Graph.Related.Shortest.{
  IsNeighbourhood, related_entities-IsNeighbourhood,
}

abbrev entity_at : ℕ → String → Entity
entity_at n name = record { id = n; type = product; name = name }

abbrev edge : ℕ → ℕ → Relationship
edge a b = record { from_entity_id = a; to_entity_id = b; relation_type = uses_node }

-- 1 → 2 → 3, 4 → 1, and 9 has no row.
abbrev sample : Graph
sample = record {
  entities =
      entity_at 1 "Nova Lake" ∷ entity_at 2 "N2" ∷ entity_at 3 "TSMC" ∷ entity_at 4 "Intel" ∷ [];
  relationships = edge 1 2 ∷ edge 2 3 ∷ edge 4 1 ∷ edge 1 9 ∷ edge 3 1 ∷ [];
}

abbrev ids : Option (List GraphNode) → List (ℕ × ℕ)
ids none = []
ids (some nodes) = map (λ node. (node.entity_id, node.depth)) nodes

related-sample :
    (ids (related_entities sample 1 2) ≡ (2, 1) ∷ (4, 1) ∷ (3, 1) ∷ [])
    × (ids (related_entities sample 4 1) ≡ (1, 1) ∷ [])
    × (ids (related_entities sample 4 2) ≡ (1, 1) ∷ (2, 2) ∷ (3, 2) ∷ [])
    × (related_entities sample 4 0 ≡ some [])
unfolding related_entities loop expand scan offer
related-sample = (refl, refl, refl, refl)

related_entities-IsNeighbourhood_example :
    (results : List GraphNode) × (related_entities sample 4 2 ≡ some results)
    × IsNeighbourhood sample 4 2 results
related_entities-IsNeighbourhood_example = related_entities-IsNeighbourhood sample 4 2
