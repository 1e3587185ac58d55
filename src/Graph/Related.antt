-- ===== src/Graph/Related.antt =====
-- semi_intel/graph/queries.py: related_entities. `visited` is the set, as the list of the ids that
-- were added to it. An id without a row in `entities` is marked and then skipped.
pub mod Sweep
pub mod Fuel
pub mod Scan
pub mod Shortest
use semiconductor_intelligen.Prelude.{
  ℕ, zero, suc, String, Bool, ◌||◌, Option, none, some, List, [], ◌∷◌, ◌++◌, ltb, leb, ◌==◌,
  if◌then◌else◌, length, filter, contains,
}
use semiconductor_intelligen.Graph.Entities.{
  Entity, Relationship, Graph, entity_type_value, relation_type_value, get_entity,
}

pub record GraphNode : Type 0 where
  pub entity_id : ℕ
  pub name : String
  pub type : String
  pub depth : ℕ
  pub via_relation : Option String
  pub from_entity_name : Option String

pub record Search : Type 0 where
  pub visited : List ℕ
  pub queue : List (ℕ × ℕ)
  pub results : List GraphNode

-- The condition of the query for the relationships of an entity.
abbrev pub is_incident : ℕ → Relationship → Bool
is_incident current rel = rel.from_entity_id == current || rel.to_entity_id == current

abbrev pub neighbor_of : ℕ → Relationship → ℕ
neighbor_of current rel =
    if rel.from_entity_id == current then rel.to_entity_id else rel.from_entity_id

-- `current_entity.name if current_entity else None`
abbrev pub name_of : Option Entity → Option String
name_of none = none
name_of (some entity) = some entity.name

abbrev pub node_of : ℕ → Option String → Relationship → Entity → GraphNode
node_of depth current_name rel neighbor = record {
  entity_id = neighbor.id;
  name = neighbor.name;
  type = entity_type_value neighbor.type;
  depth = suc depth;
  via_relation = some (relation_type_value rel.relation_type);
  from_entity_name = current_name;
}

abbrev pub mark : ℕ → Search → Search
mark n s = record s { visited = n ∷ s.visited }

-- What is done with a neighbour that was just marked.
abbrev pub enter : ℕ → ℕ → Option String → Relationship → Option Entity → Search → Search
enter n depth current_name rel none s = s
enter n depth current_name rel (some neighbor) s = record s {
  results = s.results ++ node_of depth current_name rel neighbor ∷ [];
  queue = s.queue ++ (n, suc depth) ∷ [];
}

module _ (g : Graph) where
  -- The body of the loop over relationships.
  unfoldable pub offer : ℕ → ℕ → Option String → Relationship → Search → Search
  offer current depth current_name rel s =
      let n = neighbor_of current rel in
      if contains s.visited n
      then s
      else enter n depth current_name rel (get_entity n g.entities) (mark n s)

  unfoldable pub scan : ℕ → ℕ → Option String → List Relationship → Search → Search
  scan current depth current_name [] s = s
  scan current depth current_name (rel ∷ rels) s =
      scan current depth current_name rels (offer current depth current_name rel s)

  -- One round of the `while` loop, after the head has left the queue.
  unfoldable pub expand : ℕ → ℕ → ℕ → Search → Search
  expand max_depth current depth s =
      if leb max_depth depth
      then s
      else scan current depth (name_of (get_entity current g.entities))
          (filter (is_incident current) g.relationships) s

  unfoldable pub loop : ℕ → ℕ → Search → Option (List GraphNode)
  loop max_depth zero s = elim s.queue [ [] ↦ some s.results | _ ∷ _ ↦ none ]
  loop max_depth (suc fuel) s = elim s.queue [
    | [] ↦ some s.results
    | (current, depth) ∷ rest ↦
        loop max_depth fuel (expand max_depth current depth (record s { queue = rest }))
  ]

  abbrev pub start : ℕ → Search
  start entity_id = record { visited = entity_id ∷ []; queue = (entity_id, 0) ∷ []; results = [] }

  unfoldable pub related_entities : ℕ → ℕ → Option (List GraphNode)
  related_entities entity_id max_depth =
      let found = loop max_depth (suc (length g.entities)) (start entity_id) in
      if ltb max_depth 1 then some [] else found
