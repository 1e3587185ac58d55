-- ===== src/Graph/Relation.antt =====
-- semi_intel/graph/queries.py: find_by_relation. `lower` is Python's str.lower.
use semiconductor_intelligen.Prelude.{
  ℕ, String, ◌≡◌, refl, sym, ap, ◌∙◌, Bool, true, not, ◌&&◌, Option, none, some, List, [], ◌∷◌,
  ◌++◌, arith, str_eq, if◌then◌else◌, filter,
}
use semiconductor_intelligen.Graph.Entities.{
  RelationType, Entity, Relationship, Graph, relation_type_value, get_entity,
}

pub record RelationMatch : Type 0 where
  pub from_entity_id : ℕ
  pub from_entity_name : String
  pub relation_type : String
  pub to_entity_id : ℕ
  pub to_entity_name : String

module _ (lower : String → String) where
  -- `wanted is not None and name.lower() != wanted.lower()`, negated.
  abbrev pub is_named : Option String → String → Bool
  is_named none name = true
  is_named (some wanted) name = str_eq (lower name) (lower wanted)

  abbrev match_of : Relationship → Entity → Entity → RelationMatch
  match_of rel from_entity to_entity = record {
    from_entity_id = from_entity.id;
    from_entity_name = from_entity.name;
    relation_type = relation_type_value rel.relation_type;
    to_entity_id = to_entity.id;
    to_entity_name = to_entity.name;
  }

  -- The body of the loop: what a relationship adds.
  matches_of :
      Option String
      → Option String
      → Relationship
      → Option Entity
      → Option Entity
      → List RelationMatch
  matches_of target_name source_name rel none to_entity = []
  matches_of target_name source_name rel (some from_entity) none = []
  matches_of target_name source_name rel (some from_entity) (some to_entity) =
      if not (is_named target_name to_entity.name)
      then []
      else if not (is_named source_name from_entity.name)
      then []
      else match_of rel from_entity to_entity ∷ []

  module _ (entities : List Entity) where
    matches : Option String → Option String → List Relationship → List RelationMatch
    unfolding matches_of
    matches target_name source_name [] = []
    matches target_name source_name (rel ∷ rels) =
        matches_of target_name source_name rel (get_entity rel.from_entity_id entities)
          (get_entity rel.to_entity_id entities)
        ++ matches target_name source_name rels

  pub find_by_relation : Graph → RelationType → Option String → Option String → List RelationMatch
  find_by_relation g relation_type target_name source_name =
      matches g.entities target_name source_name (
        filter
          (λ rel.
            str_eq (relation_type_value rel.relation_type) (relation_type_value relation_type))
          g.relationships)

  abbrev pub is_wanted : Option String → Option String → RelationMatch → Bool
  is_wanted target_name source_name m =
      is_named target_name m.to_entity_name && is_named source_name m.from_entity_name

  matches_of-narrows :
      (target_name source_name : Option String) (rel : Relationship)
      (from_entity to_entity : Option Entity) (rest : List RelationMatch)
      → filter
          (is_wanted target_name source_name)
          (matches_of none none rel from_entity to_entity ++ rest)
        ≡ matches_of target_name source_name rel from_entity to_entity
          ++ filter (is_wanted target_name source_name) rest
  unfolding matches_of
  matches_of-narrows target_name source_name rel none to_entity rest = refl
  matches_of-narrows target_name source_name rel (some from_entity) none rest = refl
  matches_of-narrows target_name source_name rel (some from_entity) (some to_entity) rest =
      ground arith

  -- The names only narrow the matches of the relation type, whose order stays.
  pub find_by_relation-narrows :
      (g : Graph) (relation_type : RelationType) (target_name source_name : Option String)
      → find_by_relation g relation_type target_name source_name
        ≡ filter (is_wanted target_name source_name) (find_by_relation g relation_type none none)
  unfolding find_by_relation matches
  find_by_relation-narrows g relation_type target_name source_name = go (
      filter
        (λ rel. str_eq (relation_type_value rel.relation_type) (relation_type_value relation_type))
        g.relationships)
    where
      go :
          (rels : List Relationship)
          → matches g.entities target_name source_name rels
            ≡ filter (is_wanted target_name source_name) (matches g.entities none none rels)
      go [] = refl
      go (rel ∷ rels) =
          ap
            (λ ms.
              matches_of target_name source_name rel (get_entity rel.from_entity_id g.entities)
                (get_entity rel.to_entity_id g.entities)
              ++ ms)
            (go rels)
          ∙ sym (
              matches_of-narrows target_name source_name rel
                (get_entity rel.from_entity_id g.entities) (get_entity rel.to_entity_id g.entities)
                (matches g.entities none none rels))
