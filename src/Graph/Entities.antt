-- ===== src/Graph/Entities.antt =====
-- semi_intel/domain/models.py and enums.py: the tables `entities` and `relationships`, with the
-- columns that the queries read. A query's rows come in the order of the table.
use semiconductor_intelligen.Prelude.{ℕ, String, Option, List, ◌==◌, find}

pub data EntityType : Type 0 where
  product company person architecture foundry_node packaging_tech : EntityType
  memory_tech benchmark other : EntityType

pub data RelationType : Type 0 where
  manufactured_by uses_node uses_packaging uses_memory successor_of part_of : RelationType
  competes_with related_to : RelationType

-- `type.value`
abbrev pub entity_type_value : EntityType → String
entity_type_value product = "product"
entity_type_value company = "company"
entity_type_value person = "person"
entity_type_value architecture = "architecture"
entity_type_value foundry_node = "foundry_node"
entity_type_value packaging_tech = "packaging_tech"
entity_type_value memory_tech = "memory_tech"
entity_type_value benchmark = "benchmark"
entity_type_value other = "other"

-- `relation_type.value`
abbrev pub relation_type_value : RelationType → String
relation_type_value manufactured_by = "manufactured_by"
relation_type_value uses_node = "uses_node"
relation_type_value uses_packaging = "uses_packaging"
relation_type_value uses_memory = "uses_memory"
relation_type_value successor_of = "successor_of"
relation_type_value part_of = "part_of"
relation_type_value competes_with = "competes_with"
relation_type_value related_to = "related_to"

pub record Entity : Type 0 where
  pub id : ℕ
  pub type : EntityType
  pub name : String

pub record Relationship : Type 0 where
  pub from_entity_id : ℕ
  pub to_entity_id : ℕ
  pub relation_type : RelationType

pub record Graph : Type 0 where
  pub entities : List Entity
  pub relationships : List Relationship

-- session.get(Entity, id)
abbrev pub get_entity : ℕ → List Entity → Option Entity
get_entity n = find (λ e. e.id == n)
