-- ===== src/Graph.antt =====
-- semi_intel/graph: queries on the knowledge graph of entities and relationships.
pub mod Entities
pub mod Related
pub mod Relation
mod Tests
