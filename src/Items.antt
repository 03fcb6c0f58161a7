-- ===== src/Items.antt =====
-- The backlog: app/items.
pub mod Status
pub mod Lifecycle
pub mod Relation
pub mod Topology
pub mod Model
pub mod Graph
pub mod Relationships
pub mod Service
