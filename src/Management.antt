-- ===== src/Management.antt =====
-- The plan of a project: app/management.
pub mod Gantt
pub mod Model
pub mod Plan
pub mod Pendings
pub mod Compartments
pub mod Versions
pub mod Deliverables
pub mod Edits
