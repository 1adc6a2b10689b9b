-- ===== src/Project.antt =====
-- The audit functions and the per-function project statuses (packages/domain/src/project).
pub mod Functions
pub mod Statuses
pub mod Stored
mod Tests
