-- ===== src/Escalation.antt =====
-- The escalation logic of packages/domain/src/escalation.
pub mod Stages
pub mod Levels
pub mod Tracking
mod Tests
