-- ===== src/Audit.antt =====
-- Findings, their stable keys and what runs of an audit have in common
-- (packages/domain/src/audit and core/types.ts).
mod Tests
pub mod Sha1
pub mod Issue
pub mod Compare
pub mod Csv
pub mod Policy
pub mod Defaults
