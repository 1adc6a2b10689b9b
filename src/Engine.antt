-- ===== src/Engine.antt =====
-- The per-function audit engines (packages/domain/src/functions-audit).
mod Tests
pub mod Loop
pub mod Columns
pub mod Build
pub mod ZeroCell
pub mod ZeroMonths
pub mod FunctionRate
pub mod InternalCostRate
pub mod OverPlanning
pub mod MissingPlan
pub mod BadValues
pub mod MdColumns
pub mod MdText
pub mod PdColumns
pub mod MasterData
pub mod OppColumns
pub mod OppRules
pub mod Opportunities
pub mod Registry
pub mod PolicyRules
pub mod RunAudit
