-- ===== src/Engine/Registry.antt =====
-- functions-audit/index.ts: the engine of each function.
pub mod Routing
use ses.Base.{String, Option, none, some, get_or, List, [], ◌∷◌, str_eq, if◌then◌else◌}
use ses.Js.{Host}
use ses.Workbook.{WorkbookFile}
use ses.Audit.Issue.{AuditResult, AuditOptions}
use ses.Audit.Policy.{AuditPolicy}
use ses.Project.Functions.{FunctionId, function_name, function_ids}
use ses.Engine.FunctionRate.{run_function_rate}
use ses.Engine.InternalCostRate.{run_internal_cost_rate}
use ses.Engine.OverPlanning.{run_over_planning}
use ses.Engine.MasterData.{run_master_data}
use ses.Engine.MissingPlan.{run_missing_plan}
use ses.Engine.Opportunities.{run_opportunities}

-- `FunctionAuditEngine.run`.
abbrev pub EngineRun : Type 0
EngineRun = Host → WorkbookFile → Option AuditPolicy → AuditOptions → AuditResult

unfoldable pub function_audit_engines : FunctionId → EngineRun
function_audit_engines FunctionId.master_data = run_master_data
function_audit_engines FunctionId.over_planning = run_over_planning
function_audit_engines FunctionId.missing_plan = run_missing_plan
function_audit_engines FunctionId.function_rate =
    λ host file policy options. run_function_rate host file options
function_audit_engines FunctionId.internal_cost_rate =
    λ host file policy options. run_internal_cost_rate host file options
function_audit_engines FunctionId.opportunities = run_opportunities

-- The property of the registry object that has the given name.
unfoldable pub find_engine : List FunctionId → String → Option EngineRun
unfolding function_audit_engines
find_engine [] name = none
find_engine (id ∷ ids) name =
    if str_eq (function_name id) name
    then some (function_audit_engines id)
    else find_engine ids name

unfoldable pub get_function_audit_engine : Option String → EngineRun
unfolding find_engine
get_function_audit_engine function_id =
    get_or (find_engine function_ids (get_or function_id "master-data"))
      (function_audit_engines FunctionId.over_planning)

unfoldable pub run_function_audit : Option String → EngineRun
unfolding get_function_audit_engine
run_function_audit function_id = get_function_audit_engine function_id
