-- ===== src/Project/Tests.antt =====
-- The theorems about project statuses at concrete inputs, and runs of the definitions.
use ses.Base.{◌≡◌, refl, true, false, none, some, ◌≢◌, sum_by, if◌then◌else◌}
use ses.Base.Dict.{lookup, insert}
use ses.Project.Functions.{
  FunctionId, master_data, over_planning, missing_plan, function_ids, is_function_id,
  get_function_label,
}
use ses.Project.Statuses.{
  open_status, resolved_status, overall_open, overall_resolved, overall_mixed, ProjectStatusesV2,
  EngineStatusPatch, empty_project_statuses, row_of, recompute_aggregate,
  global_resolved_from_statuses, patch_engine_status, consider,
}
use ses.Project.Statuses.Aggregate.{
  IsPatched, open_at, some_open, some_resolved, recompute_aggregate_lem, patch_engine_status_lem,
}

abbrev open_three : EngineStatusPatch
open_three = record {
  open_count = some 3;
  status = some open_status;
  last_seen_run_id = some (some "r1");
  resolved_at = none;
}

abbrev closed : EngineStatusPatch
closed = record {
  open_count = some 0;
  status = some resolved_status;
  last_seen_run_id = none;
  resolved_at = none;
}

abbrev two_engines : ProjectStatusesV2
two_engines =
    patch_engine_status (patch_engine_status empty_project_statuses master_data open_three)
      missing_plan closed

statuses_run :
    (two_engines.aggregate.total_open ≡ 3)
    × (two_engines.aggregate.overall_status ≡ overall_mixed)
    × (global_resolved_from_statuses two_engines ≡ false)
    × (global_resolved_from_statuses (patch_engine_status two_engines master_data closed) ≡ true)
    × (global_resolved_from_statuses empty_project_statuses ≡ false)
unfolding patch_engine_status empty_project_statuses recompute_aggregate consider lookup insert
    global_resolved_from_statuses
statuses_run = (refl, refl, refl, refl, refl)

function_texts :
    (is_function_id "missing-plan" ≡ true)
    × (is_function_id "x" ≡ false)
    × (get_function_label "missing-plan" ≡ "Missing Plan")
    × (get_function_label "x" ≡ "x")
unfolding is_function_id get_function_label
function_texts = (refl, refl, refl, refl)

recompute_aggregate_lem_example :
    ((recompute_aggregate two_engines).aggregate.total_open
      ≡ sum_by (open_at two_engines.by_engine) function_ids)
    × ((recompute_aggregate two_engines).aggregate.overall_status ≡ (
        if some_open two_engines
        then if some_resolved two_engines then overall_mixed else overall_open
        else overall_resolved))
recompute_aggregate_lem_example = recompute_aggregate_lem two_engines

patch_engine_status_lem_example :
    IsPatched closed
      (row_of two_engines.by_engine over_planning)
      (row_of (patch_engine_status two_engines over_planning closed).by_engine over_planning)
    × ((j : FunctionId)
        → j ≢ over_planning
        → row_of (patch_engine_status two_engines over_planning closed).by_engine j
          ≡ row_of two_engines.by_engine j)
    × ((patch_engine_status two_engines over_planning closed).legacy_projects
        ≡ two_engines.legacy_projects)
    × ((patch_engine_status two_engines over_planning closed).aggregate.total_open
        ≡ sum_by
            (open_at (patch_engine_status two_engines over_planning closed).by_engine)
            function_ids)
patch_engine_status_lem_example = patch_engine_status_lem two_engines over_planning closed
