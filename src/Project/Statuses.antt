-- ===== src/Project/Statuses.antt =====
-- projectStatuses.ts: the status of a tracked manager in each audit function, and the aggregate over
-- all functions.
pub mod Aggregate
use ses.Base.{
  ℕ, ◌+◌, ◌==◌, String, Bool, true, false, not, ◌&&◌, Option, none, some, List, [], ◌∷◌, ◌++◌, map,
  all, filter, get_or, if◌then◌else◌,
}
use ses.Base.Dict.{Dict, lookup, insert}
use ses.Project.Functions.{FunctionId, function_name, function_ids}

pub data EngineSubStatus : Type 0 where
  open_status resolved_status na : EngineSubStatus

pub data LegacyStage : Type 0 where
  open_stage acknowledged corrected resolved_stage : LegacyStage

pub record LegacyEvent : Type 0 where
  pub channel : String
  pub at : String
  pub note : String

pub record LegacyProjectTrackingRow : Type 0 where
  pub project_no : String
  pub stage : LegacyStage
  pub feedback : String
  pub history : List LegacyEvent
  pub updated_at : String

-- A missing `resolvedAt` reads as `null`.
pub record EngineProjectStatus : Type 0 where
  pub open_count : ℕ
  pub status : EngineSubStatus
  pub last_seen_run_id : Option String
  pub resolved_at : Option String

pub data OverallStatus : Type 0 where
  overall_open overall_resolved overall_mixed : OverallStatus

pub record ProjectStatusesAggregate : Type 0 where
  pub total_open : ℕ
  pub overall_status : OverallStatus

pub record ProjectStatusesV2 : Type 0 where
  pub by_engine : Dict EngineProjectStatus
  pub aggregate : ProjectStatusesAggregate
  pub legacy_projects : Option (Dict LegacyProjectTrackingRow)

abbrev pub empty_engine_status : EngineProjectStatus
empty_engine_status = record {
  open_count = 0;
  status = na;
  last_seen_run_id = none;
  resolved_at = none;
}

unfoldable pub fill_empty : Dict EngineProjectStatus → List FunctionId → Dict EngineProjectStatus
fill_empty by_engine [] = by_engine
fill_empty by_engine (id ∷ ids) =
    fill_empty (insert (function_name id) empty_engine_status by_engine) ids

unfoldable pub empty_project_statuses : ProjectStatusesV2
unfolding fill_empty insert
empty_project_statuses = record {
  by_engine = fill_empty [] function_ids;
  aggregate = record { total_open = 0; overall_status = overall_resolved };
  legacy_projects = none;
}

-- `===` on sub-statuses.
abbrev pub is_na : EngineSubStatus → Bool
is_na na = true
is_na _ = false

abbrev pub is_open : EngineSubStatus → Bool
is_open open_status = true
is_open _ = false

abbrev pub is_resolved : EngineSubStatus → Bool
is_resolved resolved_status = true
is_resolved _ = false

abbrev pub row_of : Dict EngineProjectStatus → FunctionId → EngineProjectStatus
row_of by_engine id = get_or (lookup (function_name id) by_engine) empty_engine_status

-- The loop of `recomputeAggregate` over its two variables.
unfoldable pub consider :
    Dict EngineProjectStatus → List FunctionId → ℕ → List EngineSubStatus → ℕ × List EngineSubStatus
consider by_engine [] total_open considered = (total_open, considered)
consider by_engine (id ∷ ids) total_open considered =
    let row = row_of by_engine id in
    let skipped = consider by_engine ids total_open considered in
    let counted =
      consider by_engine ids
        (if is_open row.status then total_open + row.open_count else total_open)
        (considered ++ row.status ∷ []) in
    if is_na row.status then skipped else counted

abbrev pub overall_of : List EngineSubStatus → OverallStatus
overall_of [] = overall_resolved
overall_of (s ∷ ss) =
    if all is_resolved (s ∷ ss)
    then overall_resolved
    else if all is_open (s ∷ ss)
    then overall_open
    else overall_mixed

unfoldable pub recompute_aggregate : ProjectStatusesV2 → ProjectStatusesV2
recompute_aggregate statuses =
    let (total_open, considered) = consider statuses.by_engine function_ids 0 [] in
    record statuses {
      aggregate = record { total_open = total_open; overall_status = overall_of considered };
    }

abbrev pub is_nil : List EngineSubStatus → Bool
is_nil [] = true
is_nil (s ∷ ss) = false

unfoldable pub global_resolved_from_statuses : ProjectStatusesV2 → Bool
global_resolved_from_statuses statuses =
    let with_data =
      filter (λ s. not (is_na s))
        (map (λ id. (row_of statuses.by_engine id).status) function_ids) in
    if is_nil with_data then false else all is_resolved with_data

-- `Partial<EngineProjectStatus>`: `none` is a field that is not given.
pub record EngineStatusPatch : Type 0 where
  pub open_count : Option ℕ
  pub status : Option EngineSubStatus
  pub last_seen_run_id : Option (Option String)
  pub resolved_at : Option (Option String)

-- `{ ...emptyEngineStatus(), ...current, ...patch }`.
abbrev pub apply_patch : EngineProjectStatus → EngineStatusPatch → EngineProjectStatus
apply_patch current patch = record {
  open_count = get_or patch.open_count current.open_count;
  status = get_or patch.status current.status;
  last_seen_run_id = get_or patch.last_seen_run_id current.last_seen_run_id;
  resolved_at = get_or patch.resolved_at current.resolved_at;
}

unfoldable pub patch_engine_status :
    ProjectStatusesV2 → FunctionId → EngineStatusPatch → ProjectStatusesV2
patch_engine_status statuses function_id patch = recompute_aggregate (record statuses {
  by_engine =
      insert (function_name function_id) (apply_patch (row_of statuses.by_engine function_id) patch)
        statuses.by_engine;
})
