-- ===== src/Reconciler.antt =====
-- apps/api/src/modules/tracking/status-reconciler.service.ts: after an audit run, every tracking entry of
-- the process gets the number of findings of its manager in the audited function. The table of tracking
-- entries is explicit state; the ids and codes of new entries are left out.
pub mod Counts
pub mod Entries
mod Tests
use Prim.Native.String
use ses.Base.{
  ℕ, ◌+◌, String, Bool, true, false, not, ◌&&◌, Option, none, some, List, [], ◌∷◌, ◌++◌, map,
  filter, str_eq, contains, or_else, ltb, get_or, is_some, if◌then◌else◌,
}
use ses.Base.Dict.{Dict, lookup, insert}
use ses.Js.{Host}
use ses.Js.Trim.{trim}
use ses.ManagerKey.{manager_key}
use ses.Project.Functions.{FunctionId, function_name, function_ids}
use ses.Project.Statuses.{
  EngineProjectStatus, open_status, resolved_status, ProjectStatusesV2, EngineStatusPatch,
  is_resolved, row_of, patch_engine_status, recompute_aggregate, global_resolved_from_statuses,
}
use ses.Project.Stored.{Stored, null_value, StoredHost, parse_project_statuses}
use ses.Project.Stored.Json.{to_stored}

-- The columns of a finding that are selected.
pub record RunIssue : Type 0 where
  pub project_manager : Option String
  pub email : Option String

pub record ObservedManager : Type 0 where
  pub manager_name : String
  pub manager_email : String
  pub open_count : ℕ

-- The columns of a tracking entry that are read or written.
pub record TrackedRow : Type 0 where
  pub process_id : String
  pub manager_key : String
  pub manager_name : String
  pub manager_email : Option String
  pub project_statuses : Stored
  pub resolved : Bool
  pub row_version : ℕ

-- `iss.projectManager?.trim() || 'Unknown'`.
abbrev pub issue_name : RunIssue → String
issue_name iss = or_else (trim (get_or iss.project_manager "")) "Unknown"

-- `(iss.email ?? '').trim()`.
abbrev pub issue_email : RunIssue → String
issue_email iss = trim (get_or iss.email "")

module _ (host : Host) where
  unfoldable pub issue_key : RunIssue → String
  unfolding manager_key trim
  issue_key iss = manager_key host (issue_name iss) (issue_email iss)

  -- The manager of a finding after it is counted.
  abbrev pub counted : Option ObservedManager → RunIssue → ObservedManager
  counted (some prior) iss = record prior { open_count = prior.open_count + 1 }
  counted none iss = record {
    manager_name = issue_name iss;
    manager_email = issue_email iss;
    open_count = 1;
  }

  -- The loop over the findings of the run.
  unfoldable pub observe : List RunIssue → Dict ObservedManager → Dict ObservedManager
  unfolding issue_key lookup insert trim
  observe [] observed = observed
  observe (iss ∷ issues) observed =
      let key = issue_key iss in
      observe issues (insert key (counted (lookup key observed) iss) observed)

-- `managerEmail || null`.
abbrev null_if_empty : String → Option String
null_if_empty s = if str_eq s "" then none else some s

abbrev pub new_row : String → String × ObservedManager → TrackedRow
new_row process_id m = record {
  process_id = process_id;
  manager_key = m.0;
  manager_name = m.1.manager_name;
  manager_email = null_if_empty m.1.manager_email;
  project_statuses = null_value;
  resolved = false;
  row_version = 1;
}

abbrev pub in_process : String → TrackedRow → Bool
in_process process_id row = str_eq row.process_id process_id

-- The keys that the process has entries for.
abbrev pub keys_of : String → List TrackedRow → List String
keys_of process_id table = map (λ row. row.manager_key) (filter (in_process process_id) table)

unfoldable pub ensure_tracking_entries_exist :
    String → Dict ObservedManager → List TrackedRow → List TrackedRow
ensure_tracking_entries_exist process_id observed table =
    table
    ++ map (new_row process_id)
        (filter (λ m. not (contains (keys_of process_id table) m.0)) observed)

-- `observed.get(key)?.openCount ?? 0`.
abbrev pub observed_count : Option ObservedManager → ℕ
observed_count none = 0
observed_count (some m) = m.open_count

module _ (stored_host : StoredHost) (id : FunctionId) (audit_run_id : String) where
  -- `resolvedAt`: kept where the function was resolved before.
  abbrev pub resolved_since : EngineProjectStatus → String
  resolved_since prev =
      if is_resolved prev.status
      then or_else (get_or prev.resolved_at "") stored_host.now
      else stored_host.now

  abbrev pub status_patch : EngineProjectStatus → ℕ → EngineStatusPatch
  status_patch prev open_count = record {
    open_count = some open_count;
    status = some (if ltb 0 open_count then open_status else resolved_status);
    last_seen_run_id = some (some audit_run_id);
    resolved_at = some (if ltb 0 open_count then none else some (resolved_since prev));
  }

  unfoldable pub next_statuses : Stored → ℕ → ProjectStatusesV2
  unfolding parse_project_statuses patch_engine_status recompute_aggregate lookup
  next_statuses column open_count =
      let parsed = parse_project_statuses stored_host column in
      recompute_aggregate
        (patch_engine_status parsed id (status_patch (row_of parsed.by_engine id) open_count))

  -- The body of the loop over the entries.
  unfoldable pub reconcile_row : Dict ObservedManager → TrackedRow → TrackedRow
  unfolding lookup next_statuses global_resolved_from_statuses to_stored
  reconcile_row observed row =
      let final =
        next_statuses row.project_statuses (observed_count (lookup row.manager_key observed)) in
      record row {
        project_statuses = to_stored final;
        resolved = global_resolved_from_statuses final;
        row_version = row.row_version + 1;
      }

  unfoldable pub reconcile_rows : String → Dict ObservedManager → List TrackedRow → List TrackedRow
  unfolding reconcile_row
  reconcile_rows process_id observed [] = []
  reconcile_rows process_id observed (row ∷ rows) =
      (if in_process process_id row then reconcile_row observed row else row)
      ∷ reconcile_rows process_id observed rows

-- The function that has the text.
unfoldable pub function_with : String → List FunctionId → Option FunctionId
function_with name [] = none
function_with name (id ∷ ids) =
    let later = function_with name ids in if str_eq (function_name id) name then some id else later

unfoldable pub reconcile_after_audit :
    Host → StoredHost → String → String → String → List RunIssue → List TrackedRow → List TrackedRow
unfolding observe ensure_tracking_entries_exist reconcile_rows function_with
reconcile_after_audit host stored_host process_id function_id audit_run_id issues table =
    elim (function_with function_id function_ids) [
      | none ↦ table
      | some id ↦
          let observed = observe host issues [] in
          reconcile_rows stored_host id audit_run_id process_id observed
            (ensure_tracking_entries_exist process_id observed table)
    ]
