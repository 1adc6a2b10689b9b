-- ===== src/Reconciler/Tests.antt =====
-- The reconciliation on the data of status-reconciler.service.spec.ts, and its theorems there.
use ses.Base.{ℕ, ◌≡◌, refl, String, true, false, none, some, List, [], ◌∷◌, map}
use ses.Js.{Host, nan}
use ses.Project.Functions.{FunctionId, function_name}
use ses.Project.Statuses.{
  open_status, resolved_status, ProjectStatusesV2, overall_mixed, row_of, recompute_aggregate,
}
use ses.Project.Stored.{
  Stored, count, word, dict, end_fields, next_field, StoredHost, parse_project_statuses,
}
use ses.Project.Stored.Json.{stored_statuses}
use ses.Project.Stored.RoundTrip.{parse_project_statuses-stored}
use ses.ManagerKey.{manager_key, is_valid_email}
use ses.Reconciler.{RunIssue, TrackedRow, reconcile_after_audit}
use ses.Reconciler.Entries.{IsAccounted, reconcile_after_audit-IsAccounted}

abbrev sample_host : Host
sample_host = record {
  show_number = λ n. "n";
  parse_number = λ s. nan;
  to_lower = λ s. s;
  to_upper = λ s. s;
  encode = λ s. [];
  now = "2026-01-02T00:00:00Z";
}

abbrev stored_host : StoredHost
stored_host = record {
  to_string = λ v. "value";
  at_method = "function at() { [native code] }";
  now = "2026-01-02T00:00:00Z";
}

bob_key : manager_key sample_host "bob  smith" "bob@@x.y" ≡ "missing-email:bob-smith"
unfolding manager_key
bob_key = refl

ann_email : is_valid_email " ann@x.y " ≡ true
unfolding is_valid_email
ann_email = refl

abbrev cell : ℕ → String → Stored
cell n status = dict (
    next_field "openCount" (count n)
      (next_field "status" (word status) (next_field "lastSeenRunId" (word "old") end_fields)))

abbrev column : Stored
column = dict (
    next_field "byEngine"
      (dict (
        next_field "master-data" (cell 0 "na")
          (next_field "over-planning" (cell 3 "open") end_fields)))
      (next_field "aggregate"
        (dict
          (next_field "totalOpen" (count 3) (next_field "overallStatus" (word "open") end_fields)))
        end_fields))

abbrev bob_row : TrackedRow
bob_row = record {
  process_id = "p1";
  manager_key = "missing-email:bob";
  manager_name = "Bob";
  manager_email = none;
  project_statuses = column;
  resolved = false;
  row_version = 1;
}

abbrev run_issues : List RunIssue
run_issues =
    record { project_manager = some "bob"; email = none }
    ∷ record { project_manager = some "ann"; email = some "ann@x.y" }
    ∷ record { project_manager = some " bob "; email = some "" }
    ∷ []

abbrev key_and_version : TrackedRow → String × ℕ
key_and_version row = (row.manager_key, row.row_version)

reconciled_keys :
    map key_and_version (
      reconcile_after_audit sample_host stored_host "p1" "master-data" "run-new" run_issues
        (bob_row ∷ []))
    ≡ ("missing-email:bob", 2) ∷ ("ann@x.y", 2) ∷ []
unfolding reconcile_after_audit
reconciled_keys = refl

reconcile_after_audit-IsAccounted_example :
    IsAccounted stored_host FunctionId.master_data "run-new" sample_host run_issues "p1" (
      reconcile_after_audit sample_host stored_host "p1"
        (function_name FunctionId.master_data)
        "run-new"
        run_issues
        (bob_row ∷ []))
reconcile_after_audit-IsAccounted_example =
    reconcile_after_audit-IsAccounted stored_host FunctionId.master_data "run-new" sample_host "p1"
      run_issues (bob_row ∷ []) (refl, tt)

abbrev mixed_statuses : ProjectStatusesV2
mixed_statuses = record {
  by_engine =
      (
        "missing-plan",
        record {
          open_count = 4;
          status = open_status;
          last_seen_run_id = some "run-1";
          resolved_at = none;
        },
      )
      ∷ (
        "function-rate",
        record {
          open_count = 0;
          status = resolved_status;
          last_seen_run_id = some "run-2";
          resolved_at = some "2026-01-01T00:00:00Z";
        },
      )
      ∷ [];
  aggregate = record { total_open = 4; overall_status = overall_mixed };
  legacy_projects = none;
}

parse_project_statuses-stored_example :
    ((id : FunctionId)
      → row_of
          (parse_project_statuses stored_host (stored_statuses mixed_statuses end_fields)).by_engine
          id
        ≡ row_of mixed_statuses.by_engine id)
    × ((parse_project_statuses stored_host (stored_statuses mixed_statuses end_fields)).aggregate
        ≡ (recompute_aggregate mixed_statuses).aggregate)
    × ((parse_project_statuses stored_host
          (stored_statuses mixed_statuses end_fields)).legacy_projects
        ≡ none)
parse_project_statuses-stored_example =
    parse_project_statuses-stored stored_host mixed_statuses end_fields
