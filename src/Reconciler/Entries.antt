-- ===== src/Reconciler/Entries.antt =====
-- What a reconciliation leaves in the entries.
use ses.Base.{
  ℕ, ◌≡◌, ◌≢◌, refl, sym, ap, ◌∙◌, String, Bool, not, ◌&&◌, Option, none, some, List, [], ◌∷◌, map,
  length, sum_by, any, ltb, arith, if◌then◌else◌, All,
}
use ses.Base.Dict.{Dict, lookup}
use ses.Base.Sets.{Distinct}
use ses.Js.{Host}
use ses.Project.Functions.{FunctionId, function_name, function_ids}
use ses.Project.Statuses.{
  EngineProjectStatus, open_status, resolved_status, ProjectStatusesV2, row_of, is_open,
  is_resolved, recompute_aggregate, apply_patch, global_resolved_from_statuses,
}
use ses.Project.Statuses.Aggregate.{
  patch_engine_status-rows, global_resolved_lem, some_open, some_resolved,
}
use ses.Project.Stored.{Stored, StoredHost, parse_project_statuses}
use ses.Project.Stored.RoundTrip.{parse_project_statuses-stored}
use ses.Project.Stored.Json.{to_stored, legacy_fields}
use ses.Reconciler.{
  RunIssue, ObservedManager, TrackedRow, observe, keys_of, ensure_tracking_entries_exist,
  next_statuses, observed_count, reconcile_row, reconcile_rows, status_patch, function_with,
  reconcile_after_audit,
}
use ses.Reconciler.Counts.{
  findings_of, observe-findings_of, sum-findings_of, AreKeys, rows_in, ensure_lem,
}

any_ext :
    (p q : FunctionId → Bool)
    → ((id : FunctionId) → p id ≡ q id)
    → (ids : List FunctionId) → any p ids ≡ any q ids
any_ext p q h [] = refl
any_ext p q h (id ∷ ids) = ground (arith, h id, any_ext p q h ids)

function_with-function_name :
    (id : FunctionId) → function_with (function_name id) function_ids ≡ some id
unfolding function_with
function_with-function_name FunctionId.master_data = refl
function_with-function_name FunctionId.over_planning = refl
function_with-function_name FunctionId.missing_plan = refl
function_with-function_name FunctionId.function_rate = refl
function_with-function_name FunctionId.internal_cost_rate = refl
function_with-function_name FunctionId.opportunities = refl

module _ (stored_host : StoredHost) (id : FunctionId) (audit_run_id : String) where
  -- The row of the audited function in an entry.
  abbrev pub engine_row : TrackedRow → EngineProjectStatus
  engine_row row = row_of (parse_project_statuses stored_host row.project_statuses).by_engine id

  stored-row :
      (s : ProjectStatusesV2) (j : FunctionId)
      → row_of (parse_project_statuses stored_host (to_stored s)).by_engine j ≡ row_of s.by_engine j
  unfolding to_stored
  stored-row s j =
      (parse_project_statuses-stored stored_host s (legacy_fields s.legacy_projects)).0 j

  next_statuses-row :
      (column : Stored) (n : ℕ)
      → let parsed = parse_project_statuses stored_host column in
        row_of (next_statuses stored_host id audit_run_id column n).by_engine id
        ≡ apply_patch
            (row_of parsed.by_engine id)
            (status_patch stored_host id audit_run_id (row_of parsed.by_engine id) n)
  unfolding next_statuses recompute_aggregate
  next_statuses-row column n =
      let parsed = parse_project_statuses stored_host column in
      (patch_engine_status-rows parsed id
        (status_patch stored_host id audit_run_id (row_of parsed.by_engine id) n)).0

  -- What an entry says about its manager after the run: how many findings, in which status, and whether
  -- the entry is resolved, which is that some function is resolved and none is open.
  abbrev pub IsReconciled : Host → List RunIssue → TrackedRow → Type 0
  IsReconciled host issues row =
      ((engine_row row).open_count ≡ findings_of host row.manager_key issues)
      × ((engine_row row).status ≡ (
          if ltb 0 (findings_of host row.manager_key issues) then open_status else resolved_status))
      × (row.resolved ≡ (
          not (some_open (parse_project_statuses stored_host row.project_statuses))
          && some_resolved (parse_project_statuses stored_host row.project_statuses)))

  resolved-stored :
      (s : ProjectStatusesV2)
      → global_resolved_from_statuses s ≡ (
          not (some_open (parse_project_statuses stored_host (to_stored s)))
          && some_resolved (parse_project_statuses stored_host (to_stored s)))
  resolved-stored s =
      let read_back = parse_project_statuses stored_host (to_stored s) in
      ground (
        arith,
        (global_resolved_lem s).0,
        any_ext (λ j. is_open (row_of s.by_engine j).status)
            (λ j. is_open (row_of read_back.by_engine j).status)
            (λ j. ap (λ r. is_open r.status) (sym (stored-row s j))) function_ids,
        any_ext (λ j. is_resolved (row_of s.by_engine j).status)
            (λ j. is_resolved (row_of read_back.by_engine j).status)
            (λ j. ap (λ r. is_resolved r.status) (sym (stored-row s j))) function_ids,
      )

  patched_row : Host → List RunIssue → TrackedRow → EngineProjectStatus
  patched_row host issues row =
      let prev = engine_row row in
      apply_patch prev
        (status_patch stored_host id audit_run_id prev (findings_of host row.manager_key issues))

  engine_row-reconcile_row :
      (host : Host) (issues : List RunIssue) (row : TrackedRow)
      → engine_row (reconcile_row stored_host id audit_run_id (observe host issues []) row)
        ≡ patched_row host issues row
  unfolding reconcile_row lookup patched_row
  engine_row-reconcile_row host issues row =
      let n = observed_count (lookup row.manager_key (observe host issues [])) in
      stored-row (next_statuses stored_host id audit_run_id row.project_statuses n) id
      ∙ next_statuses-row row.project_statuses n
      ∙ ap
          (λ k.
            apply_patch (engine_row row)
              (status_patch stored_host id audit_run_id (engine_row row) k))
          (observe-findings_of host issues row.manager_key)

  reconcile_row-IsReconciled :
      (host : Host) (issues : List RunIssue) (row : TrackedRow)
      → IsReconciled host issues
          (reconcile_row stored_host id audit_run_id (observe host issues []) row)
  unfolding reconcile_row lookup patched_row
  reconcile_row-IsReconciled host issues row =
      let written = engine_row-reconcile_row host issues row in
      let n = observed_count (lookup row.manager_key (observe host issues [])) in
      (
        ap (λ r. r.open_count) written,
        ap (λ r. r.status) written,
        resolved-stored (next_statuses stored_host id audit_run_id row.project_statuses n),
      )

  -- The reconciliation of an entry leaves the row of every other function as it was read before.
  pub reconcile_row-other :
      (observed : Dict ObservedManager) (row : TrackedRow) (j : FunctionId)
      → j ≢ id
      → row_of
          (parse_project_statuses stored_host
            (reconcile_row stored_host id audit_run_id observed row).project_statuses).by_engine
          j
        ≡ row_of (parse_project_statuses stored_host row.project_statuses).by_engine j
  unfolding reconcile_row next_statuses recompute_aggregate
  reconcile_row-other observed row j d =
      let parsed = parse_project_statuses stored_host row.project_statuses in
      let n = observed_count (lookup row.manager_key observed) in
      stored-row (next_statuses stored_host id audit_run_id row.project_statuses n) j
      ∙ (patch_engine_status-rows parsed id
            (status_patch stored_host id audit_run_id (row_of parsed.by_engine id) n)).1
          j d

  rows_in-reconcile_rows :
      (process_id : String) (observed : Dict ObservedManager) (table : List TrackedRow)
      → rows_in process_id (reconcile_rows stored_host id audit_run_id process_id observed table)
        ≡ map (reconcile_row stored_host id audit_run_id observed) (rows_in process_id table)
  unfolding reconcile_rows reconcile_row
  rows_in-reconcile_rows process_id observed [] = refl
  rows_in-reconcile_rows process_id observed (row ∷ table) =
      ground (arith, rows_in-reconcile_rows process_id observed table)

  All-IsReconciled :
      (host : Host) (issues : List RunIssue) (rows : List TrackedRow)
      → All
          (IsReconciled host issues)
          (map (reconcile_row stored_host id audit_run_id (observe host issues [])) rows)
  All-IsReconciled host issues [] = tt
  All-IsReconciled host issues (row ∷ rows) =
      (reconcile_row-IsReconciled host issues row, All-IsReconciled host issues rows)

  keys-reconcile_row :
      (observed : Dict ObservedManager) (rows : List TrackedRow)
      → map (λ row. row.manager_key) (map (reconcile_row stored_host id audit_run_id observed) rows)
        ≡ map (λ row. row.manager_key) rows
  unfolding reconcile_row
  keys-reconcile_row observed [] = refl
  keys-reconcile_row observed (row ∷ rows) =
      ap (λ ks. row.manager_key ∷ ks) (keys-reconcile_row observed rows)

  sum-IsReconciled :
      (host : Host) (issues : List RunIssue) (rows : List TrackedRow)
      → All (IsReconciled host issues) rows
      → sum_by (λ row. (engine_row row).open_count) rows
        ≡ sum_by (λ k. findings_of host k issues) (map (λ row. row.manager_key) rows)
  sum-IsReconciled host issues [] h = refl
  sum-IsReconciled host issues (row ∷ rows) h =
      omega (arith, h.0.0, sum-IsReconciled host issues rows h.1)

  -- What a run leaves in a process: one entry for each manager, every entry with what the run says of its
  -- manager, and the open counts of the function over all entries together are the findings of the run.
  abbrev pub IsAccounted : Host → List RunIssue → String → List TrackedRow → Type 0
  IsAccounted host issues process_id table =
      Distinct (keys_of process_id table)
      × All (IsReconciled host issues) (rows_in process_id table)
      × (sum_by (λ row. (engine_row row).open_count) (rows_in process_id table) ≡ length issues)

  -- The reconciliation once the function is looked up.
  reconcile_found :
      Host → String → List RunIssue → List TrackedRow → Option FunctionId → List TrackedRow
  unfolding observe reconcile_rows ensure_tracking_entries_exist
  reconcile_found host process_id issues table none = table
  reconcile_found host process_id issues table (some found) =
      reconcile_rows stored_host found audit_run_id process_id (observe host issues [])
        (ensure_tracking_entries_exist process_id (observe host issues []) table)

  reconcile_after_audit-found :
      (host : Host) (process_id name : String) (issues : List RunIssue) (table : List TrackedRow)
      → reconcile_after_audit host stored_host process_id name audit_run_id issues table
        ≡ reconcile_found host process_id issues table (function_with name function_ids)
  unfolding reconcile_after_audit reconcile_found
  reconcile_after_audit-found host process_id name issues table = go _
    where
      go :
          (found : Option FunctionId)
          → (elim found [
            | none ↦ table
            | some id ↦
                reconcile_rows stored_host id audit_run_id process_id
                  (observe host issues [])
                  (ensure_tracking_entries_exist process_id (observe host issues []) table)
          ])
            ≡ reconcile_found host process_id issues table found
      go none = refl
      go (some found) = refl

  reconcile_rows-IsAccounted :
      (host : Host) (process_id : String) (issues : List RunIssue) (rows : List TrackedRow)
      → Distinct (keys_of process_id rows)
      → AreKeys host (keys_of process_id rows) issues
      → IsAccounted host issues process_id
          (reconcile_rows stored_host id audit_run_id process_id (observe host issues []) rows)
  reconcile_rows-IsAccounted host process_id issues rows d h =
      let observed = observe host issues [] in
      let here = rows_in process_id rows in
      let done = All-IsReconciled host issues here in
      rw (rows_in-reconcile_rows process_id observed rows) (
        rw (keys-reconcile_row observed here) d,
        done,
        sum-IsReconciled host issues _ done
            ∙ ap (sum_by (λ k. findings_of host k issues)) (keys-reconcile_row observed here)
            ∙ sum-findings_of host (keys_of process_id rows) issues d h,
      )

  -- If no two entries of the process have one manager, the reconciliation after a run of a known function
  -- leaves the process so too, and every entry of it with the number of findings that the run has for its
  -- manager, open if there are any and resolved else, and marked as resolved exactly if some function is
  -- resolved and none is open; the open counts of all entries add up to the findings of the run.
  pub reconcile_after_audit-IsAccounted :
      (host : Host) (process_id : String) (issues : List RunIssue) (table : List TrackedRow)
      → Distinct (keys_of process_id table)
      → IsAccounted host issues process_id (
          reconcile_after_audit host stored_host process_id
            (function_name id)
            audit_run_id
            issues
            table)
  unfolding reconcile_found
  reconcile_after_audit-IsAccounted host process_id issues table h =
      let ensured = ensure_lem host process_id issues table h in
      rw
        (
          reconcile_after_audit-found host process_id (function_name id) issues table,
          function_with-function_name id,
        )
        (reconcile_rows-IsAccounted host process_id issues
          (ensure_tracking_entries_exist process_id (observe host issues []) table) ensured.0
          ensured.1)
