-- ===== src/Aggregator.antt =====
-- apps/api/src/modules/escalations/escalations-aggregator.ts: the findings of a process and its tracking
-- entries as one row per manager, with a summary. Times are in milliseconds.
pub mod Conserved
mod Tests
use ses.Base.{
  ℕ, ◌+◌, String, Bool, true, false, not, ◌&&◌, ◌||◌, Option, none, some, List, [], ◌∷◌, ◌++◌, map,
  filter, length, sum_by, any, contains, str_eq, is_empty, or_else, ltb, get_or, is_some,
  if◌then◌else◌,
}
use ses.Base.Dict.{Dict, lookup, insert}
use ses.Base.Sets.{add}
use ses.Js.{Host}
use ses.Js.Trim.{trim}
use ses.Js.Words.{starts_with}
use ses.ManagerKey.{manager_key, is_valid_email}
use ses.Project.Functions.{FunctionId, function_name, function_ids}

pub record AggregatorIssueRow : Type 0 where
  pub issue_key : String
  pub project_manager : Option String
  pub email : Option String
  pub engine_id : FunctionId
  pub project_no : Option String
  pub project_name : Option String

pub record AggregatorTrackingRow : Type 0 where
  pub manager_key : String
  pub manager_name : String
  pub manager_email : Option String
  pub stage : String
  pub is_resolved : Bool
  pub last_contact_at : Option ℕ
  pub updated_at : Option ℕ
  pub sla_due_at : Option ℕ
  pub id : String
  pub display_code : String
  pub outlook_count : ℕ
  pub teams_count : ℕ

pub record FindingRef : Type 0 where
  pub issue_key : String
  pub project_no : Option String
  pub project_name : Option String

pub record AggBucket : Type 0 where
  pub manager_name : String
  pub counts_by_engine : Dict ℕ
  pub findings_by_engine : Dict (List FindingRef)

pub record ManagerRow : Type 0 where
  pub manager_key : String
  pub manager_name : String
  pub resolved_email : Option String
  pub is_unmapped : Bool
  pub total_issues : ℕ
  pub counts_by_engine : Dict ℕ
  pub findings_by_engine : Dict (List FindingRef)
  pub stage : Option String
  pub is_resolved : Bool
  pub last_contact_at : Option ℕ
  pub last_activity_at : Option ℕ
  pub sla_due_at : Option ℕ
  pub tracking_id : Option String
  pub tracking_display_code : Option String
  pub outlook_count : ℕ
  pub teams_count : ℕ

pub record EscalationsSummary : Type 0 where
  pub total_open_findings : ℕ
  pub per_engine_issue_counts : List (FunctionId × ℕ)
  pub per_engine_manager_counts : List (FunctionId × ℕ)
  pub managers_with_open_count : ℕ
  pub engine_count_with_open : ℕ
  pub sla_breaching_count : ℕ
  pub unmapped_manager_count : ℕ

pub record EscalationsPayload : Type 0 where
  pub process_id : String
  pub summary : EscalationsSummary
  pub rows : List ManagerRow
  pub engine_ids : List FunctionId

abbrev empty_bucket : String → AggBucket
empty_bucket name = record { manager_name = name; counts_by_engine = []; findings_by_engine = [] }

-- `counts[id] ?? 0`.
abbrev pub count_at : Dict ℕ → FunctionId → ℕ
count_at counts id = get_or (lookup (function_name id) counts) 0

module _ (host : Host) where
  abbrev pub issue_manager : AggregatorIssueRow → String
  issue_manager row = or_else (trim (get_or row.project_manager "")) "Unknown"

  unfoldable pub issue_manager_key : AggregatorIssueRow → String
  unfolding manager_key trim
  issue_manager_key row = manager_key host (issue_manager row) (get_or row.email "")

  abbrev pub counted_bucket : AggregatorIssueRow → AggBucket → AggBucket
  counted_bucket row cur = record {
    manager_name = or_else cur.manager_name (issue_manager row);
    counts_by_engine =
        insert (function_name row.engine_id) (count_at cur.counts_by_engine row.engine_id + 1)
          cur.counts_by_engine;
    findings_by_engine =
        insert (function_name row.engine_id)
          (get_or (lookup (function_name row.engine_id) cur.findings_by_engine) []
            ++ record {
              issue_key = row.issue_key;
              project_no = row.project_no;
              project_name = row.project_name;
            }
              ∷ [])
          cur.findings_by_engine;
  }

  -- The loop over the findings.
  unfoldable pub group_issues : List AggregatorIssueRow → Dict AggBucket → Dict AggBucket
  unfolding issue_manager_key insert lookup trim
  group_issues [] by_manager = by_manager
  group_issues (row ∷ issues) by_manager =
      let key = issue_manager_key row in
      let cur = get_or (lookup key by_manager) (empty_bucket (issue_manager row)) in
      group_issues issues (insert key (counted_bucket row cur) by_manager)

  abbrev pub name_key : String → String
  name_key name = host.to_lower (trim name)

  unfoldable pub tracking_by_key :
      List AggregatorTrackingRow → Dict AggregatorTrackingRow → Dict AggregatorTrackingRow
  unfolding insert
  tracking_by_key [] by_key = by_key
  tracking_by_key (t ∷ tracking) by_key = tracking_by_key tracking (insert t.manager_key t by_key)

  unfoldable pub tracking_by_name :
      List AggregatorTrackingRow → Dict AggregatorTrackingRow → Dict AggregatorTrackingRow
  unfolding insert lookup trim
  tracking_by_name [] by_name = by_name
  tracking_by_name (t ∷ tracking) by_name =
      let key = name_key t.manager_name in
      tracking_by_name tracking (
        if not (is_empty key) && not (is_some (lookup key by_name))
        then insert key t by_name
        else by_name)

  abbrev consume : Option AggregatorTrackingRow → List String → List String
  consume none ids = ids
  consume (some t) ids = add t.id ids

  unfoldable pub consumed_ids :
      Dict AggregatorTrackingRow → Dict AggBucket → List String → List String
  unfolding lookup add trim
  consumed_ids by_name [] ids = ids
  consumed_ids by_name ((key, agg) ∷ by_manager) ids =
      let here = name_key agg.manager_name in
      consumed_ids by_name by_manager
        (if is_empty here then ids else consume (lookup here by_name) ids)

  -- The loop that adds the managers without findings.
  unfoldable pub add_idle :
      List String → List AggregatorTrackingRow → Dict AggBucket → Dict AggBucket
  unfolding insert lookup
  add_idle consumed [] by_manager = by_manager
  add_idle consumed (t ∷ tracking) by_manager = add_idle consumed tracking (
      if is_some (lookup t.manager_key by_manager) || contains consumed t.id
      then by_manager
      else insert t.manager_key (empty_bucket t.manager_name) by_manager)

  abbrev email_text : String → String
  email_text email = host.to_lower (trim email)

  -- The first valid address among the findings of a manager.
  unfoldable pub issue_email_of : String → List AggregatorIssueRow → Option String
  unfolding issue_manager_key is_valid_email trim
  issue_email_of key [] = none
  issue_email_of key (iss ∷ issues) =
      let later = issue_email_of key issues in
      let email = get_or iss.email "" in
      if str_eq (issue_manager_key iss) key && is_valid_email email
      then some (email_text email)
      else later

  abbrev tracked_email : Option AggregatorTrackingRow → Option String
  tracked_email none = none
  tracked_email (some t) =
      let email = get_or t.manager_email "" in
      if not (is_empty email) && is_valid_email email then some (email_text email) else none

  abbrev or_option {ℓ} : {A : Type ℓ} → Option A → Option A → Option A
  or_option none b = b
  or_option (some a) b = some a

  unfoldable pub pick_resolved_email :
      String → List AggregatorIssueRow → Option AggregatorTrackingRow → Option String
  unfolding issue_email_of is_valid_email trim
  pick_resolved_email key issues tr = or_option (tracked_email tr) (issue_email_of key issues)

  abbrev of_tracking {ℓ} :
      {A : Type ℓ} → A → (AggregatorTrackingRow → A) → Option AggregatorTrackingRow → A
  of_tracking a f none = a
  of_tracking a f (some t) = f t

  -- The row of a manager.
  unfoldable pub manager_row :
      List AggregatorIssueRow → Option AggregatorTrackingRow → String → AggBucket → ManagerRow
  unfolding pick_resolved_email issue_email_of lookup starts_with
  manager_row issues tr key agg =
      let resolved_email = pick_resolved_email key issues tr in
      record {
        manager_key = key;
        manager_name = of_tracking agg.manager_name (λ t. t.manager_name) tr;
        resolved_email = resolved_email;
        is_unmapped =
            starts_with key "missing-email:"
            || not (is_some resolved_email || is_some (issue_email_of key issues));
        total_issues = sum_by (count_at agg.counts_by_engine) function_ids;
        counts_by_engine = agg.counts_by_engine;
        findings_by_engine = agg.findings_by_engine;
        stage = of_tracking none (λ t. some t.stage) tr;
        is_resolved = of_tracking false (λ t. t.is_resolved) tr;
        last_contact_at = of_tracking none (λ t. t.last_contact_at) tr;
        last_activity_at = of_tracking none (λ t. t.updated_at) tr;
        sla_due_at = of_tracking none (λ t. t.sla_due_at) tr;
        tracking_id = of_tracking none (λ t. some t.id) tr;
        tracking_display_code = of_tracking none (λ t. some t.display_code) tr;
        outlook_count = of_tracking 0 (λ t. t.outlook_count) tr;
        teams_count = of_tracking 0 (λ t. t.teams_count) tr;
      }

  unfoldable pub manager_rows :
      List AggregatorIssueRow
      → Dict AggregatorTrackingRow
      → Dict AggregatorTrackingRow
      → Dict AggBucket
      → List ManagerRow
  unfolding manager_row lookup trim
  manager_rows issues by_key by_name [] = []
  manager_rows issues by_key by_name ((key, agg) ∷ by_manager) =
      manager_row issues
        (or_option (lookup key by_key) (lookup (name_key agg.manager_name) by_name)) key agg
      ∷ manager_rows issues by_key by_name by_manager

-- `rows.sort((a, b) => a.managerName.localeCompare(b.managerName))`, which is stable; `after` says that a
-- name comes after another.
unfoldable pub insert_row :
    (String → String → Bool) → ManagerRow → List ManagerRow → List ManagerRow
insert_row after row [] = row ∷ []
insert_row after row (other ∷ rows) =
    let later = insert_row after row rows in
    if after row.manager_name other.manager_name then other ∷ later else row ∷ other ∷ rows

unfoldable pub sort_rows : (String → String → Bool) → List ManagerRow → List ManagerRow
unfolding insert_row
sort_rows after [] = []
sort_rows after (row ∷ rows) = insert_row after row (sort_rows after rows)

-- `breachSla`.
abbrev breach_sla : ℕ → Option ℕ → Bool → Bool
breach_sla now none is_resolved = false
breach_sla now (some due) is_resolved = not is_resolved && ltb due now

abbrev pub issue_count : List ManagerRow → FunctionId → ℕ
issue_count rows id = sum_by (λ r. count_at r.counts_by_engine id) rows

unfoldable pub managers_with : FunctionId → List ManagerRow → List String → List String
unfolding add lookup
managers_with id [] keys = keys
managers_with id (r ∷ rows) keys =
    managers_with id rows
      (if ltb 0 (count_at r.counts_by_engine id) then add r.manager_key keys else keys)

abbrev pub is_open_row : ManagerRow → Bool
is_open_row r = not r.is_resolved && ltb 0 r.total_issues

abbrev pub count_rows : (ManagerRow → Bool) → List ManagerRow → ℕ
count_rows p rows = length (filter p rows)

unfoldable pub summarize : ℕ → List ManagerRow → EscalationsSummary
unfolding managers_with lookup
summarize now rows = record {
  total_open_findings = sum_by (λ r. r.total_issues) (filter is_open_row rows);
  per_engine_issue_counts = map (λ id. (id, issue_count rows id)) function_ids;
  per_engine_manager_counts = map (λ id. (id, length (managers_with id rows []))) function_ids;
  managers_with_open_count = count_rows is_open_row rows;
  engine_count_with_open = length (filter (λ id. ltb 0 (issue_count rows id)) function_ids);
  sla_breaching_count = count_rows (λ r. breach_sla now r.sla_due_at r.is_resolved) rows;
  unmapped_manager_count =
      count_rows (λ r. r.is_unmapped && (ltb 0 r.total_issues || not r.is_resolved)) rows;
}

unfoldable pub aggregate_escalations :
    Host
    → (String → String → Bool)
    → String
    → List AggregatorIssueRow
    → List AggregatorTrackingRow
    → ℕ
    → EscalationsPayload
unfolding group_issues tracking_by_key tracking_by_name consumed_ids add_idle manager_rows sort_rows
    summarize
aggregate_escalations host after process_id issues tracking now =
    let by_name = tracking_by_name host tracking [] in
    let found = group_issues host issues [] in
    let by_manager = add_idle host (consumed_ids host by_name found []) tracking found in
    let rows =
      sort_rows after
        (manager_rows host issues (tracking_by_key host tracking []) by_name by_manager) in
    record {
      process_id = process_id;
      summary = summarize now rows;
      rows = rows;
      engine_ids = function_ids;
    }
