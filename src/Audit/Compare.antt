-- ===== src/Audit/Compare.antt =====
-- packages/domain/src/audit/auditEngine.ts: the comparison of two results.
pub mod Differences
pub mod Verdicts
use Prim.Native.String
use ses.Base.{
  ◌≡◌, String, Bool, true, false, not, Option, none, some, List, [], ◌∷◌, ◌++◌, filter, get_or,
  is_some, str_eq, Option-cases, if◌then◌else◌,
}
use ses.Base.Dict.{Dict, insert, lookup}
use ses.Js.{Host, Value, undefined, null, text, number, to_text, show_nat}
use ses.Js.Trim.{trim}
use ses.Js.Words.{join}
use ses.Audit.Issue.{AuditIssue, AuditResult, Severity, IssueCategory}

-- The texts that the string unions stand for.
abbrev pub severity_text : Severity → String
severity_text Severity.high = "High"
severity_text Severity.medium = "Medium"
severity_text Severity.low = "Low"

abbrev pub category_text : IssueCategory → String
category_text IssueCategory.overplanning = "Overplanning"
category_text IssueCategory.missing_planning = "Missing Planning"
category_text IssueCategory.function_rate = "Function Rate"
category_text IssueCategory.internal_cost_rate = "Internal Cost Rate"
category_text IssueCategory.other_category = "Other"
category_text IssueCategory.effort_threshold = "Effort Threshold"
category_text IssueCategory.missing_data = "Missing Data"
category_text IssueCategory.planning_risk = "Planning Risk"
category_text IssueCategory.capacity_risk = "Capacity Risk"
category_text IssueCategory.data_quality = "Data Quality"
category_text IssueCategory.needs_review = "Needs Review"

pub data DiffField : Type 0 where
  severity project_manager project_state effort audit_status email reason : DiffField
  recommended_action category : DiffField

abbrev pub diffable_fields : List DiffField
diffable_fields =
    DiffField.severity ∷ DiffField.project_manager ∷ DiffField.project_state ∷ DiffField.effort
    ∷ DiffField.audit_status ∷ DiffField.email ∷ DiffField.reason ∷ DiffField.recommended_action
    ∷ DiffField.category ∷ []

-- A field of text that may be missing.
abbrev pub text_or_missing : Option String → Value
text_or_missing none = undefined
text_or_missing (some s) = text s

abbrev pub category_or_missing : Option IssueCategory → Value
category_or_missing none = undefined
category_or_missing (some c) = text (category_text c)

-- `issue[field]`.
abbrev pub field_value : AuditIssue → DiffField → Value
field_value issue DiffField.severity = text (severity_text issue.severity)
field_value issue DiffField.project_manager = text issue.project_manager
field_value issue DiffField.project_state = text issue.project_state
field_value issue DiffField.effort = number issue.effort
field_value issue DiffField.audit_status = text issue.audit_status
field_value issue DiffField.email = text_or_missing issue.email
field_value issue DiffField.reason = text_or_missing issue.reason
field_value issue DiffField.recommended_action = text_or_missing issue.recommended_action
field_value issue DiffField.category = category_or_missing issue.category

abbrev pub field_index : DiffField → ses.Base.ℕ
field_index DiffField.severity = 0
field_index DiffField.project_manager = 1
field_index DiffField.project_state = 2
field_index DiffField.effort = 3
field_index DiffField.audit_status = 4
field_index DiffField.email = 5
field_index DiffField.reason = 6
field_index DiffField.recommended_action = 7
field_index DiffField.category = 8

unfoldable pub audit_issue_key : Host → AuditIssue → String
unfolding join
audit_issue_key host issue =
    join "|" (issue.project_no ∷ issue.sheet_name ∷ show_nat host issue.row_index ∷ [])

unfoldable pub key_for : Host → AuditIssue → String
unfolding audit_issue_key
key_for host issue = get_or issue.issue_key (audit_issue_key host issue)

unfoldable pub normalize_for_diff : Host → Value → String
unfolding trim
normalize_for_diff host undefined = ""
normalize_for_diff host null = ""
normalize_for_diff host (text s) = trim s
normalize_for_diff host value = to_text host value

-- `IssueFieldDiff`: `{ from, to }`.
pub record FieldDiff : Type 0 where
  pub field : DiffField
  pub before : Value
  pub after : Value

-- The loop of `diffIssue`; an object with the fields that differ, in order.
unfoldable pub diff_fields : Host → AuditIssue → AuditIssue → List DiffField → List FieldDiff
unfolding normalize_for_diff
diff_fields host prev next [] = []
diff_fields host prev next (field ∷ fields) =
    let rest = diff_fields host prev next fields in
    let a = field_value prev field in
    let b = field_value next field in
    if str_eq (normalize_for_diff host a) (normalize_for_diff host b)
    then rest
    else record { field = field; before = a; after = b } ∷ rest

unfoldable pub diff_issue : Host → AuditIssue → AuditIssue → List FieldDiff
unfolding diff_fields
diff_issue host prev next = diff_fields host prev next diffable_fields

-- `{ ...issue, diffs }`.
pub record ChangedIssue : Type 0 where
  pub issue : AuditIssue
  pub diffs : List FieldDiff

pub record ComparisonResult : Type 0 where
  pub new_issues : List AuditIssue
  pub resolved_issues : List AuditIssue
  pub changed_issues : List ChangedIssue
  pub unchanged_issues : List AuditIssue
  pub manager_changes : List ChangedIssue
  pub effort_changes : List ChangedIssue
  pub state_changes : List ChangedIssue

-- `new Map(issues.map((issue) => [keyFor(issue), issue]))`, with the entries so far.
unfoldable pub map_of : Host → List AuditIssue → Dict AuditIssue → Dict AuditIssue
unfolding insert key_for
map_of host [] entries = entries
map_of host (issue ∷ issues) entries =
    map_of host issues (insert (key_for host issue) issue entries)

-- `changedIssues` and `unchangedIssues`.
abbrev pub SharedIssues : Type 0
SharedIssues = List ChangedIssue × List AuditIssue

-- The body of the loop over the shared issues, after the map is read. Reading a field of an issue
-- that the map does not hold throws: `none`.
unfoldable pub push_shared :
    AuditIssue → Option (List FieldDiff) → SharedIssues → Option SharedIssues
push_shared issue none lists = none
push_shared issue (some []) (changed, unchanged) = some (changed, unchanged ++ issue ∷ [])
push_shared issue (some (d ∷ ds)) (changed, unchanged) =
    some (changed ++ record { issue = issue; diffs = d ∷ ds } ∷ [], unchanged)

-- The differences of an issue to what the map holds under its key.
unfoldable pub diffs_to : Host → Option AuditIssue → AuditIssue → Option (List FieldDiff)
unfolding diff_issue
diffs_to host none issue = none
diffs_to host (some prev) issue = some (diff_issue host prev issue)

unfoldable pub split_shared :
    Host → Dict AuditIssue → List AuditIssue → SharedIssues → Option SharedIssues
unfolding lookup key_for diffs_to push_shared
split_shared host from_map [] lists = some lists
split_shared host from_map (issue ∷ issues) lists =
    elim (push_shared issue (diffs_to host (lookup (key_for host issue) from_map) issue) lists) [
      | none ↦ none
      | some lists' ↦ split_shared host from_map issues lists'
    ]

-- `i.diffs[field]` is an object, so it is truthy when it is there.
unfoldable pub has_diff : DiffField → List FieldDiff → Bool
has_diff field [] = false
has_diff field (d ∷ diffs) =
    if ses.Base.◌==◌ (field_index d.field) (field_index field) then true else has_diff field diffs

-- The result from the two lists of `split_shared`.
unfoldable pub comparison_of :
    List AuditIssue → List AuditIssue → Option SharedIssues → Option ComparisonResult
unfolding has_diff
comparison_of new_issues resolved_issues none = none
comparison_of new_issues resolved_issues (some (changed, unchanged)) = some (record {
  new_issues = new_issues;
  resolved_issues = resolved_issues;
  changed_issues = changed;
  unchanged_issues = unchanged;
  manager_changes = filter (λ i. has_diff DiffField.project_manager i.diffs) changed;
  effort_changes = filter (λ i. has_diff DiffField.effort i.diffs) changed;
  state_changes = filter (λ i. has_diff DiffField.project_state i.diffs) changed;
})

-- `map.has(keyFor(issue))`.
unfoldable pub has_key : Host → Dict AuditIssue → AuditIssue → Bool
unfolding lookup key_for
has_key host entries issue = is_some (lookup (key_for host issue) entries)

unfoldable pub compare_results : Host → AuditResult → AuditResult → Option ComparisonResult
unfolding map_of split_shared comparison_of has_key
compare_results host from to =
    let from_map = map_of host from.issues [] in
    let to_map = map_of host to.issues [] in
    comparison_of (filter (λ issue. not (has_key host from_map issue)) to.issues)
      (filter (λ issue. not (has_key host to_map issue)) from.issues)
      (split_shared host from_map (filter (has_key host from_map) to.issues) ([], []))
