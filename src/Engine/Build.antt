-- ===== src/Engine/Build.antt =====
-- The finding that the `pushIssue` of every engine builds, from the parts that differ.
use ses.Base.{ℕ, String, Option, none, some, List, [], ◌∷◌, is_empty, if◌then◌else◌, str_eq}
use ses.Js.{Host, Number, show_nat}
use ses.Js.Words.{join}
use ses.Workbook.{WorkbookFile}
use ses.Audit.Issue.{AuditIssue, AuditOptions, RuleCatalogEntry, create_issue_key}

-- `RULES_BY_CODE.get(code)`.
unfoldable pub find_rule : List RuleCatalogEntry → String → Option RuleCatalogEntry
find_rule [] code = none
find_rule (rule ∷ rules) code =
    if str_eq rule.rule_code code then some rule else find_rule rules code

pub record IssueArgs : Type 0 where
  pub sheet_name : String
  pub row_index : ℕ
  pub project_no : String
  pub project_name : String
  pub project_manager : String
  pub project_state : String
  pub email : String
  pub effort : Number
  pub reason : String
  pub threshold_label : String
  pub recommended_action : String
  pub missing_months : Option (List String)
  pub zero_month_count : Option ℕ

-- `options.issueScope ? { issueKey: createIssueKey(…) } : {}`.
unfoldable pub scoped_key : Host → AuditOptions → String → IssueArgs → Option String
scoped_key host options code args =
    if is_empty options.issue_scope
    then none
    else some (
        create_issue_key host options.issue_scope (record {
          project_no = args.project_no;
          sheet_name = args.sheet_name;
          row_index = args.row_index;
          rule_code = some code;
          rule_id = none;
        }))

unfoldable pub build_issue :
    Host → WorkbookFile → AuditOptions → RuleCatalogEntry → String → IssueArgs → AuditIssue
unfolding join scoped_key
build_issue host file options rule code args = record {
  id = join "-" (file.id ∷ args.sheet_name ∷ show_nat host args.row_index ∷ code ∷ []);
  issue_key = scoped_key host options code args;
  project_no = args.project_no;
  project_name = args.project_name;
  sheet_name = args.sheet_name;
  severity = rule.default_severity;
  project_manager = args.project_manager;
  project_state = args.project_state;
  effort = args.effort;
  audit_status = code;
  notes = args.reason;
  row_index = args.row_index;
  email = some args.email;
  rule_code = code;
  rule_version = rule.version;
  rule_name = some rule.name;
  audit_run_code = options.run_code;
  category = some rule.category;
  reason = some args.reason;
  threshold_label = args.threshold_label;
  recommended_action = some args.recommended_action;
  missing_months = args.missing_months;
  zero_month_count = args.zero_month_count;
}
