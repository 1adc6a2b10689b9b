-- ===== src/Engine/InternalCostRate.antt =====
-- functions-audit/internal-cost-rate: the monthly cost-rate columns of a sheet, and the engine that
-- flags the rows in which one of them is exactly zero.
pub mod Costs
use ses.Base.{
  ℕ, ◌+◌, ◌-◌, min, max, String, Bool, true, false, ◌||◌, Option, none, some, List, [], ◌∷◌, ◌++◌,
  get_or, or_else, if◌then◌else◌, any, contains, length, ltb, ◌==◌,
}
use ses.Js.{Host, Value, show_nat, of_nat}
use ses.Js.Words.{words, join, includes, all_months, is_month_number, is_year}
use ses.Workbook.{SheetInfo, WorkbookFile, RowObject, EvaluatedRow}
use ses.Workbook.Rows.{text_value}
use ses.Audit.Issue.{
  AuditIssue, AuditResult, AuditOptions, RuleCatalogEntry, internal_cost_rate, high,
}
use ses.Engine.Build.{find_rule, build_issue}
use ses.Engine.Loop.{raw_rows, AuditRow, run_engine}
use ses.Engine.Columns.{ColumnInfo, best_single, best_merged}
use ses.Engine.ZeroMonths.{missing_months_of}

abbrev pub icr_project_no_aliases : List String
icr_project_no_aliases =
    "Project ID" ∷ "Project No." ∷ "Project No" ∷ "Project Number" ∷ "projectNo" ∷ []

abbrev pub icr_project_name_aliases : List String
icr_project_name_aliases = "Project Name" ∷ "Project" ∷ "projectName" ∷ "Name" ∷ []

abbrev pub icr_function_aliases : List String
icr_function_aliases = "Function" ∷ "function" ∷ []

abbrev pub icr_manager_aliases : List String
icr_manager_aliases = "Project Manager" ∷ "projectManager" ∷ "Manager" ∷ []

abbrev pub icr_email_aliases : List String
icr_email_aliases = "Project Manager Email" ∷ "Manager Email" ∷ "email" ∷ "Email" ∷ []

unfoldable pub normalize_for_icr_month_match : Host → String → List String
unfolding words
normalize_for_icr_month_match host s = words (host.to_lower s)

unfoldable pub is_cost_rate_month_column : Host → String → Bool
unfolding normalize_for_icr_month_match is_year
is_cost_rate_month_column host header =
    let ws = normalize_for_icr_month_match host header in
    if any is_year ws then any (contains ws) all_months else false

abbrev pub both_widths : List Value → List Value → ℕ
both_widths above below = max (length above) (length below)

abbrev pub max_header_scan : ℕ
max_header_scan = 4

unfoldable pub detect_cost_rate_columns : Host → List (List Value) → List ColumnInfo
unfolding best_single best_merged is_cost_rate_month_column
detect_cost_rate_columns host rows =
    let scan_limit = min max_header_scan (length rows) in
    let best_s = best_single host (is_cost_rate_month_column host) scan_limit rows [] in
    let best_m =
      best_merged host (is_cost_rate_month_column host) both_widths (scan_limit - 1) rows [] in
    if ltb (length best_s) (length best_m) then best_m else best_s

abbrev pub icr_cost_zero_rule_code : String
icr_cost_zero_rule_code = "RUL-ICR-COST-ZERO"

abbrev pub cost_zero_rule : RuleCatalogEntry
cost_zero_rule = record {
  rule_code = icr_cost_zero_rule_code;
  name = "Zero internal cost rate";
  category = internal_cost_rate;
  default_severity = high;
  version = 1;
}

abbrev pub internal_cost_rate_rule_catalog : List RuleCatalogEntry
internal_cost_rate_rule_catalog = cost_zero_rule ∷ []

unfoldable pub cost_reason : Host → List String → String
unfolding join
cost_reason host missing_months =
    let month_list = join ", " missing_months in
    if length missing_months == 1
    then join "" ("Internal cost rate is 0 for " ∷ month_list ∷ "." ∷ [])
    else join "" (
        "Internal cost rate is 0 for "
        ∷ show_nat host (length missing_months)
        ∷ " months: "
        ∷ month_list
        ∷ "."
        ∷ [])

module _ (host : Host) (file : WorkbookFile) (options : AuditOptions) where
  unfoldable pub cost_issue : RuleCatalogEntry → String → EvaluatedRow → List String → AuditIssue
  unfolding cost_reason text_value
  cost_issue rule sheet_name r missing_months =
      build_issue host file options rule icr_cost_zero_rule_code (record {
        sheet_name = sheet_name;
        row_index = r.row_index;
        project_no =
            text_value host r.row icr_project_no_aliases
              (join "" ("Row " ∷ show_nat host (r.row_index + 1) ∷ []));
        project_name = text_value host r.row icr_project_name_aliases "Unnamed project";
        project_manager = text_value host r.row icr_manager_aliases "Unassigned";
        project_state = or_else (text_value host r.row icr_function_aliases "") "Unknown";
        email = text_value host r.row icr_email_aliases "";
        effort = of_nat (length missing_months);
        reason = cost_reason host missing_months;
        threshold_label = "= 0";
        recommended_action =
            "Enter the internal cost rate for the flagged months in the source system and re-run the audit.";
        missing_months = some missing_months;
        zero_month_count = some (length missing_months);
      })

  unfoldable pub push_issue :
      List AuditIssue → String → EvaluatedRow → List String → List AuditIssue
  unfolding find_rule cost_issue
  push_issue issues sheet_name r missing_months =
      elim (find_rule internal_cost_rate_rule_catalog icr_cost_zero_rule_code) [
        | none ↦ issues
        | some rule ↦ issues ++ cost_issue rule sheet_name r missing_months ∷ []
      ]

  unfoldable pub audit_row : List (List Value) → List ColumnInfo → SheetInfo → AuditRow
  unfolding missing_months_of push_issue
  audit_row rows [] sheet r issues = (false, issues)
  audit_row rows (col ∷ cols) sheet r issues =
      let missing_months = missing_months_of host rows r.row_index (col ∷ cols) [] in
      if ltb 0 (length missing_months)
      then (true, push_issue issues sheet.name r missing_months)
      else (false, issues)

  unfoldable pub run_internal_cost_rate : AuditResult
  unfolding run_engine audit_row detect_cost_rate_columns
  run_internal_cost_rate = run_engine host file (λ sheet.
      audit_row (raw_rows file sheet) (detect_cost_rate_columns host (raw_rows file sheet)) sheet)
