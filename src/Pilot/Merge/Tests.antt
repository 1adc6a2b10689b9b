-- ===== src/Pilot/Merge/Tests.antt =====
-- A row that the engine and a proposed rule both find, and another that only the rule finds.
use ses.Base.{ℕ, ◌≡◌, refl, String, none, some, List, [], ◌∷◌, ◌++◌, sum_by, All}
use ses.Js.{of_nat}
use ses.Js.Unary.{unary_host, show_nat-injective}
use ses.Audit.Issue.{Severity, IssueCategory, AuditIssue, AuditResult}
use ses.Pilot.Merge.{merge_audit_results}
use ses.Pilot.Merge.Counted.{IsCounted, merge_audit_results-IsCounted}

abbrev issue_at : String → ℕ → AuditIssue
issue_at rule_code row_index = record {
  id = rule_code;
  issue_key = none;
  project_no = "P-1";
  project_name = "Project";
  sheet_name = "S";
  severity = Severity.high;
  project_manager = "Ann";
  project_state = "Open";
  effort = of_nat 3;
  audit_status = rule_code;
  notes = "";
  row_index = row_index;
  email = some "";
  rule_code = rule_code;
  rule_version = 1;
  rule_name = some "Rule";
  audit_run_code = none;
  category = some IssueCategory.missing_data;
  reason = some "";
  threshold_label = "";
  recommended_action = some "";
  missing_months = none;
  zero_month_count = none;
}

abbrev result_of : ℕ → List AuditIssue → AuditResult
result_of flagged issues = record {
  file_id = "f1";
  run_at = "";
  scanned_rows = 5;
  flagged_rows = flagged;
  issues = issues;
  sheets = record { sheet_name = "S"; row_count = 5; flagged_count = flagged } ∷ [];
}

abbrev engine_result : AuditResult
engine_result = result_of 1 (issue_at "RUL-1" 2 ∷ [])

abbrev ai_result : AuditResult
ai_result = result_of 2 (issue_at "AI-1" 2 ∷ issue_at "AI-1" 3 ∷ [])

merge_audit_results-IsCounted_example :
    ((merge_audit_results unary_host engine_result ai_result).issues
      ≡ engine_result.issues ++ ai_result.issues)
    × All
        (IsCounted unary_host show_nat-injective
          (merge_audit_results unary_host engine_result ai_result).issues)
        (merge_audit_results unary_host engine_result ai_result).sheets
    × ((merge_audit_results unary_host engine_result ai_result).flagged_rows
        ≡ sum_by
            (λ s. s.flagged_count)
            (merge_audit_results unary_host engine_result ai_result).sheets)
merge_audit_results-IsCounted_example =
    merge_audit_results-IsCounted unary_host show_nat-injective engine_result ai_result (refl, tt)
      (refl, tt)
