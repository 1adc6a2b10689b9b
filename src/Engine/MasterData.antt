-- ===== src/Engine/MasterData.antt =====
-- functions-audit/master-data: the engine that flags the required fields that are blank or hold a
-- placeholder, and the products that need a review.
pub mod Codes
pub mod Fields
pub mod Product
pub mod Report
pub mod Rules
use Prim.Native.Char.{Char, code}
use Prim.Native.String
use ses.Base.{
  ℕ, zero, suc, ◌+◌, ◌-◌, String, Bool, true, false, ◌||◌, ◌&&◌, not, Option, none, some, List, [],
  ◌∷◌, ◌++◌, map, filter, any, if◌then◌else◌, is_empty, ltb, ◌==◌, str_eq,
}
use ses.Base.Dict.{Dict, lookup, insert}
use ses.Js.{Host, Value, show_nat, of_nat}
use ses.Js.Trim.{trim}
use ses.Js.Words.{join}
use ses.Workbook.{SheetInfo, WorkbookFile, RowObject, EvaluatedRow}
use ses.Workbook.Rows.{text_value, read_cell, cell_text}
use ses.Audit.Issue.{
  AuditIssue, AuditResult, AuditOptions, RuleCatalogEntry, IssueCategory, data_quality,
  needs_review, high, medium,
}
use ses.Audit.Policy.{AuditPolicy}
use ses.Engine.Build.{build_issue}
use ses.Engine.Loop.{AuditRow, run_engine}
use ses.Engine.BadValues.{is_bad_value, is_others_token, is_not_assigned_token}
use ses.Engine.MdColumns.{
  ColumnSpec, md_project_no_aliases, md_project_name_aliases, md_email_aliases, md_state_aliases,
  project_manager, project_product, md_required_columns,
}
use ses.Engine.MdText.{md_reason, product_parts}

unfoldable pub missing_field_rule_code : Host → String → String
unfolding join
missing_field_rule_code host column_id =
    join "" ("RUL-MD-" ∷ host.to_upper column_id ∷ "-MISSING" ∷ [])

abbrev pub md_review_others_rule_code : String
md_review_others_rule_code = "RUL-MD-PROJECT_PRODUCT-REVIEW-OTHERS"

abbrev pub md_project_product_not_assigned_rule_code : String
md_project_product_not_assigned_rule_code = "RUL-MD-PROJECT_PRODUCT-NOT-ASSIGNED"

unfoldable pub missing_field_rule : Host → ColumnSpec → RuleCatalogEntry
unfolding missing_field_rule_code join
missing_field_rule host column = record {
  rule_code = missing_field_rule_code host column.id;
  name = join " " (column.label ∷ "required" ∷ []);
  category = data_quality;
  default_severity = high;
  version = 1;
}

abbrev pub review_rules : List RuleCatalogEntry
review_rules =
    record {
      rule_code = md_project_product_not_assigned_rule_code;
      name = "Project Product \"Not assigned\" needs review";
      category = needs_review;
      default_severity = medium;
      version = 1;
    }
    ∷ record {
      rule_code = md_review_others_rule_code;
      name = "Project Product \"Others\" needs review";
      category = needs_review;
      default_severity = medium;
      version = 1;
    }
    ∷ []

unfoldable pub master_data_rule_catalog : Host → List RuleCatalogEntry
unfolding missing_field_rule
master_data_rule_catalog host = map (missing_field_rule host) md_required_columns ++ review_rules

-- `new Map(catalog.map((rule) => [rule.ruleCode, rule]))`, from the entries so far.
unfoldable pub rules_by_code : List RuleCatalogEntry → Dict RuleCatalogEntry → Dict RuleCatalogEntry
rules_by_code [] entries = entries
rules_by_code (rule ∷ rules) entries = rules_by_code rules (insert rule.rule_code rule entries)

abbrev is_needs_review : IssueCategory → Bool
is_needs_review needs_review = true
is_needs_review _ = false

abbrev pub not_assigned_message : String
not_assigned_message = "Project Product contains \"Not assigned\" — auditor review required."

abbrev pub others_message : String
others_message = "Project Product contains \"Other\" / \"Others\" — auditor review required."

-- The column is not the product, and its cell is blank or a placeholder.
abbrev pub is_bad_column : Host → EvaluatedRow → ColumnSpec → Bool
is_bad_column host r column =
    not (str_eq column.id project_product.id) && is_bad_value host (read_cell r.row column.aliases)

module _ (host : Host) (file : WorkbookFile) (options : AuditOptions) where
  unfoldable pub md_issue :
      RuleCatalogEntry → String → EvaluatedRow → String → Value → String → AuditIssue
  unfolding text_value md_reason join
  md_issue rule sheet_name r rule_code observed message =
      build_issue host file options rule rule_code (record {
        sheet_name = sheet_name;
        row_index = r.row_index;
        project_no =
            text_value host r.row md_project_no_aliases
              (join "" ("Row " ∷ show_nat host (r.row_index + 1) ∷ []));
        project_name = text_value host r.row md_project_name_aliases "Unnamed project";
        project_manager = text_value host r.row project_manager.aliases "Unassigned";
        project_state = text_value host r.row md_state_aliases "Unknown";
        email = text_value host r.row md_email_aliases "";
        effort = of_nat 0;
        reason = md_reason host observed message;
        threshold_label =
            if is_needs_review rule.category then "Manual review" else "Required field";
        recommended_action =
            if is_needs_review rule.category
            then "Confirm the actual product with the project team and update the master record."
            else "Populate the field in the source master system and re-run the audit.";
        missing_months = none;
        zero_month_count = none;
      })

  -- `pushIssue` after its reading of the rule.
  unfoldable pub push_found :
      List AuditIssue
      → String
      → EvaluatedRow
      → String
      → Value
      → String
      → Option RuleCatalogEntry
      → List AuditIssue
  unfolding md_issue
  push_found issues sheet_name r rule_code observed message none = issues
  push_found issues sheet_name r rule_code observed message (some rule) =
      issues ++ md_issue rule sheet_name r rule_code observed message ∷ []

  unfoldable pub push_issue :
      List AuditIssue → String → EvaluatedRow → String → Value → String → List AuditIssue
  unfolding push_found
  push_issue issues sheet_name r rule_code observed message =
      push_found issues sheet_name r rule_code observed message
        (lookup rule_code (rules_by_code (master_data_rule_catalog host) []))

  -- `auditProjectProduct` after its reading of the cell: the value and its trimmed text.
  unfoldable pub audit_product_text :
      SheetInfo → EvaluatedRow → Value → String → List AuditIssue → Bool × List AuditIssue
  unfolding push_issue product_parts
  audit_product_text sheet r raw t issues =
      let parts = product_parts t in
      let not_assigned = any (λ part. is_not_assigned_token host (Value.text part)) parts in
      let others = any (λ part. is_others_token host (Value.text part)) parts in
      let issues1 =
        if not_assigned
        then push_issue issues sheet.name r md_project_product_not_assigned_rule_code raw
            not_assigned_message
        else issues in
      let issues2 =
        if others
        then push_issue issues1 sheet.name r md_review_others_rule_code raw others_message
        else issues1 in
      if is_empty t
      then (
        true,
        push_issue issues sheet.name r (missing_field_rule_code host project_product.id) raw
            "Project Product is missing.",
      )
      else if not (not_assigned || others) && is_bad_value host (Value.text t)
      then (
        true,
        push_issue issues2 sheet.name r (missing_field_rule_code host project_product.id) raw
            "Project Product is missing or uses a placeholder value.",
      )
      else (not_assigned || others, issues2)

  unfoldable pub audit_project_product :
      SheetInfo → EvaluatedRow → List AuditIssue → Bool × List AuditIssue
  unfolding audit_product_text
  audit_project_product sheet r issues =
      let raw = read_cell r.row project_product.aliases in
      audit_product_text sheet r raw (cell_text host raw) issues

  -- The loop over the required columns, with `flagged`.
  unfoldable pub audit_columns :
      SheetInfo → EvaluatedRow → List ColumnSpec → Bool → List AuditIssue → Bool × List AuditIssue
  unfolding push_issue
  audit_columns sheet r [] flagged issues = (flagged, issues)
  audit_columns sheet r (column ∷ columns) flagged issues =
      let bad = is_bad_column host r column in
      audit_columns sheet r columns (if bad then true else flagged) (
        if bad
        then push_issue issues sheet.name r (missing_field_rule_code host column.id)
            (read_cell r.row column.aliases)
            (join "" (column.label ∷ " is missing or uses a placeholder value." ∷ []))
        else issues)

  -- `auditRow` for the given required columns.
  unfoldable pub audit_fields : List ColumnSpec → SheetInfo → AuditRow
  unfolding audit_columns audit_project_product
  audit_fields columns sheet r issues =
      let (flagged, issues') = audit_columns sheet r columns false issues in
      let (product_flagged, issues'') = audit_project_product sheet r issues' in
      (if product_flagged then true else flagged, issues'')

  unfoldable pub audit_row : SheetInfo → AuditRow
  unfolding audit_fields
  audit_row sheet r issues = audit_fields md_required_columns sheet r issues

unfoldable pub run_master_data :
    Host → WorkbookFile → Option AuditPolicy → AuditOptions → AuditResult
unfolding run_engine audit_row
run_master_data host file policy options =
    run_engine host file (λ sheet. audit_row host file options sheet)
