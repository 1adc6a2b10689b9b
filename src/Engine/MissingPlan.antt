-- ===== src/Engine/MissingPlan.antt =====
-- functions-audit/missing-plan: the engine that flags the rows with no effort and those whose effort
-- is zero.
pub mod Effort
use ses.Base.{
  ◌+◌, String, Bool, true, false, ◌&&◌, Option, none, some, List, [], ◌∷◌, ◌++◌, get_or,
  if◌then◌else◌, is_empty,
}
use ses.Js.{
  Host, Number, Value, undefined, null, number, text, other, boolean, is_finite, is_zero, show_nat,
  of_nat,
}
use ses.Js.Words.{join}
use ses.Workbook.{SheetInfo, WorkbookFile, RowObject, EvaluatedRow}
use ses.Workbook.Rows.{text_value, read_cell, cell_text}
use ses.Audit.Issue.{
  AuditIssue, AuditResult, AuditOptions, RuleCatalogEntry, missing_planning, high, medium,
}
use ses.Audit.Policy.{AuditPolicy}
use ses.Engine.Build.{find_rule, build_issue}
use ses.Engine.Loop.{AuditRow, run_engine}

abbrev pub mp_effort_aliases : List String
mp_effort_aliases =
    "Effort (H)" ∷ "Effort(H)" ∷ "effort(h)" ∷ "effort (h)" ∷ "Effort H" ∷ "effort h" ∷ "Effort h"
    ∷ "EFFORT (H)" ∷ "EFFORT(H)" ∷ "EFFORT H" ∷ "Effort" ∷ "effort" ∷ "EFFORT" ∷ "Hours" ∷ "hours"
    ∷ "HOURS" ∷ "Planned Effort" ∷ "planned effort" ∷ "PLANNED EFFORT" ∷ "Measures Effort"
    ∷ "measures effort" ∷ []

abbrev pub mp_project_no_aliases : List String
mp_project_no_aliases =
    "Project No." ∷ "Project No" ∷ "Project Number" ∷ "projectNo" ∷ "Project ID" ∷ []

abbrev pub mp_project_name_aliases : List String
mp_project_name_aliases = "Project" ∷ "Project Name" ∷ "projectName" ∷ "Name" ∷ []

abbrev pub mp_state_aliases : List String
mp_state_aliases = "Project State" ∷ "projectState" ∷ "State" ∷ []

abbrev pub mp_manager_aliases : List String
mp_manager_aliases = "Project Manager" ∷ "projectManager" ∷ "Manager" ∷ []

abbrev pub mp_email_aliases : List String
mp_email_aliases = "Project Manager Email" ∷ "Manager Email" ∷ "email" ∷ "Email" ∷ []

abbrev finite_only : Number → Option Number
finite_only n = if is_finite n then some n else none

abbrev parse_text : Host → String → Option Number
parse_text host t = if is_empty t then none else finite_only (host.parse_number t)

abbrev pub effort_of : Host → Value → Option Number
effort_of host undefined = none
effort_of host null = none
effort_of host (number n) = finite_only n
effort_of host (text s) = parse_text host (cell_text host (text s))
effort_of host (other s) = parse_text host (cell_text host (other s))
effort_of host (boolean b) = parse_text host (cell_text host (boolean b))

unfoldable pub read_effort_value : Host → RowObject → List String → Option Number
unfolding read_cell
read_effort_value host row aliases = effort_of host (read_cell row aliases)

abbrev pub mp_effort_zero_rule_code : String
mp_effort_zero_rule_code = "RUL-MP-EFFORT-ZERO"

abbrev pub mp_effort_missing_rule_code : String
mp_effort_missing_rule_code = "RUL-MP-EFFORT-MISSING"

abbrev pub effort_zero_rule : RuleCatalogEntry
effort_zero_rule = record {
  rule_code = mp_effort_zero_rule_code;
  name = "Zero effort";
  category = missing_planning;
  default_severity = medium;
  version = 1;
}

abbrev pub effort_missing_rule : RuleCatalogEntry
effort_missing_rule = record {
  rule_code = mp_effort_missing_rule_code;
  name = "Missing effort";
  category = missing_planning;
  default_severity = high;
  version = 1;
}

abbrev pub missing_plan_rule_catalog : List RuleCatalogEntry
missing_plan_rule_catalog = effort_zero_rule ∷ effort_missing_rule ∷ []

module _ (host : Host) (file : WorkbookFile) (options : AuditOptions) where
  unfoldable pub effort_issue :
      RuleCatalogEntry
      → String
      → EvaluatedRow
      → Option Number
      → String
      → String
      → String
      → AuditIssue
  unfolding text_value join of_nat
  effort_issue rule sheet_name r effort_value code reason threshold_label =
      build_issue host file options rule code (record {
        sheet_name = sheet_name;
        row_index = r.row_index;
        project_no =
            text_value host r.row mp_project_no_aliases
              (join "" ("Row " ∷ show_nat host (r.row_index + 1) ∷ []));
        project_name = text_value host r.row mp_project_name_aliases "Unnamed project";
        project_manager = text_value host r.row mp_manager_aliases "Unassigned";
        project_state = text_value host r.row mp_state_aliases "Unknown";
        email = text_value host r.row mp_email_aliases "";
        effort = get_or effort_value (of_nat 0);
        reason = reason;
        threshold_label = threshold_label;
        recommended_action =
            "Enter the planned effort hours for this project in the source system and re-run the audit.";
        missing_months = none;
        zero_month_count = none;
      })

  unfoldable pub push_issue :
      List AuditIssue
      → String
      → EvaluatedRow
      → Option Number
      → String
      → String
      → String
      → List AuditIssue
  unfolding find_rule effort_issue
  push_issue issues sheet_name r effort_value code reason threshold_label =
      elim (find_rule missing_plan_rule_catalog code) [
        | none ↦ issues
        | some rule ↦
            issues ++ effort_issue rule sheet_name r effort_value code reason threshold_label ∷ []
      ]

  -- `auditRow` after its reading of the effort.
  unfoldable pub audit_effort : Bool → Bool → SheetInfo → Option Number → AuditRow
  unfolding push_issue
  audit_effort zero_effort_enabled missing_effort_enabled sheet none r issues =
      if missing_effort_enabled
      then (
        true,
        push_issue issues sheet.name r none mp_effort_missing_rule_code
            "Effort (H) is absent — no planned effort recorded for this project." "missing",
      )
      else (false, issues)
  audit_effort zero_effort_enabled missing_effort_enabled sheet (some effort_value) r issues =
      if is_zero effort_value && zero_effort_enabled
      then (
        true,
        push_issue issues sheet.name r (some effort_value) mp_effort_zero_rule_code
            "Effort (H) is 0 — no planned effort recorded for this project." "= 0",
      )
      else (false, issues)

  unfoldable pub audit_row : Bool → Bool → SheetInfo → AuditRow
  unfolding audit_effort
  audit_row zero_effort_enabled missing_effort_enabled sheet r issues =
      audit_effort zero_effort_enabled missing_effort_enabled sheet
        (read_effort_value host r.row mp_effort_aliases) r issues

-- `p?.zeroEffortEnabled !== false`.
abbrev pub zero_effort_on : Option AuditPolicy → Bool
zero_effort_on none = true
zero_effort_on (some p) = p.zero_effort_enabled

abbrev pub missing_effort_on : Option AuditPolicy → Bool
missing_effort_on none = true
missing_effort_on (some p) = p.missing_effort_enabled

unfoldable pub run_missing_plan :
    Host → WorkbookFile → Option AuditPolicy → AuditOptions → AuditResult
unfolding run_engine audit_row
run_missing_plan host file policy options =
    run_engine host file (λ sheet.
      audit_row host file options (zero_effort_on policy) (missing_effort_on policy) sheet)
