-- ===== src/Engine/OverPlanning.antt =====
-- functions-audit/over-planning: the monthly PD columns of a sheet, and the engine that flags the rows
-- whose largest monthly PD exceeds the threshold.
pub mod Worst
use Prim.Native.String
use ses.Base.{
  ℕ, ◌+◌, ◌-◌, min, String, Bool, true, false, ◌||◌, ◌&&◌, not, Option, none, some, List, [], ◌∷◌,
  ◌++◌, get_or, or_else, if◌then◌else◌, any, contains, filter, length, ltb, leb, is_empty, map,
}
use ses.Js.{
  Host, Number, Value, undefined, null, number, text, other, boolean, is_undefined, is_finite, gt,
  to_text, show_nat, of_nat,
}
use ses.Js.Trim.{trim}
use ses.Js.Words.{words, join, includes, all_months, is_month_number, is_year}
use ses.Workbook.{SheetInfo, WorkbookFile, RowObject, EvaluatedRow}
use ses.Workbook.Rows.{text_value, read_cell, cell_text}
use ses.Audit.Issue.{
  AuditIssue, AuditResult, AuditOptions, RuleCatalogEntry, overplanning, effort_threshold,
  missing_planning, missing_data, planning_risk, high, medium, low,
}
use ses.Audit.Policy.{AuditPolicy}
use ses.Engine.Build.{find_rule, build_issue}
use ses.Engine.Loop.{raw_rows, AuditRow, run_engine}
use ses.Engine.Columns.{ColumnInfo, best_single, best_merged}
use ses.Engine.ZeroCell.{raw_cell}
use ses.Engine.PdColumns.{
  op_project_no_aliases, op_project_name_aliases, op_state_aliases, op_manager_aliases,
  op_email_aliases, detect_pd_columns,
}

-- `String(readCell(row, aliases) ?? '').trim()`.
unfoldable pub trimmed_cell : Host → RowObject → List String → String
unfolding read_cell
trimmed_cell host row aliases = cell_text host (read_cell row aliases)

-- `String(null)` is the text null, where `to_text` would give the empty one.
abbrev string_of : Host → Value → String
string_of host null = "null"
string_of host v = to_text host v

unfoldable pub read_manager_name : Host → RowObject → String
unfolding read_cell trimmed_cell trim join
read_manager_name host row =
    let mgr = read_cell row op_manager_aliases in
    let first = trimmed_cell host row ("First Name" ∷ "firstName" ∷ []) in
    let last = trimmed_cell host row ("Last Name" ∷ "lastName" ∷ []) in
    if not (is_undefined mgr) && not (is_empty (trim (string_of host mgr)))
    then trim (string_of host mgr)
    else join " " (filter (λ t. not (is_empty t)) (first ∷ last ∷ []))

abbrev finite_only : Number → Option Number
finite_only n = if is_finite n then some n else none

abbrev parse_text : Host → String → Option Number
parse_text host t = if is_empty t then none else finite_only (host.parse_number t)

abbrev pub parse_pd_raw : Host → Value → Option Number
parse_pd_raw host undefined = none
parse_pd_raw host null = none
parse_pd_raw host (number n) = finite_only n
parse_pd_raw host (text s) = parse_text host (cell_text host (text s))
parse_pd_raw host (other s) = parse_text host (cell_text host (other s))
parse_pd_raw host (boolean b) = parse_text host (cell_text host (boolean b))

abbrev pub op_month_pd_high_rule_code : String
op_month_pd_high_rule_code = "RUL-OP-MONTH-PD-HIGH"

abbrev pub month_pd_high_rule : RuleCatalogEntry
month_pd_high_rule = record {
  rule_code = op_month_pd_high_rule_code;
  name = "Monthly PD overplanned";
  category = overplanning;
  default_severity = high;
  version = 1;
}

abbrev pub over_planning_engine_rule_catalog : List RuleCatalogEntry
over_planning_engine_rule_catalog =
    month_pd_high_rule
    ∷ record {
      rule_code = "RUL-EFFORT-OVERPLAN-HIGH";
      name = "Overplanned effort";
      category = overplanning;
      default_severity = high;
      version = 1;
    }
    ∷ record {
      rule_code = "RUL-EFFORT-OVERPLAN-LOW";
      name = "Low effort range";
      category = effort_threshold;
      default_severity = low;
      version = 1;
    }
    ∷ record {
      rule_code = "RUL-EFFORT-MISSING";
      name = "Missing effort";
      category = missing_planning;
      default_severity = high;
      version = 1;
    }
    ∷ record {
      rule_code = "RUL-EFFORT-ZERO";
      name = "Zero effort";
      category = missing_planning;
      default_severity = medium;
      version = 1;
    }
    ∷ record {
      rule_code = "RUL-MGR-MISSING";
      name = "Missing project manager";
      category = missing_data;
      default_severity = high;
      version = 1;
    }
    ∷ record {
      rule_code = "RUL-STATE-ONHOLD-EFFORT";
      name = "On Hold with effort";
      category = planning_risk;
      default_severity = high;
      version = 1;
    }
    ∷ record {
      rule_code = "RUL-STATE-INPLAN-EFFORT";
      name = "In Planning with effort";
      category = planning_risk;
      default_severity = medium;
      version = 1;
    }
    ∷ []

unfoldable pub default_pd_threshold : Number
unfolding of_nat
default_pd_threshold = of_nat 30

-- `policy?.pdThreshold ?? DEFAULT_PD_THRESHOLD`.
unfoldable pub pd_threshold_of : Option AuditPolicy → Number
unfolding default_pd_threshold
pd_threshold_of none = default_pd_threshold
pd_threshold_of (some policy) = get_or policy.pd_threshold default_pd_threshold

abbrev pub replaces : Option Number → Number → Bool
replaces none worst_pd = false
replaces (some pd) worst_pd = gt pd worst_pd

-- The loop over the PD columns, with `worstPd` and `worstCol`.
unfoldable pub worst_of :
    Host → List (List Value) → ℕ → List ColumnInfo → Number → String → Number × String
worst_of host rows row_index [] worst_pd worst_col = (worst_pd, worst_col)
worst_of host rows row_index (col ∷ cols) worst_pd worst_col =
    let pd = parse_pd_raw host (raw_cell rows row_index col.col_index) in
    let taken = replaces pd worst_pd in
    worst_of host rows row_index cols (if taken then get_or pd worst_pd else worst_pd)
      (if taken then col.label else worst_col)

module _ (host : Host) (file : WorkbookFile) (pd_threshold : Number) (options : AuditOptions) where
  unfoldable pub pd_issue : RuleCatalogEntry → String → EvaluatedRow → Number → String → AuditIssue
  unfolding text_value read_manager_name join
  pd_issue rule sheet_name r worst_pd worst_col =
      build_issue host file options rule op_month_pd_high_rule_code (record {
        sheet_name = sheet_name;
        row_index = r.row_index;
        project_no =
            text_value host r.row op_project_no_aliases
              (join "" ("Row " ∷ show_nat host (r.row_index + 1) ∷ []));
        project_name = text_value host r.row op_project_name_aliases "Unnamed project";
        project_manager = or_else (read_manager_name host r.row) "Unassigned";
        project_state = text_value host r.row op_state_aliases "Unknown";
        email = text_value host r.row op_email_aliases "";
        effort = worst_pd;
        reason = join "" (
            worst_col
            ∷ ": "
            ∷ host.show_number worst_pd
            ∷ " PD exceeds threshold of "
            ∷ host.show_number pd_threshold
            ∷ " PD."
            ∷ []);
        threshold_label = join "" (">" ∷ host.show_number pd_threshold ∷ " PD" ∷ []);
        recommended_action =
            "Review monthly capacity planning and reduce or redistribute PD for this project.";
        missing_months = none;
        zero_month_count = none;
      })

  unfoldable pub push_issue :
      List AuditIssue → String → EvaluatedRow → Number → String → List AuditIssue
  unfolding find_rule pd_issue
  push_issue issues sheet_name r worst_pd worst_col =
      elim (find_rule over_planning_engine_rule_catalog op_month_pd_high_rule_code) [
        | none ↦ issues
        | some rule ↦ issues ++ pd_issue rule sheet_name r worst_pd worst_col ∷ []
      ]

  unfoldable pub audit_row : List (List Value) → List ColumnInfo → SheetInfo → AuditRow
  unfolding worst_of push_issue
  audit_row rows [] sheet r issues = (false, issues)
  audit_row rows (col ∷ cols) sheet r issues =
      let (worst_pd, worst_col) =
        worst_of host rows r.row_index (col ∷ cols) Number.neg_infinity "" in
      if gt worst_pd pd_threshold
      then (true, push_issue issues sheet.name r worst_pd worst_col)
      else (false, issues)

unfoldable pub run_over_planning :
    Host → WorkbookFile → Option AuditPolicy → AuditOptions → AuditResult
unfolding run_engine audit_row detect_pd_columns pd_threshold_of
run_over_planning host file policy options = run_engine host file (λ sheet.
    audit_row host file (pd_threshold_of policy) options (raw_rows file sheet)
      (detect_pd_columns host (raw_rows file sheet)) sheet)
