-- ===== src/Engine/Tests.antt =====
-- The theorems about the engines at a concrete workbook, and runs of the definitions on it.
use ses.Base.{
  map, ℕ, ◌≡◌, ◌<◌, refl, String, true, false, none, some, List, [], ◌∷◌, str_eq, if◌then◌else◌,
  All, length, get_elem?, any, ◌⊎◌,
}
use ses.Base.Dict.{lookup, insert}
use ses.Js.{Host, Number, Value, null, number, text, of_nat, nan, neg_infinity}
use ses.Workbook.{SheetInfo, WorkbookFile, SheetStatus, EvaluatedRow}
use ses.Workbook.Rows.{rows_to_objects, is_blank_row}
use ses.Workbook.Rows.Positions.{rows_to_objects-positions}
use ses.Audit.Issue.{AuditOptions, AuditResult}
use ses.Engine.Loop.Runs.{IsReport}
use ses.Engine.Columns.{ColumnInfo}
use ses.Engine.ZeroCell.{classify_value, is_zero_cell}
use ses.Engine.ZeroCell.Exact.{IsExactZero, classify_value-zero}
use ses.Engine.FunctionRate.{run_function_rate}
use ses.Engine.FunctionRate.Rates.{rate_finding, run_function_rate-IsReport}
use ses.Engine.InternalCostRate.{run_internal_cost_rate}
use ses.Engine.InternalCostRate.Costs.{cost_finding, run_internal_cost_rate-IsReport}
use ses.Engine.OverPlanning.{run_over_planning, worst_of}
use ses.Engine.OverPlanning.Worst.{exceeds, IsAttained, worst_of_lem}
use ses.Engine.MissingPlan.{run_missing_plan, read_effort_value}
use ses.Engine.MissingPlan.Effort.{effort_finding, run_missing_plan-IsReport}
use ses.Engine.MdColumns.{md_required_columns}
use ses.Engine.MasterData.{run_master_data, rules_by_code, master_data_rule_catalog}
use ses.Engine.BadValues.{is_bad_value, is_others_token, is_not_assigned_token}
use ses.Engine.MasterData.Codes.{row_codes}
use ses.Engine.MasterData.Report.{fields_flag, fields_findings, run_master_data-IsFullReport}
use ses.Engine.Loop.Lists.{IsFullReport}

-- A host that reads the text 0 as the number 0 and no other text as a number.
abbrev sample_host : Host
sample_host = record {
  show_number = λ n. "n";
  parse_number = λ s. if str_eq s "0" then of_nat 0 else nan;
  to_lower = λ s. s;
  to_upper = λ s. s;
  encode = λ s. [];
  now = "2026-01-01T00:00:00.000Z";
}

abbrev rate_rows : List (List Value)
rate_rows =
    (text "Project" ∷ text "rate jan 2026" ∷ text "rate feb 2026" ∷ [])
    ∷ (text "Alpha" ∷ text " 0 " ∷ number (of_nat 0) ∷ [])
    ∷ (text "Beta" ∷ number (of_nat 7) ∷ null ∷ [])
    ∷ (null ∷ text " " ∷ [])
    ∷ (text "Gamma" ∷ number (of_nat 0) ∷ number (of_nat 9) ∷ [])
    ∷ []

abbrev pd_rows : List (List Value)
pd_rows =
    (text "Project" ∷ text "effort pd" ∷ text "effort pd" ∷ text "effort" ∷ [])
    ∷ (null ∷ text "jan 2026" ∷ text "feb 2026" ∷ [])
    ∷ (text "Alpha" ∷ number (of_nat 31) ∷ number (of_nat 40) ∷ number (of_nat 0) ∷ [])
    ∷ (text "Beta" ∷ number (of_nat 30) ∷ null ∷ null ∷ [])
    ∷ []

abbrev sheet_of : String → SheetInfo
sheet_of name = record {
  name = name;
  status = SheetStatus.valid;
  is_selected = true;
  header_row_index = some 0;
  normalized_headers = none;
}

abbrev sample_file : WorkbookFile
sample_file = record {
  id = "f1";
  sheets = sheet_of "rates" ∷ sheet_of "plan" ∷ [];
  raw_data = ("rates", rate_rows) ∷ ("plan", pd_rows) ∷ [];
}

abbrev sample_options : AuditOptions
sample_options = record { issue_scope = ""; run_code = some "RUN-1" }

abbrev run_counts : AuditResult → ℕ × ℕ
run_counts r = (r.scanned_rows, r.flagged_rows)

run_function_rate-counts :
    run_counts (run_function_rate sample_host sample_file sample_options) ≡ (6, 2)
unfolding run_function_rate rows_to_objects lookup of_nat
run_function_rate-counts = refl

run_over_planning-counts :
    run_counts (run_over_planning sample_host sample_file none sample_options) ≡ (6, 1)
unfolding run_over_planning rows_to_objects lookup
run_over_planning-counts = refl

run_missing_plan-counts :
    run_counts (run_missing_plan sample_host sample_file none sample_options) ≡ (6, 6)
unfolding run_missing_plan rows_to_objects lookup read_effort_value insert
run_missing_plan-counts = refl

run_internal_cost_rate-counts :
    run_counts (run_internal_cost_rate sample_host sample_file sample_options) ≡ (6, 2)
unfolding run_internal_cost_rate rows_to_objects lookup of_nat
run_internal_cost_rate-counts = refl

run_function_rate-IsReport_example :
    IsReport sample_host sample_file
      (rate_finding sample_host sample_file sample_options)
      (run_function_rate sample_host sample_file sample_options)
run_function_rate-IsReport_example =
    run_function_rate-IsReport sample_host sample_file sample_options

run_internal_cost_rate-IsReport_example :
    IsReport sample_host sample_file
      (cost_finding sample_host sample_file sample_options)
      (run_internal_cost_rate sample_host sample_file sample_options)
run_internal_cost_rate-IsReport_example =
    run_internal_cost_rate-IsReport sample_host sample_file sample_options

run_missing_plan-IsReport_example :
    IsReport sample_host sample_file
      (effort_finding sample_host sample_file sample_options none)
      (run_missing_plan sample_host sample_file none sample_options)
run_missing_plan-IsReport_example =
    run_missing_plan-IsReport sample_host sample_file sample_options none

abbrev pd_columns : List ColumnInfo
pd_columns =
    record { col_index = 1; label = "effort pd jan 2026" }
    ∷ record { col_index = 2; label = "effort pd feb 2026" }
    ∷ []

abbrev found : Number × String
found = worst_of sample_host pd_rows 2 pd_columns neg_infinity ""

found_value : found ≡ (of_nat 40, "effort pd feb 2026")
unfolding worst_of of_nat
found_value = refl

worst_of_lem_example :
    (any (exceeds sample_host pd_rows 2 found.0) pd_columns ≡ false)
    × ((found ≡ (neg_infinity, "")) ⊎ IsAttained sample_host pd_rows 2 pd_columns found)
worst_of_lem_example = worst_of_lem sample_host pd_rows 2 pd_columns

abbrev header_row : List Value
header_row = text "Project" ∷ text "rate jan 2026" ∷ text "rate feb 2026" ∷ []

classify_value-zero_example :
    (is_zero_cell (classify_value sample_host (text " 0 ")) ≡ true
      → IsExactZero sample_host (text " 0 "))
    × (IsExactZero sample_host (text " 0 ")
        → is_zero_cell (classify_value sample_host (text " 0 ")) ≡ true)
classify_value-zero_example = classify_value-zero sample_host (text " 0 ")

rows_to_objects-positions_example :
    All
      (λ r.
        (0 < r.row_index)
        × ((cells : List Value) × (get_elem? rate_rows r.row_index ≡ some cells)
            × (is_blank_row sample_host cells ≡ false)))
      (rows_to_objects sample_host rate_rows 0 none)
rows_to_objects-positions_example = rows_to_objects-positions sample_host rate_rows 0 none

-- A row with every field but the customer, and with a product that needs two reviews.
abbrev md_rows : List (List Value)
md_rows =
    (text "Customer name"
      ∷ text "End Customer Name"
      ∷ text "Project Manager"
      ∷ text "Project Country Manager"
      ∷ text "Project BU Head"
      ∷ text "Account Manager"
      ∷ text "Project Industry"
      ∷ text "End Customer Industry"
      ∷ text "Use Case"
      ∷ text "Project Product"
      ∷ [])
    ∷ (text " tbd "
        ∷ text "b"
        ∷ text "c"
        ∷ text "d"
        ∷ text "e"
        ∷ text "f"
        ∷ text "g"
        ∷ text "h"
        ∷ text "i"
        ∷ text "not assigned, others,SAP"
        ∷ [])
    ∷ (text "a"
        ∷ text "b"
        ∷ text "c"
        ∷ text "d"
        ∷ text "e"
        ∷ text "f"
        ∷ text "g"
        ∷ text "h"
        ∷ text "i"
        ∷ text "SAP"
        ∷ [])
    ∷ []

abbrev md_file : WorkbookFile
md_file = record { id = "f2"; sheets = sheet_of "master" ∷ []; raw_data = ("master", md_rows) ∷ [] }

run_master_data-findings :
    length (run_master_data sample_host md_file none sample_options).issues ≡ 3
unfolding run_master_data rows_to_objects lookup insert is_not_assigned_token is_others_token
    is_bad_value rules_by_code master_data_rule_catalog
run_master_data-findings = refl

run_master_data-IsFullReport_example :
    IsFullReport sample_host md_file
      (λ sheet r. fields_flag sample_host md_file sample_options sheet r md_required_columns)
      (λ sheet r. fields_findings sample_host md_file sample_options sheet r md_required_columns)
      (run_master_data sample_host md_file none sample_options)
    × ((sheet : SheetInfo) (r : EvaluatedRow)
        → map
            (λ i. i.rule_code)
            (fields_findings sample_host md_file sample_options sheet r md_required_columns)
          ≡ row_codes sample_host r)
run_master_data-IsFullReport_example =
    run_master_data-IsFullReport sample_host md_file sample_options none

abbrev empty_row : EvaluatedRow
empty_row = record { row = []; row_index = 1 }
