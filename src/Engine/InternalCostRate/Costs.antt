-- ===== src/Engine/InternalCostRate/Costs.antt =====
-- What a run of the internal-cost-rate engine reports, and which columns it reads.
use ses.Base.{
  ℕ, ◌-◌, ◌<◌, ◌≤◌, ◌≡◌, refl, String, Option, none, some, List, [], ◌∷◌, ◌++◌, min, if◌then◌else◌,
  any, arith, length, get_elem?, get_elem?-bound, Bool-cases,
}
use ses.Js.{Host, Value}
use ses.Workbook.{SheetInfo, WorkbookFile, EvaluatedRow}
use ses.Audit.Issue.{AuditIssue, AuditOptions}
use ses.Engine.Build.{find_rule}
use ses.Engine.Loop.{raw_rows}
use ses.Engine.Loop.Runs.{IsReport, pushes, run_engine-IsReport}
use ses.Engine.Columns.{ColumnInfo, scan_row}
use ses.Engine.Columns.Best.{
  AreColumns, best_single-AreColumns, best_merged-AreColumns, best_single-most,
}
use ses.Engine.ZeroMonths.{is_zero_column, zero_months, zero_months-any, missing_months_of_lem}
use ses.Engine.InternalCostRate.{
  is_cost_rate_month_column, detect_cost_rate_columns, cost_zero_rule, cost_issue, push_issue,
  audit_row, run_internal_cost_rate, both_widths, max_header_scan,
}

module _ (host : Host) (file : WorkbookFile) (options : AuditOptions) where
  -- The finding of a row: one, exactly when a rate column of the sheet is zero in it, with the labels
  -- of all those that are.
  abbrev pub cost_finding : SheetInfo → EvaluatedRow → Option AuditIssue
  cost_finding sheet r =
      let rows = raw_rows file sheet in
      let cols = detect_cost_rate_columns host rows in
      if any (is_zero_column host rows r.row_index) cols
      then some (
          cost_issue host file options cost_zero_rule sheet.name r
            (zero_months host rows r.row_index cols))
      else none

  push_issue_lem :
      (issues : List AuditIssue) (name : String) (r : EvaluatedRow) (months : List String)
      → push_issue host file options issues name r months
        ≡ issues ++ cost_issue host file options cost_zero_rule name r months ∷ []
  unfolding push_issue find_rule
  push_issue_lem issues name r months = refl

  audit_row_lem :
      (rows : List (List Value)) (cols : List ColumnInfo) (sheet : SheetInfo) (r : EvaluatedRow)
      (issues : List AuditIssue)
      → audit_row host file options rows cols sheet r issues
        ≡ pushes
            (if any (is_zero_column host rows r.row_index) cols
              then some (
                  cost_issue host file options cost_zero_rule sheet.name r
                    (zero_months host rows r.row_index cols))
              else none)
            issues
  unfolding audit_row
  audit_row_lem rows [] sheet r issues = refl
  audit_row_lem rows (col ∷ cols) sheet r issues =
      let all_cols = col ∷ cols in
      ground (
        arith,
        missing_months_of_lem host rows r.row_index all_cols [],
        zero_months-any host rows r.row_index all_cols,
        push_issue_lem issues sheet.name r (zero_months host rows r.row_index all_cols),
        Bool-cases (any (is_zero_column host rows r.row_index) all_cols),
      )

  -- A run of the internal-cost-rate engine reports, over the rows of the valid and selected sheets in
  -- order, one finding for each row in which some cost-rate column of its sheet is exactly zero, with the
  -- labels of all those columns, and no other; each sheet's result and the totals count the rows and
  -- the findings, and no more rows are flagged than scanned.
  pub run_internal_cost_rate-IsReport :
      IsReport host file cost_finding (run_internal_cost_rate host file options)
  unfolding run_internal_cost_rate
  run_internal_cost_rate-IsReport = run_engine-IsReport host file _ cost_finding (λ sheet r issues.
      audit_row_lem (raw_rows file sheet) (detect_cost_rate_columns host (raw_rows file sheet))
        sheet r issues)

module _ (host : Host) (rows : List (List Value)) where
  -- Every column that is found has the header of a cost-rate column.
  pub detect_cost_rate_columns-AreColumns :
      AreColumns host (is_cost_rate_month_column host) (detect_cost_rate_columns host rows)
  unfolding detect_cost_rate_columns
  detect_cost_rate_columns-AreColumns =
      let limit = min max_header_scan (length rows) in
      ground (
        arith,
        best_single-AreColumns host (is_cost_rate_month_column host) limit rows [] tt,
        best_merged-AreColumns host (is_cost_rate_month_column host) both_widths (limit - 1) rows []
            tt,
      )

  i-in_scan :
      (i : ℕ) (row : List Value)
      → i < 4
      → get_elem? rows i ≡ some row
      → i < min max_header_scan (length rows)
  i-in_scan i row h e = omega (arith, get_elem?-bound rows i row e)

  -- At least as many columns are found as any one of the first four rows has cost-rate headers.
  pub detect_cost_rate_columns-most :
      (i : ℕ) (row : List Value)
      → i < 4
      → get_elem? rows i ≡ some row
      → length (scan_row host (is_cost_rate_month_column host) 0 row)
        ≤ length (detect_cost_rate_columns host rows)
  unfolding detect_cost_rate_columns
  detect_cost_rate_columns-most i row h e =
      let limit = min max_header_scan (length rows) in
      ground (
        arith,
        best_single-most host (is_cost_rate_month_column host) limit rows [] i row
            (i-in_scan i row h e) e,
      )
