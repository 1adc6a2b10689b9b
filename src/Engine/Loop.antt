-- ===== src/Engine/Loop.antt =====
-- What every engine's `run` has in common: the loop over the audited sheets, the loop over the rows of
-- a sheet, which pushes findings to one shared list and counts the flagged rows, and the result. An
-- engine gives its `auditRow`, which may depend on the sheet.
pub mod Runs
pub mod Lists
use ses.Base.{
  ℕ, suc, ◌+◌, ◌≤◌, ◌≡◌, refl, ap, ◌∙◌, sym, String, Bool, true, false, Option, none, some, List,
  [], ◌∷◌, ◌++◌, map, filter, arith, get_or, length, length-append, sum_by, if◌then◌else◌,
  concat_map, is_empty, length-filter-le, Bool-cases, inl, inr,
}
use ses.Base.Dict.{lookup}
use ses.Js.{Host, Value}
use ses.Workbook.{SheetInfo, WorkbookFile, EvaluatedRow, is_audited}
use ses.Workbook.Rows.{rows_to_objects}
use ses.Audit.Issue.{AuditIssue, SheetAuditResult, AuditResult}

-- `file.rawData[sheet.name] ?? []`.
abbrev pub raw_rows : WorkbookFile → SheetInfo → List (List Value)
raw_rows file sheet = get_or (lookup sheet.name file.raw_data) []

abbrev pub sheet_rows : Host → WorkbookFile → SheetInfo → List EvaluatedRow
sheet_rows host file sheet =
    rows_to_objects host (raw_rows file sheet) (get_or sheet.header_row_index 0)
      sheet.normalized_headers

abbrev pub AuditRow : Type 0
AuditRow = EvaluatedRow → List AuditIssue → Bool × List AuditIssue

-- `rows.forEach(…)`, with `flaggedCount`.
unfoldable pub audit_rows : AuditRow → List EvaluatedRow → ℕ → List AuditIssue → ℕ × List AuditIssue
audit_rows audit_row [] flagged_count issues = (flagged_count, issues)
audit_rows audit_row (r ∷ rows) flagged_count issues =
    let (flagged, issues') = audit_row r issues in
    audit_rows audit_row rows (if flagged then flagged_count + 1 else flagged_count) issues'

-- `sheets.map(…)` over the audited sheets, with the shared list of findings.
unfoldable pub audit_sheets :
    (SheetInfo → List EvaluatedRow)
    → (SheetInfo → AuditRow)
    → List SheetInfo
    → List AuditIssue
    → List SheetAuditResult × List AuditIssue
unfolding audit_rows
audit_sheets rows_of audit_row [] issues = ([], issues)
audit_sheets rows_of audit_row (sheet ∷ sheets) issues =
    let rows = rows_of sheet in
    let (flagged_count, issues') = audit_rows (audit_row sheet) rows 0 issues in
    let (results, issues'') = audit_sheets rows_of audit_row sheets issues' in
    (
      record { sheet_name = sheet.name; row_count = length rows; flagged_count = flagged_count }
          ∷ results,
      issues'',
    )

-- The body of `run`, for a given reading of the rows of a sheet.
unfoldable pub run_engine_on :
    (SheetInfo → List EvaluatedRow) → Host → WorkbookFile → (SheetInfo → AuditRow) → AuditResult
unfolding audit_sheets
run_engine_on rows_of host file audit_row =
    let (sheet_results, issues) =
      audit_sheets rows_of audit_row (filter is_audited file.sheets) [] in
    record {
      file_id = file.id;
      run_at = host.now;
      scanned_rows = sum_by (λ s. s.row_count) sheet_results;
      flagged_rows = sum_by (λ s. s.flagged_count) sheet_results;
      issues = issues;
      sheets = sheet_results;
    }

-- The body of `run` of the per-function engines.
unfoldable pub run_engine : Host → WorkbookFile → (SheetInfo → AuditRow) → AuditResult
unfolding run_engine_on
run_engine host file audit_row = run_engine_on (sheet_rows host file) host file audit_row
