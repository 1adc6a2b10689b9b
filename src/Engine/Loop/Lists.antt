-- ===== src/Engine/Loop/Lists.antt =====
-- A run of an engine that may push several findings for a row, against the findings and the flags of
-- the rows.
use mathlib.Core.Path.{ap₂}
use mathlib.Core.List.{append-nil, append_assoc}
use ses.Base.{
  ℕ, ◌+◌, ◌≤◌, ◌≡◌, refl, ap, sym, Bool, List, [], ◌∷◌, ◌++◌, map, filter, arith, length,
  length-filter-le, sum_by, concat_map, Bool-cases, inl, inr,
}
use ses.Js.{Host}
use ses.Workbook.{SheetInfo, WorkbookFile, EvaluatedRow, is_audited}
use ses.Audit.Issue.{AuditIssue, SheetAuditResult, AuditResult}
use ses.Engine.Loop.{sheet_rows, AuditRow, audit_rows, audit_sheets, run_engine_on, run_engine}

audit_rows-lists :
    (audit_row : AuditRow) (flag : EvaluatedRow → Bool) (find : EvaluatedRow → List AuditIssue)
    → ((r : EvaluatedRow) (issues : List AuditIssue)
        → audit_row r issues ≡ (flag r, issues ++ find r))
    → (rows : List EvaluatedRow) (n : ℕ) (issues : List AuditIssue)
    → audit_rows audit_row rows n issues
      ≡ (n + length (filter flag rows), issues ++ concat_map find rows)
unfolding audit_rows
audit_rows-lists audit_row flag find h [] n issues =
    ap₂ (λ m l. (m, l)) (omega arith) (sym (append-nil issues))
audit_rows-lists audit_row flag find h (r ∷ rows) n issues = elim (Bool-cases (flag r)) [
  | inl e ↦ ground (
    arith,
    h r issues,
    audit_rows-lists audit_row flag find h rows (n + 1) (issues ++ find r),
    append_assoc issues (find r) (concat_map find rows),
  )
  | inr e ↦ ground (
    arith,
    h r issues,
    audit_rows-lists audit_row flag find h rows n (issues ++ find r),
    append_assoc issues (find r) (concat_map find rows),
  )
]

module _ (rows_of : SheetInfo → List EvaluatedRow) (file : WorkbookFile)
    (flag : SheetInfo → EvaluatedRow → Bool)
    (find : SheetInfo → EvaluatedRow → List AuditIssue) where
  abbrev pub all_findings : SheetInfo → List AuditIssue
  all_findings sheet = concat_map (find sheet) (rows_of sheet)

  abbrev pub flagged_in : SheetInfo → ℕ
  flagged_in sheet = length (filter (flag sheet) (rows_of sheet))

  abbrev pub result_of : SheetInfo → SheetAuditResult
  result_of sheet = record {
    sheet_name = sheet.name;
    row_count = length (rows_of sheet);
    flagged_count = flagged_in sheet;
  }

  sum-rows :
      (sheets : List SheetInfo)
      → sum_by (λ s. s.row_count) (map result_of sheets) ≡ sum_by (λ s. length (rows_of s)) sheets
  sum-rows [] = refl
  sum-rows (s ∷ sheets) = ap (λ n. length (rows_of s) + n) (sum-rows sheets)

  sum-flagged :
      (sheets : List SheetInfo)
      → sum_by (λ s. s.flagged_count) (map result_of sheets) ≡ sum_by flagged_in sheets
  sum-flagged [] = refl
  sum-flagged (s ∷ sheets) = ap (λ n. flagged_in s + n) (sum-flagged sheets)

  sum-flagged-le :
      (sheets : List SheetInfo) → sum_by flagged_in sheets ≤ sum_by (λ s. length (rows_of s)) sheets
  sum-flagged-le [] = omega arith
  sum-flagged-le (s ∷ sheets) =
      omega (arith, sum-flagged-le sheets, length-filter-le (flag s) (rows_of s))

  -- The result of a run: the findings of the rows of the audited sheets in order, the number of
  -- flagged rows and that of scanned rows, for each sheet and in all.
  pub record IsFullReportOn (r : AuditResult) : Type 0 where
    pub issues : r.issues ≡ concat_map all_findings (filter is_audited file.sheets)
    pub sheets : r.sheets ≡ map result_of (filter is_audited file.sheets)
    pub flagged : r.flagged_rows ≡ sum_by flagged_in (filter is_audited file.sheets)
    pub scanned : r.scanned_rows ≡ sum_by (λ s. length (rows_of s)) (filter is_audited file.sheets)
    pub bounded : r.flagged_rows ≤ r.scanned_rows

module _ (rows_of : SheetInfo → List EvaluatedRow) (file : WorkbookFile)
    (audit_row : SheetInfo → AuditRow) (flag : SheetInfo → EvaluatedRow → Bool)
    (find : SheetInfo → EvaluatedRow → List AuditIssue)
    (h : (sheet : SheetInfo) (r : EvaluatedRow) (issues : List AuditIssue)
      → audit_row sheet r issues ≡ (flag sheet r, issues ++ find sheet r)) where
  audit_sheets-lists :
      (sheets : List SheetInfo) (issues : List AuditIssue)
      → audit_sheets rows_of audit_row sheets issues ≡ (
        map (result_of rows_of file flag find) sheets,
        issues ++ concat_map (all_findings rows_of file flag find) sheets,
      )
  unfolding audit_sheets
  audit_sheets-lists [] issues = ap (λ l. ([], l)) (sym (append-nil issues))
  audit_sheets-lists (sheet ∷ sheets) issues = ground (
    arith,
    audit_rows-lists (audit_row sheet) (flag sheet) (find sheet) (h sheet) (rows_of sheet) 0 issues,
    audit_sheets-lists sheets (issues ++ all_findings rows_of file flag find sheet),
    append_assoc issues (all_findings rows_of file flag find sheet)
        (concat_map (all_findings rows_of file flag find) sheets),
  )

  pub run_engine_on-IsFullReportOn :
      (host : Host)
      → IsFullReportOn rows_of file flag find (run_engine_on rows_of host file audit_row)
  unfolding run_engine_on
  run_engine_on-IsFullReportOn host =
      let sheets = filter is_audited file.sheets in
      let whole = audit_sheets-lists sheets [] in
      record {
        issues = ap (λ p. p.1) whole;
        sheets = ap (λ p. p.0) whole;
        flagged = rw whole (sum-flagged rows_of file flag find sheets);
        scanned = rw whole (sum-rows rows_of file flag find sheets);
        bounded = rw whole (
            omega (
              arith,
              sum-flagged rows_of file flag find sheets,
              sum-rows rows_of file flag find sheets,
              sum-flagged-le rows_of file flag find sheets,
            ));
      }

-- The result of a run of a per-function engine.
abbrev pub IsFullReport :
    Host
    → WorkbookFile
    → (SheetInfo → EvaluatedRow → Bool)
    → (SheetInfo → EvaluatedRow → List AuditIssue)
    → AuditResult
    → Type 0
IsFullReport host file flag find r = IsFullReportOn (sheet_rows host file) file flag find r

pub run_engine-IsFullReport :
    (host : Host) (file : WorkbookFile) (audit_row : SheetInfo → AuditRow)
    (flag : SheetInfo → EvaluatedRow → Bool) (find : SheetInfo → EvaluatedRow → List AuditIssue)
    → ((sheet : SheetInfo) (r : EvaluatedRow) (issues : List AuditIssue)
        → audit_row sheet r issues ≡ (flag sheet r, issues ++ find sheet r))
    → IsFullReport host file flag find (run_engine host file audit_row)
unfolding run_engine
run_engine-IsFullReport host file audit_row flag find h =
    run_engine_on-IsFullReportOn (sheet_rows host file) file audit_row flag find h host
