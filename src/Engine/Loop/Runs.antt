-- ===== src/Engine/Loop/Runs.antt =====
-- A run of an engine that pushes at most one finding for each row, against the list of its findings.
use mathlib.Core.Path.{ap₂}
use mathlib.Core.List.{append-nil, append_assoc}
use ses.Base.{
  ℕ, ◌+◌, ◌≤◌, ◌≡◌, refl, ap, sym, Bool, true, false, Option, none, some, List, [], ◌∷◌, ◌++◌, map,
  filter, arith, length, length-append, sum_by, concat_map, Option-cases, inl, inr,
}
use ses.Js.{Host}
use ses.Workbook.{SheetInfo, WorkbookFile, EvaluatedRow, is_audited}
use ses.Audit.Issue.{AuditIssue, SheetAuditResult, AuditResult}
use ses.Engine.Loop.{sheet_rows, AuditRow, audit_rows, audit_sheets, run_engine_on, run_engine}

-- The result of an `auditRow` that finds `found`.
abbrev pub pushes : Option AuditIssue → List AuditIssue → Bool × List AuditIssue
pushes none issues = (false, issues)
pushes (some issue) issues = (true, issues ++ issue ∷ [])

abbrev pub one : Option AuditIssue → List AuditIssue
one none = []
one (some issue) = issue ∷ []

-- The findings of a list of rows, in order.
abbrev pub findings : (EvaluatedRow → Option AuditIssue) → List EvaluatedRow → List AuditIssue
findings find rows = concat_map (λ r. one (find r)) rows

length-findings-le :
    (find : EvaluatedRow → Option AuditIssue) (rows : List EvaluatedRow)
    → length (findings find rows) ≤ length rows
length-findings-le find [] = omega arith
length-findings-le find (r ∷ rows) = omega (
  arith,
  length-append (one (find r)) (findings find rows),
  length-findings-le find rows,
  one-le (find r),
)
  where
    one-le : (o : Option AuditIssue) → length (one o) ≤ 1
    one-le none = omega arith
    one-le (some i) = omega arith

audit_rows_lem :
    (audit_row : AuditRow) (find : EvaluatedRow → Option AuditIssue)
    → ((r : EvaluatedRow) (issues : List AuditIssue) → audit_row r issues ≡ pushes (find r) issues)
    → (rows : List EvaluatedRow) (n : ℕ) (issues : List AuditIssue)
    → audit_rows audit_row rows n issues
      ≡ (n + length (findings find rows), issues ++ findings find rows)
unfolding audit_rows
audit_rows_lem audit_row find h [] n issues =
    ap₂ (λ m l. (m, l)) (omega arith) (sym (append-nil issues))
audit_rows_lem audit_row find h (r ∷ rows) n issues = elim (Option-cases (find r)) [
  | inl e ↦ ground (arith, h r issues, audit_rows_lem audit_row find h rows n issues)
  | inr (i, e) ↦ ground (
    arith,
    h r issues,
    audit_rows_lem audit_row find h rows (n + 1) (issues ++ i ∷ []),
    append_assoc issues (i ∷ []) (findings find rows),
  )
]

module _ (rows_of : SheetInfo → List EvaluatedRow) (file : WorkbookFile)
    (find : SheetInfo → EvaluatedRow → Option AuditIssue) where
  -- The findings of a sheet.
  abbrev pub sheet_findings : SheetInfo → List AuditIssue
  sheet_findings sheet = findings (find sheet) (rows_of sheet)

  abbrev pub sheet_result : SheetInfo → SheetAuditResult
  sheet_result sheet = record {
    sheet_name = sheet.name;
    row_count = length (rows_of sheet);
    flagged_count = length (sheet_findings sheet);
  }

  sum-row_count :
      (sheets : List SheetInfo)
      → sum_by (λ s. s.row_count) (map sheet_result sheets)
        ≡ sum_by (λ s. length (rows_of s)) sheets
  sum-row_count [] = refl
  sum-row_count (s ∷ sheets) = ap (λ n. length (rows_of s) + n) (sum-row_count sheets)

  sum-flagged_count :
      (sheets : List SheetInfo)
      → sum_by (λ s. s.flagged_count) (map sheet_result sheets)
        ≡ length (concat_map sheet_findings sheets)
  sum-flagged_count [] = refl
  sum-flagged_count (s ∷ sheets) = omega (
    arith,
    sum-flagged_count sheets,
    length-append (sheet_findings s) (concat_map sheet_findings sheets),
  )

  flagged-le :
      (sheets : List SheetInfo)
      → length (concat_map sheet_findings sheets) ≤ sum_by (λ s. length (rows_of s)) sheets
  flagged-le [] = omega arith
  flagged-le (s ∷ sheets) = omega (
    arith,
    flagged-le sheets,
    length-append (sheet_findings s) (concat_map sheet_findings sheets),
    length-findings-le (find s) (rows_of s),
  )

  -- The result of a run: its findings are those of the rows of the audited sheets in order, its counts
  -- are the numbers of flagged and of scanned rows, and each sheet has its own.
  pub record IsReportOn (r : AuditResult) : Type 0 where
    pub issues : r.issues ≡ concat_map sheet_findings (filter is_audited file.sheets)
    pub sheets : r.sheets ≡ map sheet_result (filter is_audited file.sheets)
    pub flagged : r.flagged_rows ≡ length r.issues
    pub scanned : r.scanned_rows ≡ sum_by (λ s. length (rows_of s)) (filter is_audited file.sheets)
    pub bounded : r.flagged_rows ≤ r.scanned_rows

module _ (rows_of : SheetInfo → List EvaluatedRow) (file : WorkbookFile)
    (audit_row : SheetInfo → AuditRow) (find : SheetInfo → EvaluatedRow → Option AuditIssue)
    (h : (sheet : SheetInfo) (r : EvaluatedRow) (issues : List AuditIssue)
      → audit_row sheet r issues ≡ pushes (find sheet r) issues) where
  audit_sheets_lem :
      (sheets : List SheetInfo) (issues : List AuditIssue)
      → audit_sheets rows_of audit_row sheets issues ≡ (
        map (sheet_result rows_of file find) sheets,
        issues ++ concat_map (sheet_findings rows_of file find) sheets,
      )
  unfolding audit_sheets
  audit_sheets_lem [] issues = ap (λ l. ([], l)) (sym (append-nil issues))
  audit_sheets_lem (sheet ∷ sheets) issues = ground (
    arith,
    audit_rows_lem (audit_row sheet) (find sheet) (h sheet) (rows_of sheet) 0 issues,
    audit_sheets_lem sheets (issues ++ sheet_findings rows_of file find sheet),
    append_assoc issues (sheet_findings rows_of file find sheet)
        (concat_map (sheet_findings rows_of file find) sheets),
  )

  pub run_engine_on-IsReportOn :
      (host : Host) → IsReportOn rows_of file find (run_engine_on rows_of host file audit_row)
  unfolding run_engine_on
  run_engine_on-IsReportOn host =
      let sheets = filter is_audited file.sheets in
      let whole = audit_sheets_lem sheets [] in
      record {
        issues = ap (λ p. p.1) whole;
        sheets = ap (λ p. p.0) whole;
        flagged = rw whole (sum-flagged_count rows_of file find sheets);
        scanned = rw whole (sum-row_count rows_of file find sheets);
        bounded = rw whole (
            omega (
              arith,
              sum-flagged_count rows_of file find sheets,
              sum-row_count rows_of file find sheets,
              flagged-le rows_of file find sheets,
            ));
      }

-- The result of a run of a per-function engine.
abbrev pub IsReport :
    Host → WorkbookFile → (SheetInfo → EvaluatedRow → Option AuditIssue) → AuditResult → Type 0
IsReport host file find r = IsReportOn (sheet_rows host file) file find r

pub run_engine-IsReport :
    (host : Host) (file : WorkbookFile) (audit_row : SheetInfo → AuditRow)
    (find : SheetInfo → EvaluatedRow → Option AuditIssue)
    → ((sheet : SheetInfo) (r : EvaluatedRow) (issues : List AuditIssue)
        → audit_row sheet r issues ≡ pushes (find sheet r) issues)
    → IsReport host file find (run_engine host file audit_row)
unfolding run_engine
run_engine-IsReport host file audit_row find h =
    run_engine_on-IsReportOn (sheet_rows host file) file audit_row find h host
