-- ===== src/Pilot/Merge.antt =====
-- packages/domain/src/ai-pilot/merger.ts: the result of an engine and that of the proposed rules as one.
pub mod Counted
mod Tests
use Prim.Native.String
use ses.Base.{
  ℕ, String, Bool, true, false, not, ◌&&◌, List, [], ◌∷◌, ◌++◌, map, length, sum_by, contains,
  str_eq, is_empty, if◌then◌else◌,
}
use ses.Base.Dict.{Dict, insert}
use ses.Base.Sets.{add}
use ses.Js.{Host, show_nat}
use ses.Audit.Issue.{AuditIssue, AuditResult, SheetAuditResult}

-- `${issue.sheetName}::${issue.rowIndex}`.
unfoldable pub flag_key : Host → String → ℕ → String
flag_key host sheet_name row_index =
    String.◌++◌ sheet_name (String.◌++◌ "::" (show_nat host row_index))

-- The loop that collects the keys.
unfoldable pub collect_flagged : Host → String → List AuditIssue → List String → List String
unfolding flag_key add
collect_flagged host sheet_name [] keys = keys
collect_flagged host sheet_name (issue ∷ issues) keys = collect_flagged host sheet_name issues (
    if not (is_empty sheet_name) && not (str_eq issue.sheet_name sheet_name)
    then keys
    else add (flag_key host issue.sheet_name issue.row_index) keys)

unfoldable pub count_distinct_flagged_rows : Host → List AuditIssue → String → ℕ
unfolding collect_flagged
count_distinct_flagged_rows host issues sheet_name =
    length (collect_flagged host sheet_name issues [])

unfoldable pub engine_sheets_by_name :
    List SheetAuditResult → Dict SheetAuditResult → Dict SheetAuditResult
unfolding insert
engine_sheets_by_name [] by_name = by_name
engine_sheets_by_name (sheet ∷ sheets) by_name =
    engine_sheets_by_name sheets (insert sheet.sheet_name sheet by_name)

unfoldable pub add_ai_sheets : List SheetAuditResult → Dict SheetAuditResult → Dict SheetAuditResult
unfolding insert
add_ai_sheets [] by_name = by_name
add_ai_sheets (ai ∷ sheets) by_name = add_ai_sheets sheets (
    if contains (map (λ e. e.0) by_name) ai.sheet_name
    then by_name
    else insert ai.sheet_name
        (record { sheet_name = ai.sheet_name; row_count = 0; flagged_count = 0 }) by_name)

abbrev pub recounted : Host → List AuditIssue → SheetAuditResult → SheetAuditResult
recounted host issues sheet = record sheet {
  flagged_count = count_distinct_flagged_rows host issues sheet.sheet_name;
}

unfoldable pub merge_sheet_summaries :
    Host → List SheetAuditResult → List SheetAuditResult → List AuditIssue → List SheetAuditResult
unfolding engine_sheets_by_name add_ai_sheets count_distinct_flagged_rows
merge_sheet_summaries host engine_sheets ai_sheets merged_issues =
    map (λ e. recounted host merged_issues e.1)
      (add_ai_sheets ai_sheets (engine_sheets_by_name engine_sheets []))

unfoldable pub merge_audit_results : Host → AuditResult → AuditResult → AuditResult
unfolding merge_sheet_summaries
merge_audit_results host engine ai =
    let issues = engine.issues ++ ai.issues in
    let sheets = merge_sheet_summaries host engine.sheets ai.sheets issues in
    record engine {
      flagged_rows = sum_by (λ s. s.flagged_count) sheets;
      issues = issues;
      sheets = sheets;
    }
