-- ===== src/Engine/MasterData/Fields.antt =====
-- The loop over the required fields of a row.
use mathlib.Core.List.{append-nil, append_assoc}
use ses.Base.{
  ◌≡◌, refl, sym, String, Bool, true, ◌||◌, Option, none, some, List, [], ◌∷◌, ◌++◌, any,
  if◌then◌else◌, concat_map, arith, Bool-cases, inl, inr,
}
use ses.Base.Dict.{lookup}
use ses.Js.{Host, Value}
use ses.Js.Words.{join}
use ses.Workbook.{SheetInfo, WorkbookFile, EvaluatedRow}
use ses.Workbook.Rows.{read_cell}
use ses.Audit.Issue.{AuditIssue, AuditOptions, RuleCatalogEntry}
use ses.Engine.MdColumns.{ColumnSpec}
use ses.Engine.MasterData.{
  missing_field_rule_code, master_data_rule_catalog, rules_by_code, md_issue, push_found,
  push_issue, is_bad_column, audit_columns,
}

module _ (host : Host) (file : WorkbookFile) (options : AuditOptions) (sheet : SheetInfo)
    (r : EvaluatedRow) where
  -- The finding of a rule, if there is one.
  abbrev pub findings_of : String → Value → String → Option RuleCatalogEntry → List AuditIssue
  findings_of rule_code observed message none = []
  findings_of rule_code observed message (some rule) =
      md_issue host file options rule sheet.name r rule_code observed message ∷ []

  -- The finding of a rule code; one that is not in the catalogue gives none.
  abbrev pub rule_findings : String → Value → String → List AuditIssue
  rule_findings rule_code observed message =
      findings_of rule_code observed message
        (lookup rule_code (rules_by_code (master_data_rule_catalog host) []))

  push_found_lem :
      (issues : List AuditIssue) (rule_code : String) (observed : Value) (message : String)
      (o : Option RuleCatalogEntry)
      → push_found host file options issues sheet.name r rule_code observed message o
        ≡ issues ++ findings_of rule_code observed message o
  unfolding push_found
  push_found_lem issues rule_code observed message none = sym (append-nil issues)
  push_found_lem issues rule_code observed message (some rule) = refl

  pub push_issue_lem :
      (issues : List AuditIssue) (rule_code : String) (observed : Value) (message : String)
      → push_issue host file options issues sheet.name r rule_code observed message
        ≡ issues ++ rule_findings rule_code observed message
  unfolding push_issue
  push_issue_lem issues rule_code observed message =
      push_found_lem issues rule_code observed message
        (lookup rule_code (rules_by_code (master_data_rule_catalog host) []))

  -- The finding of a required column.
  abbrev pub column_findings : ColumnSpec → List AuditIssue
  column_findings column =
      if is_bad_column host r column
      then rule_findings (missing_field_rule_code host column.id) (read_cell r.row column.aliases)
          (join "" (column.label ∷ " is missing or uses a placeholder value." ∷ []))
      else []

  pub audit_columns_lem :
      (columns : List ColumnSpec) (flagged : Bool) (issues : List AuditIssue)
      → audit_columns host file options sheet r columns flagged issues ≡ (
        flagged || any (is_bad_column host r) columns,
        issues ++ concat_map column_findings columns,
      )
  unfolding audit_columns
  audit_columns_lem [] flagged issues = ground (arith, append-nil issues, Bool-cases flagged)
  audit_columns_lem (column ∷ columns) flagged issues =
      let code = missing_field_rule_code host column.id in
      let raw = read_cell r.row column.aliases in
      let message = join "" (column.label ∷ " is missing or uses a placeholder value." ∷ []) in
      elim (Bool-cases (is_bad_column host r column)) [
        | inl e ↦ ground (
          arith,
          audit_columns_lem columns true
              (push_issue host file options issues sheet.name r code raw message),
          push_issue_lem issues code raw message,
          append_assoc issues (rule_findings code raw message) (concat_map column_findings columns),
          Bool-cases flagged,
        )
        | inr e ↦ ground (arith, audit_columns_lem columns flagged issues)
      ]
