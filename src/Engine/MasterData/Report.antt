-- ===== src/Engine/MasterData/Report.antt =====
-- What a run of the master-data engine reports.
use mathlib.Core.List.{append_assoc}
use ses.Base.{◌≡◌, Bool, false, ◌||◌, Option, List, ◌++◌, map, any, concat_map, arith, Bool-cases}
use ses.Js.{Host}
use ses.Workbook.{SheetInfo, WorkbookFile, EvaluatedRow}
use ses.Workbook.Rows.{read_cell, cell_text}
use ses.Audit.Issue.{AuditIssue, AuditOptions}
use ses.Audit.Policy.{AuditPolicy}
use ses.Engine.Loop.Lists.{IsFullReport, run_engine-IsFullReport}
use ses.Engine.MdColumns.{ColumnSpec, project_product, md_required_columns}
use ses.Engine.MasterData.{audit_fields, is_bad_column, audit_row, run_master_data}
use ses.Engine.MasterData.Codes.{row_codes, codes-fields_findings}
use ses.Engine.MasterData.Fields.{column_findings, audit_columns_lem}
use ses.Engine.MasterData.Product.{product_flag, product_findings, audit_project_product_lem}

module _ (host : Host) (file : WorkbookFile) (options : AuditOptions) (sheet : SheetInfo)
    (r : EvaluatedRow) where
  -- The row is flagged: one of the columns is bad, or the product is flagged.
  abbrev pub fields_flag : List ColumnSpec → Bool
  fields_flag columns =
      any (is_bad_column host r) columns
      || product_flag host file options sheet r
          (cell_text host (read_cell r.row project_product.aliases))

  -- The findings of the row: those of the columns in their order, then those of the product.
  abbrev pub fields_findings : List ColumnSpec → List AuditIssue
  fields_findings columns =
      concat_map (column_findings host file options sheet r) columns
      ++ product_findings host file options sheet r (read_cell r.row project_product.aliases)
          (cell_text host (read_cell r.row project_product.aliases))

  audit_fields_lem :
      (columns : List ColumnSpec) (issues : List AuditIssue)
      → audit_fields host file options columns sheet r issues
        ≡ (fields_flag columns, issues ++ fields_findings columns)
  unfolding audit_fields
  audit_fields_lem columns issues =
      let first = concat_map (column_findings host file options sheet r) columns in
      ground (
        arith,
        audit_columns_lem host file options sheet r columns false issues,
        audit_project_product_lem host file options sheet r (issues ++ first),
        append_assoc issues first (
            product_findings host file options sheet r (read_cell r.row project_product.aliases)
              (cell_text host (read_cell r.row project_product.aliases))),
        Bool-cases (any (is_bad_column host r) columns),
        Bool-cases (
            product_flag host file options sheet r
              (cell_text host (read_cell r.row project_product.aliases))),
      )

module _ (host : Host) (file : WorkbookFile) (options : AuditOptions) where
  -- A run of the master-data engine reports, over the rows of the valid and selected sheets in order,
  -- the findings of each row, and flags it if a required field or the product is bad; each sheet's
  -- result and the totals count the rows and the flagged rows. The rule codes of the findings of a row
  -- are, in order, one for each required field but the product that is blank or holds a placeholder,
  -- and those of the product: the missing one alone if it is blank, else one if it has parts that are
  -- not assigned, one if it has parts that are other products, and the missing one if it has neither
  -- and is a placeholder. No such code goes unreported for want of a rule in the catalogue.
  pub run_master_data-IsFullReport :
      (policy : Option AuditPolicy)
      → IsFullReport host file
          (λ sheet r. fields_flag host file options sheet r md_required_columns)
          (λ sheet r. fields_findings host file options sheet r md_required_columns)
          (run_master_data host file policy options)
        × ((sheet : SheetInfo) (r : EvaluatedRow)
            → map (λ i. i.rule_code) (fields_findings host file options sheet r md_required_columns)
              ≡ row_codes host r)
  unfolding run_master_data audit_row
  run_master_data-IsFullReport policy = (
    run_engine-IsFullReport host file _ _ _
        (λ sheet r. audit_fields_lem host file options sheet r md_required_columns),
    codes-fields_findings host file options,
  )
