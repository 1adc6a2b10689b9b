-- ===== src/Engine/MasterData/Codes.antt =====
-- The rule codes that a row of master data is to be reported with, read off its cells and not off the
-- catalogue of the rules.
use mathlib.Core.Path.{ap₂}
use mathlib.Core.List.{map-append, append_assoc}
use ses.Base.{
  ◌≡◌, ◌∙◌, refl, String, Bool, true, false, not, ◌&&◌, ◌||◌, Option, none, some, List, [], ◌∷◌,
  ◌++◌, map, filter, any, concat_map, All, arith, contains, is_some, is_empty, if◌then◌else◌,
}
use ses.Js.{Host, Value}
use ses.Js.Words.{join}
use ses.Workbook.{SheetInfo, WorkbookFile, EvaluatedRow}
use ses.Workbook.Rows.{read_cell, cell_text}
use ses.Audit.Issue.{AuditIssue, AuditOptions, RuleCatalogEntry}
use ses.Engine.Build.{build_issue}
use ses.Engine.BadValues.{is_bad_value, is_others_token, is_not_assigned_token}
use ses.Engine.MdText.{product_parts}
use ses.Engine.MdColumns.{ColumnSpec, project_product, md_required_columns}
use ses.Engine.MasterData.{
  missing_field_rule_code, is_bad_column, md_issue, not_assigned_message, others_message,
  review_rules, master_data_rule_catalog,
}
use ses.Engine.MasterData.Fields.{column_findings, findings_of, rule_findings}
use ses.Engine.MasterData.Product.{has_not_assigned, has_others, reviews, product_findings}
use ses.Engine.MasterData.Rules.{rules_by_code-has, codes_of, codes_of-has}

abbrev is_listed : Host → String → Bool
is_listed host code = contains (map (λ rule. rule.rule_code) (master_data_rule_catalog host)) code

codes_of-more :
    (host : Host) (columns : List ColumnSpec) (more : List RuleCatalogEntry) (code : String)
    → contains (map (λ rule. rule.rule_code) more) code ≡ true
    → contains (codes_of host columns more) code ≡ true
codes_of-more host [] more code h = h
codes_of-more host (c ∷ columns) more code h =
    ground (arith, codes_of-more host columns more code h)

-- The catalogue has the codes of the two reviews of a product.
not_assigned-is_listed : (host : Host) → is_listed host "RUL-MD-PROJECT_PRODUCT-NOT-ASSIGNED" ≡ true
unfolding master_data_rule_catalog
not_assigned-is_listed host = codes_of-more host md_required_columns review_rules _ refl

others-is_listed : (host : Host) → is_listed host "RUL-MD-PROJECT_PRODUCT-REVIEW-OTHERS" ≡ true
unfolding master_data_rule_catalog
others-is_listed host = codes_of-more host md_required_columns review_rules _ refl

-- The codes that a product is to be reported with: one for a blank product; for any other one for parts
-- that are not assigned, one for parts that are other products, and that of a missing product for a
-- placeholder without such a part.
abbrev pub product_codes : Host → String → List String
product_codes host t =
    let parts = product_parts t in
    let not_assigned = any (λ part. is_not_assigned_token host (Value.text part)) parts in
    let others = any (λ part. is_others_token host (Value.text part)) parts in
    let missing = missing_field_rule_code host project_product.id ∷ [] in
    if is_empty t
    then missing
    else (if not_assigned then "RUL-MD-PROJECT_PRODUCT-NOT-ASSIGNED" ∷ [] else [])
      ++ ((if others then "RUL-MD-PROJECT_PRODUCT-REVIEW-OTHERS" ∷ [] else [])
          ++ (if not (not_assigned || others) && is_bad_value host (Value.text t)
              then missing
              else []))

-- The codes of a row: those of the required columns that are blank or hold a placeholder, in their
-- order, and those of the product.
abbrev pub row_codes : Host → EvaluatedRow → List String
row_codes host r =
    map (λ c. missing_field_rule_code host c.id) (filter (is_bad_column host r) md_required_columns)
    ++ product_codes host (cell_text host (read_cell r.row project_product.aliases))

module _ (host : Host) (file : WorkbookFile) (options : AuditOptions) (sheet : SheetInfo)
    (r : EvaluatedRow) where
  abbrev codes : List AuditIssue → List String
  codes issues = map (λ i. i.rule_code) issues

  codes-findings_of :
      (code : String) (observed : Value) (message : String) (o : Option RuleCatalogEntry)
      → is_some o ≡ true
      → codes (findings_of host file options sheet r code observed message o) ≡ code ∷ []
  unfolding md_issue build_issue
  codes-findings_of code observed message none h = absurd (cc)
  codes-findings_of code observed message (some rule) h = refl

  codes-rule_findings :
      (code : String) (observed : Value) (message : String)
      → is_listed host code ≡ true
      → codes (rule_findings host file options sheet r code observed message) ≡ code ∷ []
  codes-rule_findings code observed message h =
      codes-findings_of code observed message _
        (rules_by_code-has (master_data_rule_catalog host) [] code h)

  codes-columns :
      (columns : List ColumnSpec)
      → All (λ c. is_listed host (missing_field_rule_code host c.id) ≡ true) columns
      → codes (concat_map (column_findings host file options sheet r) columns)
        ≡ map (λ c. missing_field_rule_code host c.id) (filter (is_bad_column host r) columns)
  codes-columns [] h = refl
  codes-columns (c ∷ columns) h =
      map-append (λ i. i.rule_code) (column_findings host file options sheet r c) _
      ∙ by_test (is_bad_column host r c) (codes-columns columns h.1)
    where
      code : String
      code = missing_field_rule_code host c.id

      by_test :
          (b : Bool)
          → codes (concat_map (column_findings host file options sheet r) columns)
            ≡ map (λ c. missing_field_rule_code host c.id) (filter (is_bad_column host r) columns)
          → codes (
                if b
                then rule_findings host file options sheet r
                    (missing_field_rule_code host c.id)
                    (read_cell r.row c.aliases)
                    (join "" (c.label ∷ " is missing or uses a placeholder value." ∷ []))
                else [])
              ++ codes (concat_map (column_findings host file options sheet r) columns)
            ≡ map
                (λ c. missing_field_rule_code host c.id)
                (if b
                  then c ∷ filter (is_bad_column host r) columns
                  else filter (is_bad_column host r) columns)
      by_test true e = ap₂ (λ xs ys. xs ++ ys) (codes-rule_findings _ _ _ h.0) e
      by_test false e = e

  codes-if :
      (b : Bool) (code : String) (observed : Value) (message : String)
      → is_listed host code ≡ true
      → codes (if b then rule_findings host file options sheet r code observed message else [])
        ≡ (if b then code ∷ [] else [])
  codes-if true code observed message h = codes-rule_findings code observed message h
  codes-if false code observed message h = refl

  missing-is_listed : is_listed host (missing_field_rule_code host project_product.id) ≡ true
  unfolding master_data_rule_catalog
  missing-is_listed = (codes_of-has host md_required_columns review_rules).1.1.1.1.1.1.1.1.1.0

  codes-cond :
      (b : Bool) (xs ys : List AuditIssue)
      → codes (if b then xs else ys) ≡ (if b then codes xs else codes ys)
  codes-cond true xs ys = refl
  codes-cond false xs ys = refl

  codes-product :
      (raw : Value) (t : String)
      → codes (product_findings host file options sheet r raw t) ≡ product_codes host t
  codes-product raw t =
      let na = has_not_assigned host file options sheet r t in
      let os = has_others host file options sheet r t in
      let na_code = if na then "RUL-MD-PROJECT_PRODUCT-NOT-ASSIGNED" ∷ [] else [] in
      let os_code = if os then "RUL-MD-PROJECT_PRODUCT-REVIEW-OTHERS" ∷ [] else [] in
      let reviewed =
        map-append (λ i. i.rule_code) _ _
        ∙ ap₂ (λ xs ys. xs ++ ys)
            (codes-if na _ raw not_assigned_message (not_assigned-is_listed host))
            (codes-if os _ raw others_message (others-is_listed host)) in
      codes-cond (is_empty t) _ _
      ∙ ap₂ (λ xs ys. if is_empty t then xs else ys)
          (codes-rule_findings _ raw "Project Product is missing." missing-is_listed)
          (map-append (λ i. i.rule_code) (reviews host file options sheet r raw na os) _
            ∙ ap₂ (λ xs ys. xs ++ ys) reviewed
                (codes-if (not (na || os) && is_bad_value host (Value.text t)) _ raw
                  "Project Product is missing or uses a placeholder value." missing-is_listed)
            ∙ append_assoc na_code os_code _)

  -- The findings of a row have the codes that its cells call for.
  pub codes-fields_findings :
      map
        (λ i. i.rule_code)
        (concat_map (column_findings host file options sheet r) md_required_columns
          ++ product_findings host file options sheet r
              (read_cell r.row project_product.aliases)
              (cell_text host (read_cell r.row project_product.aliases)))
      ≡ row_codes host r
  unfolding master_data_rule_catalog
  codes-fields_findings =
      map-append (λ i. i.rule_code)
        (concat_map (column_findings host file options sheet r) md_required_columns) _
      ∙ ap₂ (λ xs ys. xs ++ ys)
          (codes-columns md_required_columns (codes_of-has host md_required_columns review_rules))
          (codes-product _ _)
