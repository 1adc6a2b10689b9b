-- ===== src/Engine/MasterData/Product.antt =====
-- The findings of a row's product.
use mathlib.Core.List.{append-nil, append_assoc}
use ses.Base.{
  ◌≡◌, ◌∙◌, sym, ap, String, Bool, true, false, ◌||◌, ◌&&◌, not, List, [], ◌++◌, any, if◌then◌else◌,
  Bool-cases, inl, inr, is_empty,
}
use ses.Js.{Host, Value}
use ses.Workbook.{SheetInfo, WorkbookFile, EvaluatedRow}
use ses.Workbook.Rows.{read_cell, cell_text}
use ses.Audit.Issue.{AuditIssue, AuditOptions}
use ses.Engine.BadValues.{is_bad_value, is_others_token, is_not_assigned_token}
use ses.Engine.MdColumns.{project_product}
use ses.Engine.MasterData.{
  missing_field_rule_code, not_assigned_message, others_message, md_review_others_rule_code,
  md_project_product_not_assigned_rule_code, product_parts, push_issue, audit_product_text,
  audit_project_product,
}
use ses.Engine.MasterData.Fields.{rule_findings, push_issue_lem}

module _ (host : Host) (file : WorkbookFile) (options : AuditOptions) (sheet : SheetInfo)
    (r : EvaluatedRow) where
  abbrev pub has_not_assigned : String → Bool
  has_not_assigned t = any (λ part. is_not_assigned_token host (Value.text part)) (product_parts t)

  abbrev pub has_others : String → Bool
  has_others t = any (λ part. is_others_token host (Value.text part)) (product_parts t)

  -- The product is flagged: it is blank, has a part that needs a review, or is a placeholder.
  abbrev pub product_flag : String → Bool
  product_flag t =
      is_empty t || ((has_not_assigned t || has_others t) || is_bad_value host (Value.text t))

  -- The findings of a product with a part that is not assigned, and of one with another product.
  abbrev pub reviews : Value → Bool → Bool → List AuditIssue
  reviews raw not_assigned others =
      (if not_assigned
        then rule_findings host file options sheet r md_project_product_not_assigned_rule_code raw
            not_assigned_message
        else [])
      ++ (if others
          then rule_findings host file options sheet r md_review_others_rule_code raw others_message
          else [])

  -- A blank product is missing; any other has the reviews that its parts ask for, and is missing if it
  -- needs none and is a placeholder.
  abbrev pub product_findings : Value → String → List AuditIssue
  product_findings raw t =
      let code = missing_field_rule_code host project_product.id in
      if is_empty t
      then rule_findings host file options sheet r code raw "Project Product is missing."
      else reviews raw (has_not_assigned t) (has_others t)
        ++ (if not (has_not_assigned t || has_others t) && is_bad_value host (Value.text t)
            then rule_findings host file options sheet r code raw
                "Project Product is missing or uses a placeholder value."
            else [])

  if-push_issue :
      (b : Bool) (issues : List AuditIssue) (rule_code : String) (observed : Value)
      (message : String)
      → (if b
          then push_issue host file options issues sheet.name r rule_code observed message
          else issues)
        ≡ issues
          ++ (if b then rule_findings host file options sheet r rule_code observed message else [])
  if-push_issue true issues rule_code observed message =
      push_issue_lem host file options sheet r issues rule_code observed message
  if-push_issue false issues rule_code observed message = sym (append-nil issues)

  reviews_lem :
      (raw : Value) (n o : Bool) (issues : List AuditIssue)
      → (if o
          then push_issue host file options
              (if n
                then push_issue host file options issues sheet.name r
                    md_project_product_not_assigned_rule_code raw not_assigned_message
                else issues)
              sheet.name
              r
              md_review_others_rule_code
              raw
              others_message
          else (if n
              then push_issue host file options issues sheet.name r
                  md_project_product_not_assigned_rule_code raw not_assigned_message
              else issues))
        ≡ issues ++ reviews raw n o
  reviews_lem raw n o issues =
      if-push_issue o
        (if n
          then push_issue host file options issues sheet.name r
              md_project_product_not_assigned_rule_code raw not_assigned_message
          else issues)
        md_review_others_rule_code raw others_message
      ∙ (ap
            (λ l.
              l
              ++ (if o
                  then rule_findings host file options sheet r md_review_others_rule_code raw
                      others_message
                  else []))
            (if-push_issue n issues md_project_product_not_assigned_rule_code raw
              not_assigned_message)
          ∙ append_assoc issues _ _)

  abbrev pair : Bool → List AuditIssue → Bool × List AuditIssue
  pair flagged issues = (flagged, issues)

  last_lem :
      (reviewed bad : Bool) (raw : Value) (issues : List AuditIssue) (message : String)
      → (let code = missing_field_rule_code host project_product.id in
          if not reviewed && bad
          then pair true (push_issue host file options issues sheet.name r code raw message)
          else pair reviewed issues)
        ≡ pair (reviewed || bad) (
            issues
            ++ (if not reviewed && bad
                then rule_findings host file options sheet r
                    (missing_field_rule_code host project_product.id)
                    raw
                    message
                else []))
  last_lem true bad raw issues message = ap (λ l. (true, l)) (sym (append-nil issues))
  last_lem false true raw issues message =
      ap (λ l. (true, l))
        (push_issue_lem host file options sheet r issues
          (missing_field_rule_code host project_product.id) raw message)
  last_lem false false raw issues message = ap (λ l. (false, l)) (sym (append-nil issues))

  audit_product_text_lem :
      (raw : Value) (t : String) (issues : List AuditIssue)
      → audit_product_text host file options sheet r raw t issues
        ≡ (product_flag t, issues ++ product_findings raw t)
  unfolding audit_product_text push_issue
  audit_product_text_lem raw t issues =
      let code = missing_field_rule_code host project_product.id in
      let reviewed = reviews raw (has_not_assigned t) (has_others t) in
      elim (Bool-cases (is_empty t)) [
        | inl e ↦ rw e (
            ap (λ l. (true, l))
              (push_issue_lem host file options sheet r issues code raw
                "Project Product is missing."))
        | inr e ↦
            rw (e, reviews_lem raw (has_not_assigned t) (has_others t) issues)
              (last_lem (has_not_assigned t || has_others t) (is_bad_value host (Value.text t)) raw
                  (issues ++ reviewed) "Project Product is missing or uses a placeholder value."
                ∙ ap
                    (pair
                      ((has_not_assigned t || has_others t) || is_bad_value host (Value.text t)))
                    (append_assoc issues reviewed _))
      ]

  pub audit_project_product_lem :
      (issues : List AuditIssue)
      → audit_project_product host file options sheet r issues ≡ (
        product_flag (cell_text host (read_cell r.row project_product.aliases)),
        issues
            ++ product_findings
                (read_cell r.row project_product.aliases)
                (cell_text host (read_cell r.row project_product.aliases)),
      )
  unfolding audit_project_product
  audit_project_product_lem issues =
      audit_product_text_lem (read_cell r.row project_product.aliases)
        (cell_text host (read_cell r.row project_product.aliases)) issues
