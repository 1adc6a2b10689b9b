-- ===== src/Audit/Compare/Differences.antt =====
-- The fields by which the comparison tells two issues apart.
use ses.Base.{
  ◌≡◌, refl, String, Bool, true, false, not, Option, none, some, List, [], ◌∷◌, filter, map, get_or,
  str_eq, if◌then◌else◌, ap,
}
use ses.Js.{Host}
use ses.Js.Trim.{trim}
use ses.Audit.Issue.{AuditIssue, IssueCategory}
use ses.Audit.Compare.{
  FieldDiff, DiffField, severity_text, category_text, field_value, text_or_missing,
  category_or_missing, diff_fields, diff_issue, diffs_to, normalize_for_diff,
}

module _ (host : Host) where
  -- The nine texts by which issues are compared: trimmed texts, a missing field as the empty text.
  abbrev pub compared_text : AuditIssue → DiffField → String
  compared_text issue DiffField.severity = trim (severity_text issue.severity)
  compared_text issue DiffField.project_manager = trim issue.project_manager
  compared_text issue DiffField.project_state = trim issue.project_state
  compared_text issue DiffField.effort = host.show_number issue.effort
  compared_text issue DiffField.audit_status = trim issue.audit_status
  compared_text issue DiffField.email = trim (get_or issue.email "")
  compared_text issue DiffField.reason = trim (get_or issue.reason "")
  compared_text issue DiffField.recommended_action = trim (get_or issue.recommended_action "")
  compared_text issue DiffField.category =
      trim (elim issue.category [ none ↦ "" | some c ↦ category_text c ])

  abbrev pub compared_fields : List DiffField
  compared_fields =
      DiffField.severity ∷ DiffField.project_manager ∷ DiffField.project_state ∷ DiffField.effort
      ∷ DiffField.audit_status ∷ DiffField.email ∷ DiffField.reason ∷ DiffField.recommended_action
      ∷ DiffField.category ∷ []

  -- The fields whose compared texts differ, each with the two values it has.
  abbrev pub differing : AuditIssue → AuditIssue → List DiffField → List FieldDiff
  differing prev next fields =
      map
        (λ field. record {
          field = field;
          before = field_value prev field;
          after = field_value next field;
        })
        (filter (λ field. not (str_eq (compared_text prev field) (compared_text next field)))
          fields)

  normalize_missing :
      (o : Option String) → normalize_for_diff host (text_or_missing o) ≡ trim (get_or o "")
  unfolding normalize_for_diff trim
  normalize_missing none = refl
  normalize_missing (some s) = refl

  normalize_category :
      (o : Option IssueCategory)
      → normalize_for_diff host (category_or_missing o)
        ≡ trim (elim o [ none ↦ "" | some c ↦ category_text c ])
  unfolding normalize_for_diff trim
  normalize_category none = refl
  normalize_category (some c) = refl

  compared_text_lem :
      (issue : AuditIssue) (field : DiffField)
      → normalize_for_diff host (field_value issue field) ≡ compared_text issue field
  unfolding normalize_for_diff
  compared_text_lem issue DiffField.severity = refl
  compared_text_lem issue DiffField.project_manager = refl
  compared_text_lem issue DiffField.project_state = refl
  compared_text_lem issue DiffField.effort = refl
  compared_text_lem issue DiffField.audit_status = refl
  compared_text_lem issue DiffField.email = normalize_missing issue.email
  compared_text_lem issue DiffField.reason = normalize_missing issue.reason
  compared_text_lem issue DiffField.recommended_action = normalize_missing issue.recommended_action
  compared_text_lem issue DiffField.category = normalize_category issue.category

  diff_fields_lem :
      (prev next : AuditIssue) (fields : List DiffField)
      → diff_fields host prev next fields ≡ differing prev next fields
  unfolding diff_fields
  diff_fields_lem prev next [] = refl
  diff_fields_lem prev next (field ∷ fields) =
      rw (compared_text_lem prev field, compared_text_lem next field)
        (by_test (str_eq (compared_text prev field) (compared_text next field))
          (diff_fields_lem prev next fields))
    where
      here : FieldDiff
      here = record {
        field = field;
        before = field_value prev field;
        after = field_value next field;
      }

      by_test :
          (b : Bool)
          → diff_fields host prev next fields ≡ differing prev next fields
          → (if b
              then diff_fields host prev next fields
              else here ∷ diff_fields host prev next fields)
            ≡ map
                (λ field. record {
                  field = field;
                  before = field_value prev field;
                  after = field_value next field;
                })
                (if not b
                  then field
                    ∷ filter
                        (λ field.
                          not (str_eq (compared_text prev field) (compared_text next field)))
                        fields
                  else filter
                      (λ field. not (str_eq (compared_text prev field) (compared_text next field)))
                      fields)
      by_test true e = e
      by_test false e = ap (λ ds. here ∷ ds) e

  -- The differing fields of an issue and the one that it is compared with, if there is one.
  abbrev pub differences : Option AuditIssue → AuditIssue → Option (List FieldDiff)
  differences none issue = none
  differences (some prev) issue = some (differing prev issue compared_fields)

  pub diffs_to_lem :
      (o : Option AuditIssue) (issue : AuditIssue) → diffs_to host o issue ≡ differences o issue
  unfolding diffs_to diff_issue
  diffs_to_lem none issue = refl
  diffs_to_lem (some prev) issue = ap some (diff_fields_lem prev issue compared_fields)
