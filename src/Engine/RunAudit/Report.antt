-- ===== src/Engine/RunAudit/Report.antt =====
-- What a run of the audit reports.
use ses.Base.{String, Option, none, some, List, [], ◌∷◌, filter, ltb, if◌then◌else◌}
use ses.Js.{Host, Number}
use ses.Workbook.{SheetInfo, WorkbookFile, EvaluatedRow}
use ses.Audit.Issue.{AuditIssue, AuditOptions}
use ses.Audit.Defaults.{PartialPolicy, normalize_audit_policy}
use ses.Engine.PolicyRules.{AuditRule, build_audit_rules}
use ses.Engine.RunAudit.{rank, insert_rule, sort_rules, policy_issue}

-- The first of the rules of the highest severity.
abbrev pub most_severe : AuditRule → List AuditRule → AuditRule
most_severe rule [] = rule
most_severe rule (other ∷ rules) =
    let later = most_severe other rules in if ltb (rank rule) (rank later) then later else rule

sorted_from : AuditRule → List AuditRule → List AuditRule
sorted_from rule [] = []
sorted_from rule (other ∷ rules) =
    let later = most_severe other rules in
    let rest = sorted_from other rules in
    if ltb (rank rule) (rank later) then insert_rule rule rest else later ∷ rest

module _ (host : Host) (other_number : String → Number) (file : WorkbookFile)
    (options : AuditOptions) where
  -- The finding of a row from the rules that match, in the order of the policy: none without such a
  -- rule, and else that of the first of the highest severity.
  abbrev pub matched_finding : SheetInfo → EvaluatedRow → List AuditRule → Option AuditIssue
  matched_finding sheet r [] = none
  matched_finding sheet r (rule ∷ rules) = some (
      policy_issue host other_number file options sheet.name r (most_severe rule rules)
        (sort_rules (rule ∷ rules)))

  abbrev pub policy_finding : Option PartialPolicy → SheetInfo → EvaluatedRow → Option AuditIssue
  policy_finding audit_policy sheet r = matched_finding sheet r (
      filter (λ rule. rule.check r.row)
        (build_audit_rules host other_number (normalize_audit_policy audit_policy)))
