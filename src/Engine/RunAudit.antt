-- ===== src/Engine/RunAudit.antt =====
-- packages/domain/src/audit/auditEngine.ts: `runAudit`, the audit that is driven by the policy.
pub mod Report
mod Tests
use Prim.Native.String
use ses.Base.{
  ℕ, ◌+◌, String, Bool, true, false, Option, none, some, List, [], ◌∷◌, ◌++◌, map, filter, get_or,
  or_else, length, ltb, if◌then◌else◌,
}
use ses.Js.{Host, Number, show_nat}
use ses.Js.Words.{join}
use ses.Workbook.{SheetInfo, WorkbookFile, EvaluatedRow}
use ses.Workbook.SuffixRows.{suffixed_rows}
use ses.Audit.Issue.{AuditIssue, AuditResult, AuditOptions, Severity}
use ses.Audit.Policy.{AuditPolicy}
use ses.Audit.Defaults.{PartialPolicy, normalize_audit_policy}
use ses.Engine.Build.{build_issue}
use ses.Engine.Loop.{AuditRow, raw_rows, run_engine_on}
use ses.Engine.PolicyRules.{
  AuditRule, project_no_fields, project_name_fields, manager_fields, state_fields, effort_fields,
  email_fields, text_at, num_at, build_audit_rules,
}

-- `severityRank`.
abbrev pub severity_rank : Severity → ℕ
severity_rank Severity.high = 3
severity_rank Severity.medium = 2
severity_rank Severity.low = 1

abbrev pub rank : AuditRule → ℕ
rank rule = severity_rank rule.entry.default_severity

-- `matches.sort((a, b) => severityRank[b] - severityRank[a])`; the sort is stable.
unfoldable pub insert_rule : AuditRule → List AuditRule → List AuditRule
insert_rule rule [] = rule ∷ []
insert_rule rule (other ∷ rules) =
    let later = insert_rule rule rules in
    if ltb (rank rule) (rank other) then other ∷ later else rule ∷ other ∷ rules

unfoldable pub sort_rules : List AuditRule → List AuditRule
unfolding insert_rule
sort_rules [] = []
sort_rules (rule ∷ rules) = insert_rule rule (sort_rules rules)

module _ (host : Host) (other_number : String → Number) (file : WorkbookFile)
    (options : AuditOptions) where
  abbrev text_or : EvaluatedRow → List String → String → String
  text_or r names fallback = or_else (text_at host other_number r.row names) fallback

  -- The finding of a row, from its most severe rule and all rules that match.
  unfoldable pub policy_issue : String → EvaluatedRow → AuditRule → List AuditRule → AuditIssue
  unfolding text_at num_at join
  policy_issue sheet_name r primary matches =
      let built = build_issue host file options primary.entry primary.entry.rule_code (record {
        sheet_name = sheet_name;
        row_index = r.row_index;
        project_no =
            text_or r project_no_fields (join "" ("Row " ∷ show_nat host (r.row_index + 1) ∷ []));
        project_name = text_or r project_name_fields "Unnamed project";
        project_manager = text_or r manager_fields "Unassigned";
        project_state = text_or r state_fields "Unknown";
        email = text_at host other_number r.row email_fields;
        effort = num_at host other_number r.row effort_fields;
        reason = primary.reason r.row;
        threshold_label = primary.threshold_label;
        recommended_action = primary.recommended_action;
        missing_months = none;
        zero_month_count = none;
      }) in
      record built {
        audit_status =
            if ltb 1 (length matches) then "Multiple issues" else primary.entry.rule_code;
        notes = join "; " (map (λ rule. rule.reason r.row) matches);
      }

  -- The body of `rows.forEach` after the rules are matched.
  unfoldable pub push_matches :
      SheetInfo → EvaluatedRow → List AuditIssue → List AuditRule → Bool × List AuditIssue
  unfolding policy_issue
  push_matches sheet r issues [] = (false, issues)
  push_matches sheet r issues (primary ∷ matches) =
      (true, issues ++ policy_issue sheet.name r primary (primary ∷ matches) ∷ [])

  unfoldable pub audit_by_rules : List AuditRule → SheetInfo → AuditRow
  unfolding push_matches sort_rules
  audit_by_rules rules sheet r issues =
      push_matches sheet r issues (sort_rules (filter (λ rule. rule.check r.row) rules))

-- `AuditResult` with its `policySnapshot`.
pub record PolicyAudit : Type 0 where
  pub result : AuditResult
  pub policy_snapshot : AuditPolicy

abbrev pub policy_rows : Host → WorkbookFile → SheetInfo → List EvaluatedRow
policy_rows host file sheet =
    suffixed_rows host (raw_rows file sheet) (get_or sheet.header_row_index 0)
      sheet.normalized_headers

unfoldable pub run_audit :
    Host → (String → Number) → WorkbookFile → Option PartialPolicy → AuditOptions → PolicyAudit
unfolding suffixed_rows run_engine_on audit_by_rules build_audit_rules normalize_audit_policy
run_audit host other_number file audit_policy options =
    let policy = normalize_audit_policy audit_policy in
    let rules = build_audit_rules host other_number policy in
    record {
      result =
          run_engine_on (policy_rows host file) host file
            (λ sheet. audit_by_rules host other_number file options rules sheet);
      policy_snapshot = policy;
    }
