-- ===== src/Engine/Opportunities/Report.antt =====
-- What a run of the opportunities engine reports.
use ses.Base.{◌≡◌, ◌∙◌, refl, ap, true, Option, none, some, List, [], ◌∷◌, is_some}
use ses.Js.{Host}
use ses.Workbook.{SheetInfo, WorkbookFile, EvaluatedRow}
use ses.Audit.Issue.{AuditIssue, AuditOptions, RuleCatalogEntry}
use ses.Audit.Policy.{AuditPolicy}
use ses.Engine.Build.{find_rule}
use ses.Engine.Loop.Runs.{IsReport, pushes, run_engine-IsReport}
use ses.Engine.OppRules.{opportunities_rule_catalog}
use ses.Engine.Opportunities.{
  RuleHit, limits_of, facts_of, hits_of, code_of, push_found, push_issue, audit_hits, audit_row,
  run_opportunities,
}
use ses.Engine.Opportunities.Findings.{opp_finding}
use ses.Engine.Opportunities.Agreement.{engine_issue, engine_finding, engine_finding-hits_of}
use ses.Engine.Opportunities.Hits.{code_of-hits_of}

module _ (host : Host) (file : WorkbookFile) (options : AuditOptions) where
  push_found_lem :
      (sheet : SheetInfo) (r : EvaluatedRow) (issues : List AuditIssue) (hits : List RuleHit)
      (found : Option RuleCatalogEntry)
      → is_some found ≡ true
      → (true, push_found host file options issues sheet.name r hits found)
        ≡ pushes (engine_issue host file options sheet r hits found) issues
  unfolding push_found
  push_found_lem sheet r issues hits none h = absurd (cc)
  push_found_lem sheet r issues hits (some rule) h = refl

  audit_hits_lem :
      (sheet : SheetInfo) (r : EvaluatedRow) (issues : List AuditIssue) (hits : List RuleHit)
      → is_some (find_rule opportunities_rule_catalog (code_of hits)) ≡ true
      → audit_hits host file options sheet r issues hits
        ≡ pushes (engine_finding host file options sheet r hits) issues
  unfolding audit_hits push_issue
  audit_hits_lem sheet r issues [] h = refl
  audit_hits_lem sheet r issues (hit ∷ hits) h = push_found_lem sheet r issues (hit ∷ hits) _ h

  -- A run of the opportunities engine under a policy reports, over the rows of the valid and selected
  -- sheets in order, one finding for each row that has any of the six faults and none for any other
  -- row: a close date in the past, one with a low probability, a project start in the past with a low
  -- probability, a missing BCS code at the given probability, a BCS code at a low one, and a wrong
  -- business unit in Brazil, with the limits of the policy or 75, 90, 90, 90 and Brazil. The finding has
  -- the code of the fault if it is the only one and the composite code otherwise, the texts of all the
  -- faults as its reason, and in its notes also their codes if there are several; each sheet's result
  -- and the totals count the rows and the findings, and no more rows are flagged than scanned.
  pub run_opportunities-IsReport :
      (policy : Option AuditPolicy)
      → IsReport host file
          (opp_finding host file options policy)
          (run_opportunities host file policy options)
  unfolding run_opportunities audit_row
  run_opportunities-IsReport policy =
      run_engine-IsReport host file _ (opp_finding host file options policy) (λ sheet r issues.
        let hits = hits_of (limits_of host policy) (facts_of host r.row) in
        audit_hits_lem sheet r issues hits
          (code_of-hits_of (limits_of host policy) (facts_of host r.row))
        ∙ ap (λ finding. pushes finding issues)
            (engine_finding-hits_of host file options policy sheet r))
