-- ===== src/Engine/Opportunities/Agreement.antt =====
-- The opportunities engine gives a row the finding that its faults call for.
use ses.Base.{
  ◌≡◌, ◌∙◌, refl, ap, Bool, true, false, Option, none, some, List, [], ◌∷◌, map, filter, get_or,
  if◌then◌else◌, length, ltb, arith,
}
use ses.Js.{Host, Number, of_nat, gt, num_eq}
use ses.Workbook.{SheetInfo, WorkbookFile, RowObject, EvaluatedRow}
use ses.Audit.Issue.{AuditIssue, AuditOptions, RuleCatalogEntry}
use ses.Audit.Policy.{AuditPolicy, OpportunitiesPolicy}
use ses.Engine.Build.{find_rule}
use ses.Engine.OppColumns.{opp_probability_aliases, read_opp_cell, read_number}
use ses.Engine.OppRules.{opportunities_rule_catalog}
use ses.Engine.Opportunities.{
  RuleHit, Check, no_settings, settings_of, is_below, is_exactly, limits_of, facts_of, checks_of,
  fired, hits_of, code_of, notes_of, opp_issue,
}
use ses.Engine.Opportunities.Findings.{
  Fault, setting, known_and, rule_of, remarks_of, faults_of, found, issue_by, issue_for,
  opp_finding,
}

-- The hits of the engine are the faults that hold.
abbrev as_hit : Fault → RuleHit
as_hit f = record { code = f.code; message = f.message }

abbrev as_check : Fault → Check
as_check f = record { fires = f.holds; hit = as_hit f }

fired_lem :
    (faults : List Fault) → fired (map as_check faults) ≡ map as_hit (filter (λ f. f.holds) faults)
unfolding fired
fired_lem [] = refl
fired_lem (f ∷ faults) = by_test f.holds (fired_lem faults)
  where
    by_test :
        (b : Bool)
        → fired (map as_check faults) ≡ map as_hit (filter (λ f. f.holds) faults)
        → (if b then as_hit f ∷ fired (map as_check faults) else fired (map as_check faults))
          ≡ map as_hit
              (if b then f ∷ filter (λ f. f.holds) faults else filter (λ f. f.holds) faults)
    by_test true e = ap (λ hits. as_hit f ∷ hits) e
    by_test false e = e

is_below_lem :
    (p : Option Number) (limit : Number) → is_below p limit ≡ known_and (λ x. gt limit x) p
is_below_lem none limit = refl
is_below_lem (some x) limit = refl

is_exactly_lem :
    (p : Option Number) (limit : Number) → is_exactly p limit ≡ known_and (λ x. num_eq x limit) p
is_exactly_lem none limit = refl
is_exactly_lem (some x) limit = refl

setting_lem :
    {A : Type 0} (field : OpportunitiesPolicy → Option A) (default : A)
    (policy : Option AuditPolicy)
    → field no_settings ≡ none
    → get_or (field (settings_of policy)) default ≡ setting field default policy
unfolding settings_of
setting_lem field default none e = rw e refl
setting_lem field default (some policy) e = by_settings policy.opportunities
  where
    by_settings :
        (o : Option OpportunitiesPolicy)
        → get_or (field (get_or o no_settings)) default
          ≡ elim o [ none ↦ default | some settings ↦ get_or (field settings) default ]
    by_settings none = rw e refl
    by_settings (some o) = refl

checks_of_lem :
    (host : Host) (policy : Option AuditPolicy) (row : RowObject)
    → checks_of (limits_of host policy) (facts_of host row)
      ≡ map as_check (faults_of host policy row)
unfolding limits_of facts_of
checks_of_lem host policy row =
    let p = read_number host (read_opp_cell row opp_probability_aliases) in
    rw
      (
        is_below_lem p _,
        is_below_lem p _,
        is_below_lem p _,
        is_exactly_lem p _,
        setting_lem (λ o. o.close_date_low_probability_max) (of_nat 75) policy refl,
        setting_lem (λ o. o.project_start_low_probability_max) (of_nat 90) policy refl,
        setting_lem (λ o. o.missing_bcs_probability_exact) (of_nat 90) policy refl,
        setting_lem (λ o. o.bcs_available_low_probability_max) (of_nat 90) policy refl,
        setting_lem (λ o. o.brazil_expected_bu) "Brazil" policy refl,
      )
      refl

hits_of_lem :
    (host : Host) (policy : Option AuditPolicy) (row : RowObject)
    → hits_of (limits_of host policy) (facts_of host row) ≡ map as_hit (found host policy row)
unfolding hits_of
hits_of_lem host policy row =
    ap fired (checks_of_lem host policy row) ∙ fired_lem (faults_of host policy row)

code_of_lem : (faults : List Fault) → code_of (map as_hit faults) ≡ rule_of faults
unfolding code_of
code_of_lem [] = refl
code_of_lem (f ∷ []) = refl
code_of_lem (f ∷ g ∷ faults) = refl

messages_lem :
    (faults : List Fault) → map (λ h. h.message) (map as_hit faults) ≡ map (λ f. f.message) faults
messages_lem [] = refl
messages_lem (f ∷ faults) = ap (λ ms. f.message ∷ ms) (messages_lem faults)

codes_lem : (faults : List Fault) → map (λ h. h.code) (map as_hit faults) ≡ map (λ f. f.code) faults
codes_lem [] = refl
codes_lem (f ∷ faults) = ap (λ ms. f.code ∷ ms) (codes_lem faults)

notes_of_lem :
    (f : Fault) (faults : List Fault) → notes_of (map as_hit (f ∷ faults)) ≡ remarks_of (f ∷ faults)
unfolding notes_of
notes_of_lem f [] = refl
notes_of_lem f (g ∷ faults) = rw (several, messages_lem faults, codes_lem faults) refl
  where
    several : ltb 1 (length (map as_hit (f ∷ g ∷ faults))) ≡ true
    several = ground arith

-- The issue of the engine for the faults of a row.
abbrev pub engine_issue :
    Host
    → WorkbookFile
    → AuditOptions
    → SheetInfo
    → EvaluatedRow
    → List RuleHit
    → Option RuleCatalogEntry
    → Option AuditIssue
engine_issue host file options sheet r hits none = none
engine_issue host file options sheet r hits (some rule) =
    some (opp_issue host file options rule sheet.name r hits)

abbrev pub engine_finding :
    Host → WorkbookFile → AuditOptions → SheetInfo → EvaluatedRow → List RuleHit → Option AuditIssue
engine_finding host file options sheet r [] = none
engine_finding host file options sheet r (hit ∷ hits) =
    engine_issue host file options sheet r (hit ∷ hits)
      (find_rule opportunities_rule_catalog (code_of (hit ∷ hits)))

opp_issue_lem :
    (host : Host) (file : WorkbookFile) (options : AuditOptions) (sheet : SheetInfo)
    (r : EvaluatedRow) (f : Fault) (faults : List Fault) (rule : Option RuleCatalogEntry)
    → engine_issue host file options sheet r (map as_hit (f ∷ faults)) rule
      ≡ issue_by host file options sheet r (f ∷ faults) rule
unfolding opp_issue
opp_issue_lem host file options sheet r f faults none = refl
opp_issue_lem host file options sheet r f faults (some rule) =
    rw (code_of_lem (f ∷ faults), notes_of_lem f faults, messages_lem faults) refl

engine_finding_lem :
    (host : Host) (file : WorkbookFile) (options : AuditOptions) (sheet : SheetInfo)
    (r : EvaluatedRow) (faults : List Fault)
    → engine_finding host file options sheet r (map as_hit faults)
      ≡ issue_for host file options sheet r faults
engine_finding_lem host file options sheet r [] = refl
engine_finding_lem host file options sheet r (f ∷ faults) =
    opp_issue_lem host file options sheet r f faults _
    ∙ ap
        (λ code.
          issue_by host file options sheet r (f ∷ faults)
            (find_rule opportunities_rule_catalog code))
        (code_of_lem (f ∷ faults))

-- What the engine makes of the hits of a row is the finding that its faults call for.
pub engine_finding-hits_of :
    (host : Host) (file : WorkbookFile) (options : AuditOptions) (policy : Option AuditPolicy)
    (sheet : SheetInfo) (r : EvaluatedRow)
    → engine_finding host file options sheet r
        (hits_of (limits_of host policy) (facts_of host r.row))
      ≡ opp_finding host file options policy sheet r
engine_finding-hits_of host file options policy sheet r =
    ap (engine_finding host file options sheet r) (hits_of_lem host policy r.row)
    ∙ engine_finding_lem host file options sheet r (found host policy r.row)
