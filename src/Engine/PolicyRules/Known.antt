-- ===== src/Engine/PolicyRules/Known.antt =====
-- Every rule that a policy can turn on is in the catalogue.
use ses.Base.{
  ◌≡◌, refl, String, Bool, true, false, Option, none, some, List, [], ◌∷◌, ◌++◌, All, str_eq,
  if◌then◌else◌, get_or,
}
use ses.Base.Dict.{Dict, lookup, insert, lookup-insert}
use ses.Js.{Host, Number}
use ses.Audit.Issue.{RuleCatalogEntry}
use ses.Audit.Policy.{AuditPolicy}
use ses.Engine.Build.{find_rule}
use ses.Engine.MasterData.{master_data_rule_catalog, rules_by_code}
use ses.Engine.OverPlanning.{over_planning_engine_rule_catalog}
use ses.Engine.MissingPlan.{missing_plan_rule_catalog}
use ses.Engine.FunctionRate.{function_rate_rule_catalog}
use ses.Engine.InternalCostRate.{internal_cost_rate_rule_catalog}
use ses.Engine.OppRules.{opportunities_rule_catalog}
use ses.Engine.PolicyRules.{AuditRule, audit_rule_catalog, audit_rule, no_rule, build_audit_rules}

-- The last rule of a list that has the code, or else the given one.
abbrev last_rule :
    String → List RuleCatalogEntry → Option RuleCatalogEntry → Option RuleCatalogEntry
last_rule code [] found = found
last_rule code (rule ∷ rules) found =
    last_rule code rules (if str_eq rule.rule_code code then some rule else found)

lookup-rules_by_code :
    (code : String) (rules : List RuleCatalogEntry) (entries : Dict RuleCatalogEntry)
    → lookup code (rules_by_code rules entries) ≡ last_rule code rules (lookup code entries)
unfolding rules_by_code
lookup-rules_by_code code [] entries = refl
lookup-rules_by_code code (rule ∷ rules) entries =
    rw
      (
        lookup-rules_by_code code rules (insert rule.rule_code rule entries),
        lookup-insert rule.rule_code code rule entries,
      )
      refl

last_rule-append :
    (code : String) (xs ys : List RuleCatalogEntry) (found : Option RuleCatalogEntry)
    → last_rule code (xs ++ ys) found ≡ last_rule code ys (last_rule code xs found)
last_rule-append code [] ys found = refl
last_rule-append code (x ∷ xs) ys found =
    last_rule-append code xs ys (if str_eq x.rule_code code then some x else found)

-- The catalogues behind that of master data.
abbrev fixed_rules : List RuleCatalogEntry
fixed_rules =
    over_planning_engine_rule_catalog
    ++ (missing_plan_rule_catalog
        ++ (function_rate_rule_catalog
            ++ (internal_cost_rate_rule_catalog ++ opportunities_rule_catalog)))

audit_rule_lem :
    (host : Host) (code : String)
    → audit_rule host code
      ≡ last_rule code fixed_rules (last_rule code (master_data_rule_catalog host) none)
unfolding audit_rule audit_rule_catalog lookup
audit_rule_lem host code =
    rw (lookup-rules_by_code code (audit_rule_catalog host) [])
      (last_rule-append code (master_data_rule_catalog host) fixed_rules none)

abbrev pub IsCatalogued : AuditRule → Type 0
IsCatalogued rule =
    find_rule over_planning_engine_rule_catalog rule.entry.rule_code ≡ some rule.entry

-- Looking a code up gives a rule of the catalogue with that code.
IsFound : Host → String → Type 0
IsFound host code =
    (rule : RuleCatalogEntry) × ((audit_rule host code ≡ some rule)
      × (find_rule over_planning_engine_rule_catalog rule.rule_code ≡ some rule))

found-catalogued :
    (host : Host) (code : String)
    → IsFound host code
    → find_rule over_planning_engine_rule_catalog (get_or (audit_rule host code) no_rule).rule_code
      ≡ some (get_or (audit_rule host code) no_rule)
unfolding IsFound
found-catalogued host code (rule, (e, h)) = rw e h

All-append {ℓ κ} :
    {A : Type ℓ} (P : A → Type κ) (xs ys : List A) → All P xs → All P ys → All P (xs ++ ys)
All-append P [] ys h k = k
All-append P (x ∷ xs) ys h k = (h.0, All-append P xs ys h.1 k)

All-when {ℓ κ} :
    {A : Type ℓ} (P : A → Type κ) (b : Bool) (x : A) → P x → All P (if b then x ∷ [] else [])
All-when P true x h = (h, tt)
All-when P false x h = tt

module _ (host : Host) where
  high-IsFound : IsFound host "RUL-EFFORT-OVERPLAN-HIGH"
  unfolding IsFound find_rule
  high-IsFound = (_, (audit_rule_lem host "RUL-EFFORT-OVERPLAN-HIGH", refl))

  low-IsFound : IsFound host "RUL-EFFORT-OVERPLAN-LOW"
  unfolding IsFound find_rule
  low-IsFound = (_, (audit_rule_lem host "RUL-EFFORT-OVERPLAN-LOW", refl))

  missing-IsFound : IsFound host "RUL-EFFORT-MISSING"
  unfolding IsFound find_rule
  missing-IsFound = (_, (audit_rule_lem host "RUL-EFFORT-MISSING", refl))

  zero_effort-IsFound : IsFound host "RUL-EFFORT-ZERO"
  unfolding IsFound find_rule
  zero_effort-IsFound = (_, (audit_rule_lem host "RUL-EFFORT-ZERO", refl))

  manager-IsFound : IsFound host "RUL-MGR-MISSING"
  unfolding IsFound find_rule
  manager-IsFound = (_, (audit_rule_lem host "RUL-MGR-MISSING", refl))

  on_hold-IsFound : IsFound host "RUL-STATE-ONHOLD-EFFORT"
  unfolding IsFound find_rule
  on_hold-IsFound = (_, (audit_rule_lem host "RUL-STATE-ONHOLD-EFFORT", refl))

  in_planning-IsFound : IsFound host "RUL-STATE-INPLAN-EFFORT"
  unfolding IsFound find_rule
  in_planning-IsFound = (_, (audit_rule_lem host "RUL-STATE-INPLAN-EFFORT", refl))

-- Every rule that a policy turns on, whichever its switches, is a rule of the over-planning catalogue,
-- found under its own code: the look-up in the catalogue of all functions never fails for them.
pub build_audit_rules-IsCatalogued :
    (host : Host) (other_number : String → Number) (policy : AuditPolicy)
    → All IsCatalogued (build_audit_rules host other_number policy)
unfolding build_audit_rules
build_audit_rules-IsCatalogued host other_number policy = (
  found-catalogued host _ (high-IsFound host),
  All-append IsCatalogued _ _
      (All-when IsCatalogued policy.low_effort_enabled _
        (found-catalogued host _ (low-IsFound host)))
      (All-append IsCatalogued _ _
        (All-when IsCatalogued policy.missing_effort_enabled _
          (found-catalogued host _ (missing-IsFound host)))
        (All-append IsCatalogued _ _
          (All-when IsCatalogued policy.zero_effort_enabled _
            (found-catalogued host _ (zero_effort-IsFound host)))
          (All-append IsCatalogued _ _
            (All-when IsCatalogued policy.missing_manager_enabled _
              (found-catalogued host _ (manager-IsFound host)))
            (All-append IsCatalogued _ _
              (All-when IsCatalogued policy.on_hold_effort_enabled _
                (found-catalogued host _ (on_hold-IsFound host)))
              (All-when IsCatalogued policy.in_planning_effort_enabled _
                (found-catalogued host _ (in_planning-IsFound host))))))),
)
