-- ===== src/Engine/PolicyRules.antt =====
-- packages/domain/src/audit/auditEngine.ts: the readings of a row and the rules that a policy turns on
-- (`buildAuditRules`); audit/auditRules.ts: the catalogue of all functions.
pub mod Known
use Prim.Native.String
use ses.Base.{
  ℕ, String, Bool, true, false, not, ◌&&◌, ◌||◌, Option, none, some, List, [], ◌∷◌, ◌++◌, str_eq,
  is_empty, if◌then◌else◌, get_or,
}
use ses.Base.Dict.{Dict, lookup}
use ses.Js.{
  Host, Number, Value, undefined, null, number, text, other, boolean, nan, of_nat, is_undefined,
  is_zero, gt, num_eq,
}
use ses.Js.Words.{join}
use ses.Workbook.{RowObject}
use ses.Workbook.Rows.{field, cell_text}
use ses.Audit.Issue.{RuleCatalogEntry, Severity, IssueCategory}
use ses.Audit.Policy.{AuditPolicy}
use ses.Engine.MasterData.{master_data_rule_catalog, rules_by_code}
use ses.Engine.OverPlanning.{over_planning_engine_rule_catalog}
use ses.Engine.MissingPlan.{missing_plan_rule_catalog}
use ses.Engine.FunctionRate.{function_rate_rule_catalog}
use ses.Engine.InternalCostRate.{internal_cost_rate_rule_catalog}
use ses.Engine.OppRules.{opportunities_rule_catalog}

-- `AUDIT_RULE_CATALOG`, in the order of the functions.
unfoldable pub audit_rule_catalog : Host → List RuleCatalogEntry
audit_rule_catalog host =
    master_data_rule_catalog host
    ++ (over_planning_engine_rule_catalog
        ++ (missing_plan_rule_catalog
            ++ (function_rate_rule_catalog
                ++ (internal_cost_rate_rule_catalog ++ opportunities_rule_catalog))))

-- `AUDIT_RULES_BY_CODE.get(code)`.
unfoldable pub audit_rule : Host → String → Option RuleCatalogEntry
unfolding audit_rule_catalog lookup rules_by_code
audit_rule host code = lookup code (rules_by_code (audit_rule_catalog host) [])

-- A rule with no fields, which is what spreading a missing entry gives.
abbrev pub no_rule : RuleCatalogEntry
no_rule = record {
  rule_code = "undefined";
  name = "undefined";
  category = IssueCategory.other_category;
  default_severity = Severity.low;
  version = 0;
}

pub record AuditRule : Type 0 where
  pub entry : RuleCatalogEntry
  pub check : RowObject → Bool
  pub reason : RowObject → String
  pub threshold_label : String
  pub recommended_action : String

abbrev pub project_no_fields : List String
project_no_fields =
    "projectNo" ∷ "Project No" ∷ "Project No." ∷ "Project Number" ∷ "Project ID" ∷ []

abbrev pub project_name_fields : List String
project_name_fields = "projectName" ∷ "Project Name" ∷ "Project" ∷ "Name" ∷ []

abbrev pub manager_fields : List String
manager_fields = "projectManager" ∷ "Project Manager" ∷ "Manager" ∷ []

abbrev pub state_fields : List String
state_fields = "projectState" ∷ "Project State" ∷ "State" ∷ []

abbrev pub effort_fields : List String
effort_fields = "effort" ∷ "Effort" ∷ "Hours" ∷ "Effort (H)" ∷ "Effort H" ∷ "Planned Effort" ∷ []

abbrev pub email_fields : List String
email_fields = "email" ∷ "Email" ∷ "Manager Email" ∷ "Project Manager Email" ∷ []

module _ (host : Host) (other_number : String → Number) where
  abbrev is_filled : Value → Bool
  is_filled v = not (is_undefined v) && not (is_empty (cell_text host v))

  -- `value`: the first of the names whose value is there and not blank.
  unfoldable pub value_at : RowObject → List String → Value
  unfolding cell_text lookup
  value_at row [] = undefined
  value_at row (name ∷ names) =
      let rest = value_at row names in
      let here = field row name in if is_filled here then here else rest

  unfoldable pub text_at : RowObject → List String → String
  unfolding value_at cell_text
  text_at row names = cell_text host (value_at row names)

  -- `Number(v ?? 0)`: of a value that is no number, text or truth value the host says it.
  abbrev to_number : Value → Number
  to_number undefined = of_nat 0
  to_number null = of_nat 0
  to_number (number n) = n
  to_number (text s) = host.parse_number s
  to_number (other s) = other_number s
  to_number (boolean true) = of_nat 1
  to_number (boolean false) = of_nat 0

  -- `n || 0`.
  abbrev or_zero : Number → Number
  or_zero nan = of_nat 0
  or_zero n = n

  unfoldable pub num_at : RowObject → List String → Number
  unfolding value_at of_nat
  num_at row names = or_zero (to_number (value_at row names))

  unfoldable pub has_value : RowObject → List String → Bool
  unfolding value_at
  has_value row names = not (is_undefined (value_at row names))

  abbrev effort_of : RowObject → Number
  effort_of row = num_at row effort_fields

  abbrev has_effort : RowObject → Bool
  has_effort row = has_value row effort_fields

  abbrev state_is : RowObject → String → Bool
  state_is row state = str_eq (host.to_lower (text_at row state_fields)) state

  abbrev rule : String → (RowObject → Bool) → (RowObject → String) → String → String → AuditRule
  rule code check reason threshold_label recommended_action = record {
    entry = get_or (audit_rule host code) no_rule;
    check = check;
    reason = reason;
    threshold_label = threshold_label;
    recommended_action = recommended_action;
  }

  abbrev when_on : Bool → AuditRule → List AuditRule
  when_on b r = if b then r ∷ [] else []

  abbrev show : Number → String
  show n = host.show_number n

  abbrev high_rule : AuditPolicy → AuditRule
  high_rule policy =
      rule "RUL-EFFORT-OVERPLAN-HIGH"
        (λ row. has_effort row && gt (effort_of row) policy.high_effort_threshold)
        (λ row. join "" (
          "Effort is "
          ∷ show (effort_of row)
          ∷ "h, above the configured overplanning threshold of "
          ∷ show policy.high_effort_threshold
          ∷ "h."
          ∷ []))
        (join "" (">" ∷ show policy.high_effort_threshold ∷ "h" ∷ []))
        "Review capacity, confirm planning assumptions, and escalate if the effort cannot be reduced or justified."

  abbrev at_least : Number → Number → Bool
  at_least a b = gt a b || num_eq a b

  abbrev low_rule : AuditPolicy → AuditRule
  low_rule policy =
      rule "RUL-EFFORT-OVERPLAN-LOW"
        (λ row.
          has_effort row
          && (at_least (effort_of row) policy.low_effort_min
              && at_least policy.low_effort_max (effort_of row)))
        (λ row.
          join "" ("Effort is " ∷ show (effort_of row) ∷ "h, inside the low tracking range." ∷ []))
        (join "" (show policy.low_effort_min ∷ "-" ∷ show policy.low_effort_max ∷ "h" ∷ []))
        "Track as low risk and confirm effort is not underplanned."

  abbrev missing_effort_rule : AuditRule
  missing_effort_rule =
      rule "RUL-EFFORT-MISSING" (λ row. not (has_effort row)) (λ row. "Effort value is missing.")
        "Blank effort"
        "Ask the project manager to provide the planned effort before the next review."

  abbrev zero_rule : AuditRule
  zero_rule =
      rule "RUL-EFFORT-ZERO" (λ row. has_effort row && is_zero (effort_of row))
        (λ row. "Effort is 0; confirm whether effort planning is pending or intentionally zero.")
        "0h"
        "Confirm whether the project is not yet planned, cancelled, or intentionally set to zero."

  abbrev manager_rule : AuditRule
  manager_rule =
      rule "RUL-MGR-MISSING" (λ row. is_empty (text_at row manager_fields))
        (λ row. "No project manager is assigned.") "Manager required"
        "Assign a project manager so notifications and ownership are clear."

  abbrev on_hold_rule : AuditPolicy → AuditRule
  on_hold_rule policy =
      rule "RUL-STATE-ONHOLD-EFFORT"
        (λ row. state_is row "on hold" && gt (effort_of row) policy.on_hold_effort_threshold)
        (λ row.
          join "" ("Project is On Hold but has " ∷ show (effort_of row) ∷ "h effort logged." ∷ []))
        (join "" ("On Hold >" ∷ show policy.on_hold_effort_threshold ∷ "h" ∷ []))
        "Confirm whether work should continue while the project is On Hold."

  abbrev in_planning_rule : AuditRule
  in_planning_rule =
      rule "RUL-STATE-INPLAN-EFFORT"
        (λ row. state_is row "in planning" && gt (effort_of row) (of_nat 0))
        (λ row.
          join ""
            ("Project is In Planning with " ∷ show (effort_of row) ∷ "h already logged." ∷ []))
        "In Planning >0h"
        "Confirm whether execution has started or the project state needs updating."

  unfoldable pub build_audit_rules : AuditPolicy → List AuditRule
  unfolding num_at has_value text_at of_nat join num_eq audit_rule
  build_audit_rules policy =
      high_rule policy
      ∷ (when_on policy.low_effort_enabled (low_rule policy)
          ++ (when_on policy.missing_effort_enabled missing_effort_rule
              ++ (when_on policy.zero_effort_enabled zero_rule
                  ++ (when_on policy.missing_manager_enabled manager_rule
                      ++ (when_on policy.on_hold_effort_enabled (on_hold_rule policy)
                          ++ when_on policy.in_planning_effort_enabled in_planning_rule)))))
