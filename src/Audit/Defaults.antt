-- ===== src/Audit/Defaults.antt =====
-- packages/domain/src/audit/auditPolicy.ts: the default policy and its merge with a stored one.
use ses.Base.{Bool, true, false, Option, none, some, get_or}
use ses.Js.{Number, of_nat}
use ses.Audit.Policy.{AuditPolicy, OpportunitiesPolicy}

unfoldable pub create_default_audit_policy : AuditPolicy
unfolding of_nat
create_default_audit_policy = record {
  high_effort_threshold = of_nat 900;
  medium_effort_min = of_nat 400;
  medium_effort_max = of_nat 800;
  low_effort_min = of_nat 1;
  low_effort_max = of_nat 399;
  low_effort_enabled = false;
  zero_effort_enabled = true;
  missing_effort_enabled = true;
  missing_manager_enabled = true;
  in_planning_effort_enabled = true;
  on_hold_effort_enabled = true;
  on_hold_effort_threshold = of_nat 200;
  pd_threshold = some (of_nat 30);
  opportunities = some (record {
    close_date_low_probability_max = some (of_nat 75);
    project_start_low_probability_max = some (of_nat 90);
    missing_bcs_probability_exact = some (of_nat 90);
    bcs_available_low_probability_max = some (of_nat 90);
    brazil_expected_bu = some "Brazil";
  });
}

-- `Partial<AuditPolicy>`.
pub record PartialPolicy : Type 0 where
  pub high_effort_threshold : Option Number
  pub medium_effort_min : Option Number
  pub medium_effort_max : Option Number
  pub low_effort_min : Option Number
  pub low_effort_max : Option Number
  pub low_effort_enabled : Option Bool
  pub zero_effort_enabled : Option Bool
  pub missing_effort_enabled : Option Bool
  pub missing_manager_enabled : Option Bool
  pub in_planning_effort_enabled : Option Bool
  pub on_hold_effort_enabled : Option Bool
  pub on_hold_effort_threshold : Option Number
  pub pd_threshold : Option Number
  pub opportunities : Option OpportunitiesPolicy

abbrev or_default {ℓ} : {A : Type ℓ} → Option A → Option A → Option A
or_default none d = d
or_default (some a) d = some a

-- `{ ...defaults, ...policy }`, for a policy that holds no explicit `undefined`.
unfoldable pub merge_policy : AuditPolicy → PartialPolicy → AuditPolicy
merge_policy defaults p = record {
  high_effort_threshold = get_or p.high_effort_threshold defaults.high_effort_threshold;
  medium_effort_min = get_or p.medium_effort_min defaults.medium_effort_min;
  medium_effort_max = get_or p.medium_effort_max defaults.medium_effort_max;
  low_effort_min = get_or p.low_effort_min defaults.low_effort_min;
  low_effort_max = get_or p.low_effort_max defaults.low_effort_max;
  low_effort_enabled = get_or p.low_effort_enabled defaults.low_effort_enabled;
  zero_effort_enabled = get_or p.zero_effort_enabled defaults.zero_effort_enabled;
  missing_effort_enabled = get_or p.missing_effort_enabled defaults.missing_effort_enabled;
  missing_manager_enabled = get_or p.missing_manager_enabled defaults.missing_manager_enabled;
  in_planning_effort_enabled =
      get_or p.in_planning_effort_enabled defaults.in_planning_effort_enabled;
  on_hold_effort_enabled = get_or p.on_hold_effort_enabled defaults.on_hold_effort_enabled;
  on_hold_effort_threshold = get_or p.on_hold_effort_threshold defaults.on_hold_effort_threshold;
  pd_threshold = or_default p.pd_threshold defaults.pd_threshold;
  opportunities = or_default p.opportunities defaults.opportunities;
}

unfoldable pub normalize_audit_policy : Option PartialPolicy → AuditPolicy
unfolding create_default_audit_policy merge_policy
normalize_audit_policy none = create_default_audit_policy
normalize_audit_policy (some p) = merge_policy create_default_audit_policy p
