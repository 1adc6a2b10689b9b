-- ===== src/Audit/Policy.antt =====
-- core/types.ts: the policy that the engines read, and the settings of the opportunities engine in it.
use ses.Base.{Bool, Option, String}
use ses.Js.{Number}

pub record OpportunitiesPolicy : Type 0 where
  pub close_date_low_probability_max : Option Number
  pub project_start_low_probability_max : Option Number
  pub missing_bcs_probability_exact : Option Number
  pub bcs_available_low_probability_max : Option Number
  pub brazil_expected_bu : Option String

pub record AuditPolicy : Type 0 where
  pub high_effort_threshold : Number
  pub medium_effort_min : Number
  pub medium_effort_max : Number
  pub low_effort_min : Number
  pub low_effort_max : Number
  pub low_effort_enabled : Bool
  pub zero_effort_enabled : Bool
  pub missing_effort_enabled : Bool
  pub missing_manager_enabled : Bool
  pub in_planning_effort_enabled : Bool
  pub on_hold_effort_enabled : Bool
  pub on_hold_effort_threshold : Number
  pub pd_threshold : Option Number
  pub opportunities : Option OpportunitiesPolicy
