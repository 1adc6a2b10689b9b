-- ===== src/Engine/OppRules.antt =====
-- functions-audit/opportunities/rules.ts: the rules of the opportunities engine.
use ses.Base.{String, List, [], ◌∷◌}
use ses.Audit.Issue.{RuleCatalogEntry, data_quality, high}

abbrev pub opp_closed_date_past_rule_code : String
opp_closed_date_past_rule_code = "RUL-OPP-CLOSED-DATE-PAST"

abbrev pub opp_closed_date_past_low_prob_rule_code : String
opp_closed_date_past_low_prob_rule_code = "RUL-OPP-CLOSED-DATE-PAST-LOW-PROB"

abbrev pub opp_project_start_past_low_prob_rule_code : String
opp_project_start_past_low_prob_rule_code = "RUL-OPP-PROJECT-START-PAST-LOW-PROB"

abbrev pub opp_bcs_missing_rule_code : String
opp_bcs_missing_rule_code = "RUL-OPP-BCS-MISSING"

abbrev pub opp_bcs_available_low_prob_rule_code : String
opp_bcs_available_low_prob_rule_code = "RUL-OPP-BCS-AVAILABLE-LOW-PROB"

abbrev pub opp_incorrect_bu_rule_code : String
opp_incorrect_bu_rule_code = "RUL-OPP-INCORRECT-BU"

abbrev pub opp_composite_rule_code : String
opp_composite_rule_code = "RUL-OPP-COMPOSITE"

-- Every rule of this engine is of the same category, severity and version.
abbrev opp_rule : String → String → RuleCatalogEntry
opp_rule rule_code name = record {
  rule_code = rule_code;
  name = name;
  category = data_quality;
  default_severity = high;
  version = 1;
}

abbrev pub opportunities_rule_catalog : List RuleCatalogEntry
opportunities_rule_catalog =
    opp_rule opp_closed_date_past_rule_code "Opportunity closed date in past"
    ∷ opp_rule opp_closed_date_past_low_prob_rule_code
        "Opportunity closed date in past with low probability"
    ∷ opp_rule opp_project_start_past_low_prob_rule_code
        "Project start date in past with low probability"
    ∷ opp_rule opp_bcs_missing_rule_code "BCS code missing"
    ∷ opp_rule opp_bcs_available_low_prob_rule_code "BCS code available with less than 90%"
    ∷ opp_rule opp_incorrect_bu_rule_code "Incorrect BU mapping"
    ∷ opp_rule opp_composite_rule_code "Composite opportunity finding"
    ∷ []
