-- ===== src/Engine/Opportunities.antt =====
-- functions-audit/opportunities/engine.ts: the engine that checks the dates, the probability, the BCS code
-- and the business unit of each opportunity, and gives a row at most one finding.
pub mod Agreement
pub mod Findings
pub mod Hits
pub mod Report
mod Tests
use Prim.Native.String
use ses.Base.{
  ℕ, ◌+◌, String, Bool, true, false, not, ◌&&◌, Option, none, some, List, [], ◌∷◌, ◌++◌, map,
  get_or, or_else, str_eq, length, ltb, if◌then◌else◌,
}
use ses.Js.{Host, Number, Value, of_nat, gt, num_eq, show_nat}
use ses.Js.Trim.{trim}
use ses.Js.Words.{join}
use ses.Workbook.{SheetInfo, WorkbookFile, RowObject, EvaluatedRow}
use ses.Audit.Issue.{AuditIssue, AuditResult, AuditOptions, RuleCatalogEntry}
use ses.Audit.Policy.{AuditPolicy, OpportunitiesPolicy}
use ses.Engine.Build.{find_rule, build_issue}
use ses.Engine.Loop.{AuditRow, run_engine}
use ses.Engine.OppColumns.{
  opp_project_no_aliases, opp_name_aliases, opp_country_aliases, opp_probability_aliases,
  opp_category_aliases, opp_business_unit_aliases, opp_bcs_flag_aliases, opp_prj_start_past_aliases,
  opp_cls_date_past_aliases, opp_owner_aliases, read_opp_cell, read_boolean, read_number,
  is_bcs_missing, is_bcs_blank, read_text,
}
use ses.Engine.OppRules.{
  opp_closed_date_past_rule_code, opp_closed_date_past_low_prob_rule_code,
  opp_project_start_past_low_prob_rule_code, opp_bcs_missing_rule_code,
  opp_bcs_available_low_prob_rule_code, opp_incorrect_bu_rule_code, opp_composite_rule_code,
  opportunities_rule_catalog,
}

-- The limits that `run` reads from the policy, with their defaults.
pub record Limits : Type 0 where
  pub close_date_low_probability_max : Number
  pub project_start_low_probability_max : Number
  pub missing_bcs_probability_exact : Number
  pub bcs_available_low_probability_max : Number
  pub brazil_expected_bu_norm : String

abbrev pub no_settings : OpportunitiesPolicy
no_settings = record {
  close_date_low_probability_max = none;
  project_start_low_probability_max = none;
  missing_bcs_probability_exact = none;
  bcs_available_low_probability_max = none;
  brazil_expected_bu = none;
}

-- `blob?.opportunities ?? {}`.
unfoldable pub settings_of : Option AuditPolicy → OpportunitiesPolicy
settings_of none = no_settings
settings_of (some policy) = get_or policy.opportunities no_settings

unfoldable pub limits_of : Host → Option AuditPolicy → Limits
unfolding settings_of of_nat trim
limits_of host policy =
    let opp = settings_of policy in
    record {
      close_date_low_probability_max = get_or opp.close_date_low_probability_max (of_nat 75);
      project_start_low_probability_max = get_or opp.project_start_low_probability_max (of_nat 90);
      missing_bcs_probability_exact = get_or opp.missing_bcs_probability_exact (of_nat 90);
      bcs_available_low_probability_max = get_or opp.bcs_available_low_probability_max (of_nat 90);
      brazil_expected_bu_norm = host.to_lower (trim (get_or opp.brazil_expected_bu "Brazil"));
    }

pub record RuleHit : Type 0 where
  pub code : String
  pub message : String

-- What `auditRow` reads of a row.
pub record OppFacts : Type 0 where
  pub probability : Option Number
  pub cls_date_in_past : Bool
  pub prj_start_in_past : Bool
  pub category_norm : String
  pub country_norm : String
  pub business_unit_norm : String
  pub is_bcs_missing : Bool
  pub is_bcs_blank : Bool

unfoldable pub facts_of : Host → RowObject → OppFacts
unfolding read_number read_opp_cell read_boolean read_text
facts_of host row =
    let bcs_raw = read_opp_cell row opp_bcs_flag_aliases in
    record {
      probability = read_number host (read_opp_cell row opp_probability_aliases);
      cls_date_in_past = read_boolean host (read_opp_cell row opp_cls_date_past_aliases);
      prj_start_in_past = read_boolean host (read_opp_cell row opp_prj_start_past_aliases);
      category_norm = host.to_lower (read_text host row opp_category_aliases);
      country_norm = host.to_lower (read_text host row opp_country_aliases);
      business_unit_norm = host.to_lower (read_text host row opp_business_unit_aliases);
      is_bcs_missing = is_bcs_missing host bcs_raw;
      is_bcs_blank = is_bcs_blank host bcs_raw;
    }

-- `probability !== null && probability < limit`.
abbrev pub is_below : Option Number → Number → Bool
is_below none limit = false
is_below (some p) limit = gt limit p

abbrev pub is_exactly : Option Number → Number → Bool
is_exactly none limit = false
is_exactly (some p) limit = num_eq p limit

-- One check of `auditRow`: whether it fires, and what it pushes then.
pub record Check : Type 0 where
  pub fires : Bool
  pub hit : RuleHit

abbrev check : Bool → String → String → Check
check fires code message = record { fires = fires; hit = record { code = code; message = message } }

abbrev pub checks_of : Limits → OppFacts → List Check
checks_of limits f =
    check f.cls_date_in_past opp_closed_date_past_rule_code "Opportunity closed date in past"
    ∷ check (f.cls_date_in_past && is_below f.probability limits.close_date_low_probability_max)
        opp_closed_date_past_low_prob_rule_code
        "Opportunity closed date in past with low probability"
    ∷ check (f.prj_start_in_past && is_below f.probability limits.project_start_low_probability_max)
        opp_project_start_past_low_prob_rule_code "Project start date in past with low probability"
    ∷ check
        (str_eq f.category_norm "service"
          && (is_exactly f.probability limits.missing_bcs_probability_exact && f.is_bcs_missing))
        opp_bcs_missing_rule_code "BCS code missing"
    ∷ check
        (str_eq f.category_norm "service"
          && (is_below f.probability limits.bcs_available_low_probability_max
              && (not f.is_bcs_missing && not f.is_bcs_blank)))
        opp_bcs_available_low_prob_rule_code "BCS code available with less than 90%"
    ∷ check
        (str_eq f.country_norm "brazil"
          && not (str_eq f.business_unit_norm limits.brazil_expected_bu_norm))
        opp_incorrect_bu_rule_code "Incorrect BU mapping"
    ∷ []

-- The pushes to `hits`, in order.
unfoldable pub fired : List Check → List RuleHit
fired [] = []
fired (c ∷ checks) = let rest = fired checks in if c.fires then c.hit ∷ rest else rest

unfoldable pub hits_of : Limits → OppFacts → List RuleHit
unfolding fired
hits_of limits f = fired (checks_of limits f)

-- `hits.length === 1 ? hits[0].code : OPP_COMPOSITE_RULE_CODE`.
unfoldable pub code_of : List RuleHit → String
code_of (hit ∷ []) = hit.code
code_of _ = opp_composite_rule_code

unfoldable pub notes_of : List RuleHit → String
unfolding join
notes_of hits =
    let reason = join "; " (map (λ h. h.message) hits) in
    if ltb 1 (length hits)
    then join "" (reason ∷ " [matched: " ∷ join ", " (map (λ h. h.code) hits) ∷ "]" ∷ [])
    else reason

module _ (host : Host) (file : WorkbookFile) (options : AuditOptions) where
  unfoldable pub opp_issue : RuleCatalogEntry → String → EvaluatedRow → List RuleHit → AuditIssue
  unfolding read_text read_number read_opp_cell notes_of code_of join
  opp_issue rule sheet_name r hits =
      let built = build_issue host file options rule (code_of hits) (record {
        sheet_name = sheet_name;
        row_index = r.row_index;
        project_no =
            or_else (read_text host r.row opp_project_no_aliases)
              (join "" ("Row " ∷ show_nat host (r.row_index + 1) ∷ []));
        project_name = or_else (read_text host r.row opp_name_aliases) "Unnamed opportunity";
        project_manager = or_else (read_text host r.row opp_owner_aliases) "—";
        project_state = or_else (read_text host r.row opp_category_aliases) "Unknown";
        email = "";
        effort = get_or (read_number host (read_opp_cell r.row opp_probability_aliases)) (of_nat 0);
        reason = join "; " (map (λ h. h.message) hits);
        threshold_label = "opportunity-checks";
        recommended_action =
            "Review the opportunity record and correct the flagged fields in the source CRM.";
        missing_months = none;
        zero_month_count = none;
      }) in
      record built { notes = notes_of hits }

  -- `pushIssue` after its reading of the rule.
  unfoldable pub push_found :
      List AuditIssue
      → String
      → EvaluatedRow
      → List RuleHit
      → Option RuleCatalogEntry
      → List AuditIssue
  unfolding opp_issue
  push_found issues sheet_name r hits none = issues
  push_found issues sheet_name r hits (some rule) = issues ++ opp_issue rule sheet_name r hits ∷ []

  unfoldable pub push_issue :
      List AuditIssue → String → EvaluatedRow → List RuleHit → List AuditIssue
  unfolding push_found find_rule code_of
  push_issue issues sheet_name r [] = issues
  push_issue issues sheet_name r (hit ∷ hits) =
      push_found issues sheet_name r (hit ∷ hits)
        (find_rule opportunities_rule_catalog (code_of (hit ∷ hits)))

  -- `auditRow` after the checks.
  unfoldable pub audit_hits :
      SheetInfo → EvaluatedRow → List AuditIssue → List RuleHit → Bool × List AuditIssue
  unfolding push_issue
  audit_hits sheet r issues [] = (false, issues)
  audit_hits sheet r issues (hit ∷ hits) = (true, push_issue issues sheet.name r (hit ∷ hits))

  unfoldable pub audit_row : Limits → SheetInfo → AuditRow
  unfolding audit_hits hits_of facts_of
  audit_row limits sheet r issues = audit_hits sheet r issues (hits_of limits (facts_of host r.row))

unfoldable pub run_opportunities :
    Host → WorkbookFile → Option AuditPolicy → AuditOptions → AuditResult
unfolding run_engine audit_row limits_of
run_opportunities host file policy options =
    run_engine host file (λ sheet. audit_row host file options (limits_of host policy) sheet)
