-- ===== src/Engine/Opportunities/Findings.antt =====
-- The finding that a row of opportunities is to have, read off its cells and the policy.
use ses.Base.{
  ℕ, ◌+◌, String, Bool, false, not, ◌&&◌, Option, none, some, List, [], ◌∷◌, map, filter, get_or,
  or_else, str_eq,
}
use ses.Js.{Host, Number, of_nat, gt, num_eq, show_nat}
use ses.Js.Trim.{trim}
use ses.Js.Words.{join}
use ses.Workbook.{SheetInfo, WorkbookFile, RowObject, EvaluatedRow}
use ses.Audit.Issue.{AuditIssue, AuditOptions, RuleCatalogEntry}
use ses.Audit.Policy.{AuditPolicy, OpportunitiesPolicy}
use ses.Engine.Build.{find_rule, build_issue}
use ses.Engine.OppColumns.{
  opp_project_no_aliases, opp_name_aliases, opp_country_aliases, opp_probability_aliases,
  opp_category_aliases, opp_business_unit_aliases, opp_bcs_flag_aliases, opp_prj_start_past_aliases,
  opp_cls_date_past_aliases, opp_owner_aliases, read_opp_cell, read_boolean, read_number,
  is_bcs_missing, is_bcs_blank, read_text,
}
use ses.Engine.OppRules.{opportunities_rule_catalog}

-- What is wrong with a row if `holds`, and the code and the text of it.
pub record Fault : Type 0 where
  pub holds : Bool
  pub code : String
  pub message : String

abbrev fault : String → String → Bool → Fault
fault code message holds = record { holds = holds; code = code; message = message }

-- A setting of the policy, or the default where there is no policy, no settings or no such one.
abbrev pub setting : {A : Type 0} → (OpportunitiesPolicy → Option A) → A → Option AuditPolicy → A
setting field default none = default
setting field default (some policy) = elim policy.opportunities [
  | none ↦ default
  | some settings ↦ get_or (field settings) default
]

-- A test of a probability that no missing one passes.
abbrev pub known_and : (Number → Bool) → Option Number → Bool
known_and test none = false
known_and test (some p) = test p

-- The code of the fault if it is the only one.
abbrev pub rule_of : List Fault → String
rule_of (f ∷ []) = f.code
rule_of _ = "RUL-OPP-COMPOSITE"

abbrev pub reason_of : List Fault → String
reason_of faults = join "; " (map (λ f. f.message) faults)

-- The texts of the faults, and their codes behind them if there is more than one.
abbrev pub remarks_of : List Fault → String
remarks_of (f ∷ []) = reason_of (f ∷ [])
remarks_of faults =
    join "" (reason_of faults ∷ " [matched: " ∷ join ", " (map (λ f. f.code) faults) ∷ "]" ∷ [])

module _ (host : Host) (policy : Option AuditPolicy) (row : RowObject) where
  abbrev probability : Option Number
  probability = read_number host (read_opp_cell row opp_probability_aliases)

  abbrev is_under : (OpportunitiesPolicy → Option Number) → ℕ → Bool
  is_under field default = known_and (λ p. gt (setting field (of_nat default) policy) p) probability

  abbrev is_closed_in_past : Bool
  is_closed_in_past = read_boolean host (read_opp_cell row opp_cls_date_past_aliases)

  abbrev is_service : Bool
  is_service = str_eq (host.to_lower (read_text host row opp_category_aliases)) "service"

  -- The six faults that a row can have, in the order in which they are reported.
  abbrev pub faults_of : List Fault
  faults_of =
      fault "RUL-OPP-CLOSED-DATE-PAST" "Opportunity closed date in past" is_closed_in_past
      ∷ fault "RUL-OPP-CLOSED-DATE-PAST-LOW-PROB"
          "Opportunity closed date in past with low probability"
          (is_closed_in_past && is_under (λ o. o.close_date_low_probability_max) 75)
      ∷ fault "RUL-OPP-PROJECT-START-PAST-LOW-PROB"
          "Project start date in past with low probability"
          (read_boolean host (read_opp_cell row opp_prj_start_past_aliases)
            && is_under (λ o. o.project_start_low_probability_max) 90)
      ∷ fault "RUL-OPP-BCS-MISSING" "BCS code missing" (
          is_service
          && (known_and
                (λ p. num_eq p (setting (λ o. o.missing_bcs_probability_exact) (of_nat 90) policy))
                probability
              && is_bcs_missing host (read_opp_cell row opp_bcs_flag_aliases)))
      ∷ fault "RUL-OPP-BCS-AVAILABLE-LOW-PROB" "BCS code available with less than 90%" (
          is_service
          && (is_under (λ o. o.bcs_available_low_probability_max) 90
              && (not (is_bcs_missing host (read_opp_cell row opp_bcs_flag_aliases))
                  && not (is_bcs_blank host (read_opp_cell row opp_bcs_flag_aliases)))))
      ∷ fault "RUL-OPP-INCORRECT-BU" "Incorrect BU mapping" (
          str_eq (host.to_lower (read_text host row opp_country_aliases)) "brazil"
          && not (
              str_eq (host.to_lower (read_text host row opp_business_unit_aliases))
                (host.to_lower (trim (setting (λ o. o.brazil_expected_bu) "Brazil" policy)))))
      ∷ []

  abbrev pub found : List Fault
  found = filter (λ f. f.holds) faults_of

module _ (host : Host) (file : WorkbookFile) (options : AuditOptions) where
  abbrev pub issue_of_row :
      RuleCatalogEntry → SheetInfo → EvaluatedRow → String → String → String → AuditIssue
  issue_of_row rule sheet r code reason remarks =
      let built = build_issue host file options rule code (record {
        sheet_name = sheet.name;
        row_index = r.row_index;
        project_no =
            or_else (read_text host r.row opp_project_no_aliases)
              (join "" ("Row " ∷ show_nat host (r.row_index + 1) ∷ []));
        project_name = or_else (read_text host r.row opp_name_aliases) "Unnamed opportunity";
        project_manager = or_else (read_text host r.row opp_owner_aliases) "—";
        project_state = or_else (read_text host r.row opp_category_aliases) "Unknown";
        email = "";
        effort = get_or (read_number host (read_opp_cell r.row opp_probability_aliases)) (of_nat 0);
        reason = reason;
        threshold_label = "opportunity-checks";
        recommended_action =
            "Review the opportunity record and correct the flagged fields in the source CRM.";
        missing_months = none;
        zero_month_count = none;
      }) in
      record built { notes = remarks }

  abbrev pub issue_by :
      SheetInfo → EvaluatedRow → List Fault → Option RuleCatalogEntry → Option AuditIssue
  issue_by sheet r faults none = none
  issue_by sheet r faults (some rule) =
      some (issue_of_row rule sheet r (rule_of faults) (reason_of faults) (remarks_of faults))

  abbrev pub issue_for : SheetInfo → EvaluatedRow → List Fault → Option AuditIssue
  issue_for sheet r [] = none
  issue_for sheet r (f ∷ faults) =
      issue_by sheet r (f ∷ faults) (find_rule opportunities_rule_catalog (rule_of (f ∷ faults)))

  -- The finding of a row: none if it has no fault, and one for all its faults together otherwise.
  abbrev pub opp_finding : Option AuditPolicy → SheetInfo → EvaluatedRow → Option AuditIssue
  opp_finding policy sheet r = issue_for sheet r (found host policy r.row)
