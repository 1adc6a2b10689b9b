-- ===== src/Engine/Opportunities/Tests.antt =====
-- The theorems about the opportunities engine at a concrete workbook, and a run of the engine on it.
use ses.Base.{◌≡◌, refl, true, none, some, List, [], ◌∷◌, str_eq, if◌then◌else◌, map}
use ses.Base.Dict.{lookup, insert}
use ses.Js.{Host, Value, null, text, boolean, of_nat, nan}
use ses.Workbook.{SheetStatus, WorkbookFile}
use ses.Workbook.Rows.{rows_to_objects, read_cell}
use ses.Engine.Build.{build_issue, find_rule}
use ses.Audit.Issue.{AuditOptions}
use ses.Engine.Loop.Runs.{IsReport}
use ses.Engine.Opportunities.{run_opportunities}
use ses.Engine.Opportunities.Findings.{opp_finding}
use ses.Engine.Opportunities.Report.{run_opportunities-IsReport}

abbrev sample_host : Host
sample_host = record {
  show_number = λ n. "n";
  parse_number = λ s. if str_eq s "50" then of_nat 50 else nan;
  to_lower = λ s. s;
  to_upper = λ s. s;
  encode = λ s. [];
  now = "2026-01-01T00:00:00.000Z";
}

abbrev opp_rows : List (List Value)
opp_rows =
    (text "Opportunity ID" ∷ text "Probability" ∷ text "CLS_DATE_IN_PAST" ∷ [])
    ∷ (text "O-1" ∷ text "50" ∷ boolean true ∷ [])
    ∷ (text "O-2" ∷ text "50" ∷ null ∷ [])
    ∷ []

abbrev sample_file : WorkbookFile
sample_file = record {
  id = "f1";
  sheets =
      record {
        name = "opps";
        status = SheetStatus.valid;
        is_selected = true;
        header_row_index = some 0;
        normalized_headers = none;
      }
      ∷ [];
  raw_data = ("opps", opp_rows) ∷ [];
}

abbrev sample_options : AuditOptions
sample_options = record { issue_scope = ""; run_code = none }

run_opportunities-codes :
    map (λ i. i.rule_code) (run_opportunities sample_host sample_file none sample_options).issues
    ≡ "RUL-OPP-COMPOSITE" ∷ []
unfolding run_opportunities rows_to_objects lookup insert read_cell find_rule build_issue
run_opportunities-codes = refl

run_opportunities-IsReport_example :
    IsReport sample_host sample_file
      (opp_finding sample_host sample_file sample_options none)
      (run_opportunities sample_host sample_file none sample_options)
run_opportunities-IsReport_example =
    run_opportunities-IsReport sample_host sample_file sample_options none
