-- ===== src/Aggregator/Tests.antt =====
-- Two managers, one of whom is resolved, and a tracking entry without findings.
use ses.Base.{
  ◌+◌, ◌≡◌, refl, String, Bool, true, false, none, some, List, [], ◌∷◌, map, filter, length, sum_by,
}
use ses.Js.{Host, nan}
use ses.Project.Functions.{FunctionId, function_ids}
use ses.Aggregator.{AggregatorIssueRow, AggregatorTrackingRow, aggregate_escalations}
use ses.Aggregator.Conserved.{engine_issues, payload, aggregate_escalations-conserved}

abbrev sample_host : Host
sample_host = record {
  show_number = λ n. "n";
  parse_number = λ s. nan;
  to_lower = λ s. s;
  to_upper = λ s. s;
  encode = λ s. [];
  now = "2026-01-02T00:00:00Z";
}

abbrev issue_of : String → FunctionId → AggregatorIssueRow
issue_of name id = record {
  issue_key = "IKY-1";
  project_manager = some name;
  email = none;
  engine_id = id;
  project_no = some "P-1";
  project_name = none;
}

abbrev tracking_of : String → String → Bool → AggregatorTrackingRow
tracking_of key name is_resolved = record {
  manager_key = key;
  manager_name = name;
  manager_email = none;
  stage = "NEW";
  is_resolved = is_resolved;
  last_contact_at = none;
  updated_at = none;
  sla_due_at = some 5;
  id = key;
  display_code = key;
  outlook_count = 0;
  teams_count = 0;
}

abbrev issues : List AggregatorIssueRow
issues =
    issue_of "ann" FunctionId.master_data
    ∷ issue_of "bob" FunctionId.master_data
    ∷ issue_of "ann" FunctionId.function_rate
    ∷ []

abbrev tracking : List AggregatorTrackingRow
tracking =
    tracking_of "missing-email:bob" "bob" true ∷ tracking_of "missing-email:cid" "cid" false ∷ []

-- A name never comes after another: the order is kept.
abbrev keep_order : String → String → Bool
keep_order a b = false

row_names :
    map
      (λ r. r.manager_name)
      (aggregate_escalations sample_host keep_order "p1" issues tracking 9).rows
    ≡ "ann" ∷ "bob" ∷ "cid" ∷ []
unfolding aggregate_escalations
row_names = refl

open_findings :
    (aggregate_escalations sample_host keep_order "p1" issues tracking
      9).summary.total_open_findings
    ≡ 2
unfolding aggregate_escalations
open_findings = refl

aggregate_escalations-conserved_example :
    ((payload sample_host keep_order "p1" issues tracking 9).summary.per_engine_issue_counts
      ≡ map (λ id. (id, engine_issues issues id)) function_ids)
    × ((payload sample_host keep_order "p1" issues tracking 9).summary.total_open_findings
          + sum_by
              (λ r. r.total_issues)
              (filter
                (λ r. r.is_resolved)
                (payload sample_host keep_order "p1" issues tracking 9).rows)
        ≡ length issues)
aggregate_escalations-conserved_example =
    aggregate_escalations-conserved sample_host keep_order "p1" issues tracking 9
