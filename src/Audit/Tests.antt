-- ===== src/Audit/Tests.antt =====
-- The theorems about audit keys, the comparison and the export of findings at concrete inputs, with runs
-- of the definitions and the published digest of a short message.
use ses.Base.{
  ℕ, ◌+◌, ◌%◌, ◌≡◌, ◌≤◌, ◌<◌, refl, String, Option, none, some, List, [], ◌∷◌, length, map,
}
use ses.Base.Dict.{lookup, insert}
use ses.Js.{Host, of_nat, nan}
use ses.Audit.Issue.{AuditIssue, AuditResult, Severity, IssueCategory}
use ses.Audit.Compare.{ComparisonResult, compare_results}
use ses.Audit.Compare.Verdicts.{expected, compare_results_lem}
use ses.Audit.Csv.{build_issues_csv}
use ses.Audit.Csv.RoundTrip.{read_csv, row_texts, read_csv-build_issues_csv}
use ses.Audit.Sha1.{sha1_hex, pad, padded_length}
use ses.Audit.Sha1.Padding.{length-pad}

-- The bytes of the text abc.
sha1_hex-abc : sha1_hex (97 ∷ 98 ∷ 99 ∷ []) ≡ "a9993e364706816aba3e25717850c26c9cd0d89d"
unfolding sha1_hex
sha1_hex-abc = refl

abbrev abc : List ℕ
abc = 97 ∷ 98 ∷ 99 ∷ []

length-pad_example :
    (length (pad abc) ≡ padded_length (length abc))
    × (length (pad abc) % 64 ≡ 0)
    × (length abc + 9 ≤ length (pad abc))
    × (length (pad abc) < length abc + 9 + 64)
length-pad_example = length-pad abc

abbrev sample_host : Host
sample_host = record {
  show_number = λ n. "n";
  parse_number = λ s. nan;
  to_lower = λ s. s;
  to_upper = λ s. s;
  encode = λ s. [];
  now = "2026-01-01T00:00:00.000Z";
}

abbrev issue_by : String → String → AuditIssue
issue_by key manager = record {
  id = "i1";
  issue_key = some key;
  project_no = "P-1";
  project_name = "say \"hi\", then go";
  sheet_name = "S";
  severity = Severity.high;
  project_manager = manager;
  project_state = "Open";
  effort = of_nat 3;
  audit_status = "RUL";
  notes = "";
  row_index = 1;
  email = some "";
  rule_code = "RUL";
  rule_version = 1;
  rule_name = some "Rule";
  audit_run_code = none;
  category = some IssueCategory.missing_data;
  reason = some "two\nlines";
  threshold_label = "";
  recommended_action = none;
  missing_months = none;
  zero_month_count = none;
}

abbrev result_with : List AuditIssue → AuditResult
result_with issues = record {
  file_id = "f1";
  run_at = "";
  scanned_rows = 3;
  flagged_rows = 3;
  issues = issues;
  sheets = [];
}

abbrev earlier : AuditResult
earlier = result_with (issue_by "A" "Ann" ∷ issue_by "B" "Bob" ∷ issue_by "C" "Cid" ∷ [])

abbrev later : AuditResult
later = result_with (issue_by "B" "Bea" ∷ issue_by "C" " Cid " ∷ issue_by "D" "Dan" ∷ [])

abbrev counts_of : Option ComparisonResult → Option (ℕ × (ℕ × (ℕ × (ℕ × ℕ))))
counts_of none = none
counts_of (some r) = some (
  length r.new_issues,
  (
    length r.resolved_issues,
    (length r.changed_issues, (length r.unchanged_issues, length r.manager_changes)),
  ),
)

compare_results-run :
    counts_of (compare_results sample_host earlier later) ≡ some (1, (1, (1, (1, 1))))
unfolding compare_results lookup insert
compare_results-run = refl

compare_results_lem_example :
    (compare_results sample_host earlier later ≡ some (expected sample_host earlier later))
    × (length (expected sample_host earlier later).new_issues
          + (length (expected sample_host earlier later).changed_issues
              + length (expected sample_host earlier later).unchanged_issues)
        ≡ length later.issues)
compare_results_lem_example = compare_results_lem sample_host earlier later

-- A finding without a rule name, a category and a reason.
abbrev unnamed : AuditIssue
unnamed = record (issue_by "E" "Eve") { rule_name = none; category = none; reason = none }

read_csv-build_issues_csv_example :
    read_csv (build_issues_csv sample_host (unnamed ∷ later.issues))
    ≡ some (
        ("Severity" ∷ "Project No" ∷ "Project Name" ∷ "Manager" ∷ "Sheet" ∷ "State" ∷ "Effort"
          ∷ "Rule" ∷ "Category" ∷ "Reason" ∷ "Recommended Action" ∷ [])
        ∷ map (row_texts sample_host) (unnamed ∷ later.issues))
read_csv-build_issues_csv_example = read_csv-build_issues_csv sample_host (unnamed ∷ later.issues)
