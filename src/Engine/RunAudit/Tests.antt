-- ===== src/Engine/RunAudit/Tests.antt =====
-- The theorems about the audit that is driven by the policy at a concrete workbook, and a run of it.

use ses.Base.{ℕ, ◌≡◌, refl, suc, true, none, some, List, [], ◌∷◌, All, length}
use ses.Base.Dict.{lookup, insert}
use ses.Js.{Host, Value, null, number, text, of_nat, nan, is_undefined}
use ses.Js.Unary.{unary_host, show_nat-injective}
use ses.Workbook.{SheetStatus, WorkbookFile, RowObject}
use ses.Workbook.Rows.{field}
use ses.Workbook.SuffixRows.{key_of, free_suffix}
use ses.Workbook.SuffixRows.Free.{free_suffix-key_of}
use ses.Audit.Issue.{AuditOptions, AuditResult}
use ses.Audit.Defaults.{create_default_audit_policy}
use ses.Engine.MasterData.{master_data_rule_catalog}
use ses.Engine.PolicyRules.{build_audit_rules}
use ses.Engine.PolicyRules.Known.{IsCatalogued, build_audit_rules-IsCatalogued}
use ses.Engine.RunAudit.{run_audit}

abbrev taken_row : RowObject
taken_row = ("Hours", number (of_nat 3)) ∷ ("Name", null) ∷ []

free_suffix-key_of_example :
    (i : ℕ) × ((free_suffix (key_of unary_host "Hours") taken_row (suc (length taken_row)) 1
        ≡ some i)
      × (is_undefined (field taken_row (key_of unary_host "Hours" i)) ≡ true))
free_suffix-key_of_example = free_suffix-key_of unary_host "Hours" taken_row show_nat-injective

abbrev sample_host : Host
sample_host = record {
  show_number = λ n. "n";
  parse_number = λ s. nan;
  to_lower = λ s. s;
  to_upper = λ s. s;
  encode = λ s. [];
  now = "2026-01-01T00:00:00.000Z";
}

abbrev effort_rows : List (List Value)
effort_rows =
    (text "Project No" ∷ text "Effort" ∷ text "Manager" ∷ [])
    ∷ (text "P-1" ∷ number (of_nat 1000) ∷ text "Ann" ∷ [])
    ∷ (text "P-2" ∷ number (of_nat 5) ∷ text "Bob" ∷ [])
    ∷ (text "P-3" ∷ null ∷ null ∷ [])
    ∷ []

abbrev sample_file : WorkbookFile
sample_file = record {
  id = "f1";
  sheets =
      record {
        name = "plan";
        status = SheetStatus.valid;
        is_selected = true;
        header_row_index = some 0;
        normalized_headers = none;
      }
      ∷ [];
  raw_data = ("plan", effort_rows) ∷ [];
}

abbrev sample_options : AuditOptions
sample_options = record { issue_scope = ""; run_code = none }

abbrev counts_of : AuditResult → ℕ × ℕ
counts_of r = (r.scanned_rows, r.flagged_rows)

run_audit-counts :
    counts_of (run_audit sample_host (λ s. nan) sample_file none sample_options).result ≡ (3, 2)
unfolding run_audit lookup insert master_data_rule_catalog
run_audit-counts = refl

build_audit_rules-IsCatalogued_example :
    All IsCatalogued (build_audit_rules sample_host (λ s. nan) create_default_audit_policy)
build_audit_rules-IsCatalogued_example =
    build_audit_rules-IsCatalogued sample_host (λ s. nan) create_default_audit_policy
