-- ===== src/Audit/Csv.antt =====
-- packages/domain/src/audit/auditEngine.ts: the export of findings as comma-separated values.
pub mod RoundTrip
use Prim.Native.Char.{code}
use Prim.Native.String
use ses.Base.{String, Option, none, some, get_or, List, [], ◌∷◌, map, ◌==◌, if◌then◌else◌}
use ses.Js.{Host, Value, text, number, to_text}
use ses.Js.Words.{join}
use ses.Audit.Issue.{AuditIssue, IssueCategory}
use ses.Audit.Compare.{severity_text, category_text}

-- `s.replaceAll('"', '""')`.
unfoldable pub double_quotes : String → String
double_quotes String.[] = String.[]
double_quotes (String.◌∷◌ c s) =
    let rest = double_quotes s in
    if code c == b'"' then String.◌∷◌ c (String.◌∷◌ c rest) else String.◌∷◌ c rest

unfoldable pub escape : Host → Value → String
unfolding double_quotes
escape host cell = String.◌++◌ "\"" (String.◌++◌ (double_quotes (to_text host cell)) "\"")

abbrev pub csv_header : List Value
csv_header =
    text "Severity"
    ∷ text "Project No"
    ∷ text "Project Name"
    ∷ text "Manager"
    ∷ text "Sheet"
    ∷ text "State"
    ∷ text "Effort"
    ∷ text "Rule"
    ∷ text "Category"
    ∷ text "Reason"
    ∷ text "Recommended Action"
    ∷ []

-- `issue.category ?? ''`.
abbrev pub category_or_blank : Option IssueCategory → String
category_or_blank none = ""
category_or_blank (some c) = category_text c

abbrev pub csv_cells : AuditIssue → List Value
csv_cells issue =
    text (severity_text issue.severity)
    ∷ text issue.project_no
    ∷ text issue.project_name
    ∷ text issue.project_manager
    ∷ text issue.sheet_name
    ∷ text issue.project_state
    ∷ number issue.effort
    ∷ text (get_or issue.rule_name issue.audit_status)
    ∷ text (category_or_blank issue.category)
    ∷ text (get_or issue.reason issue.notes)
    ∷ text (get_or issue.recommended_action "")
    ∷ []

unfoldable pub csv_row : Host → List Value → String
unfolding escape join
csv_row host row = join "," (map (escape host) row)

unfoldable pub build_issues_csv : Host → List AuditIssue → String
unfolding csv_row join
build_issues_csv host issues = join "\n" (map (csv_row host) (csv_header ∷ map csv_cells issues))
