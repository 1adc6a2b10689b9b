-- ===== src/Audit/Issue.antt =====
-- core/types.ts: findings and audit results; auditEngine.ts: the keys of a finding.
use Prim.Native.String
use ses.Base.{ℕ, zero, suc, String, Option, List, [], ◌∷◌, get_or, or_else}
use ses.Js.{Host, Number, show_nat}
use ses.Js.Trim.{trim, strip_spaces}
use ses.Js.Words.{join}
use ses.Audit.Sha1.{sha1_hex}

pub data Severity : Type 0 where
  high medium low : Severity

pub data IssueCategory : Type 0 where
  overplanning missing_planning function_rate internal_cost_rate other_category : IssueCategory
  effort_threshold missing_data planning_risk capacity_risk data_quality needs_review :
      IssueCategory

-- A finding. The optional fields that the comparison and the export read are optional here; of the
-- others there are those that every engine writes.
pub record AuditIssue : Type 0 where
  pub id : String
  pub issue_key : Option String
  pub project_no : String
  pub project_name : String
  pub sheet_name : String
  pub severity : Severity
  pub project_manager : String
  pub project_state : String
  pub effort : Number
  pub audit_status : String
  pub notes : String
  pub row_index : ℕ
  pub email : Option String
  pub rule_code : String
  pub rule_version : ℕ
  pub rule_name : Option String
  pub audit_run_code : Option String
  pub category : Option IssueCategory
  pub reason : Option String
  pub threshold_label : String
  pub recommended_action : Option String
  pub missing_months : Option (List String)
  pub zero_month_count : Option ℕ

pub record SheetAuditResult : Type 0 where
  pub sheet_name : String
  pub row_count : ℕ
  pub flagged_count : ℕ

pub record AuditResult : Type 0 where
  pub file_id : String
  pub run_at : String
  pub scanned_rows : ℕ
  pub flagged_rows : ℕ
  pub issues : List AuditIssue
  pub sheets : List SheetAuditResult

-- `RunAuditOptions`, `FunctionAuditOptions`. An empty scope is falsy, so it counts as none.
pub record AuditOptions : Type 0 where
  pub issue_scope : String
  pub run_code : Option String

-- The fields of a catalogue entry that the engines read.
pub record RuleCatalogEntry : Type 0 where
  pub rule_code : String
  pub name : String
  pub category : IssueCategory
  pub default_severity : Severity
  pub version : ℕ

unfoldable pub normalize_project_no : Host → String → String
unfolding trim strip_spaces
normalize_project_no host value = strip_spaces (host.to_upper (trim value))

-- `s.slice(0, n)`.
unfoldable pub take_chars : ℕ → String → String
take_chars zero s = String.[]
take_chars (suc n) String.[] = String.[]
take_chars (suc n) (String.◌∷◌ c s) = String.◌∷◌ c (take_chars n s)

-- What `createIssueKey` reads of a finding.
pub record KeyParts : Type 0 where
  pub project_no : String
  pub sheet_name : String
  pub row_index : ℕ
  pub rule_code : Option String
  pub rule_id : Option String

unfoldable pub key_payload : Host → String → KeyParts → String
unfolding normalize_project_no join
key_payload host scope_key issue =
    let normalized_project = normalize_project_no host issue.project_no in
    let project_part =
      or_else normalized_project (String.◌++◌ "ROW-" (show_nat host issue.row_index)) in
    let rule_part = get_or issue.rule_code (get_or issue.rule_id "RUL-UNKNOWN") in
    join "|" (scope_key ∷ issue.sheet_name ∷ project_part ∷ rule_part ∷ [])

unfoldable pub create_issue_key : Host → String → KeyParts → String
unfolding key_payload sha1_hex take_chars
create_issue_key host scope_key issue =
    let digest =
      host.to_upper (take_chars 6 (sha1_hex (host.encode (key_payload host scope_key issue)))) in
    String.◌++◌ "IKY-" digest
