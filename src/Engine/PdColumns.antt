-- ===== src/Engine/PdColumns.antt =====
-- functions-audit/over-planning/columns.ts: the monthly PD columns of a sheet.

use ses.Base.{
  ℕ, ◌-◌, min, String, Bool, false, ◌||◌, ◌&&◌, List, [], ◌∷◌, if◌then◌else◌, any, contains, length,
  ltb, leb,
}
use ses.Js.{Host, Value}
use ses.Js.Words.{words, join, includes, all_months, is_month_number, is_year}
use ses.Engine.Columns.{ColumnInfo, best_single, best_merged}

abbrev pub op_project_no_aliases : List String
op_project_no_aliases =
    "Project No." ∷ "Project No" ∷ "Project Number" ∷ "projectNo" ∷ "Project ID" ∷ []

abbrev pub op_project_name_aliases : List String
op_project_name_aliases = "Project" ∷ "Project Name" ∷ "projectName" ∷ "Name" ∷ []

abbrev pub op_state_aliases : List String
op_state_aliases = "Project State" ∷ "projectState" ∷ "State" ∷ []

abbrev pub op_manager_aliases : List String
op_manager_aliases = "Project Manager" ∷ "projectManager" ∷ "Manager" ∷ []

abbrev pub op_email_aliases : List String
op_email_aliases = "Project Manager Email" ∷ "Manager Email" ∷ "email" ∷ "Email" ∷ []

unfoldable pub normalize_for_pd_match : Host → String → List String
unfolding words
normalize_for_pd_match host s = words (host.to_lower s)

unfoldable pub is_pd_column : Host → String → Bool
unfolding normalize_for_pd_match join includes is_month_number is_year
is_pd_column host header =
    let ws = normalize_for_pd_match host header in
    if contains ws "pd"
    then any (includes (join " " ws)) all_months || any is_month_number ws || any is_year ws
    else false

abbrev pub above_width : List Value → List Value → ℕ
above_width above below = length above

abbrev pub pd_header_scan : ℕ
pd_header_scan = 3

unfoldable pub detect_pd_columns : Host → List (List Value) → List ColumnInfo
unfolding best_single best_merged is_pd_column
detect_pd_columns host rows =
    let scan_limit = min pd_header_scan (length rows) in
    let best_s = best_single host (is_pd_column host) scan_limit rows [] in
    let best_m = best_merged host (is_pd_column host) above_width (scan_limit - 1) rows [] in
    if leb (length best_s) (length best_m) && ltb 0 (length best_m) then best_m else best_s
