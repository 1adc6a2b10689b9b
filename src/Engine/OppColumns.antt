-- ===== src/Engine/OppColumns.antt =====
-- functions-audit/opportunities/columns.ts: the headers of an opportunities export and the readings of
-- its cells.
use ses.Base.{
  String, Bool, true, false, ◌||◌, Option, none, some, List, [], ◌∷◌, map, contains, str_eq,
  is_empty, if◌then◌else◌,
}
use ses.Js.{
  Host, Number, Value, undefined, null, number, text, boolean, is_undefined, is_finite, of_nat,
  num_eq,
}
use ses.Js.Trim.{trim}
use ses.Workbook.{RowObject}
use ses.Workbook.Rows.{cell_text}

abbrev pub opp_project_no_aliases : List String
opp_project_no_aliases = "OPP_ID" ∷ "Opportunity ID" ∷ "Opp ID" ∷ "projectNo" ∷ []

abbrev pub opp_name_aliases : List String
opp_name_aliases = "Opportunity" ∷ "Opportunity Name" ∷ "projectName" ∷ []

abbrev pub opp_country_aliases : List String
opp_country_aliases = "Country" ∷ "country" ∷ []

abbrev pub opp_probability_aliases : List String
opp_probability_aliases = "Probability" ∷ "probability" ∷ "Prob" ∷ []

abbrev pub opp_category_aliases : List String
opp_category_aliases = "Category" ∷ "category" ∷ []

abbrev pub opp_business_unit_aliases : List String
opp_business_unit_aliases = "Business Unit" ∷ "businessUnit" ∷ "BU" ∷ []

abbrev pub opp_bcs_flag_aliases : List String
opp_bcs_flag_aliases = "BCS_FLAG" ∷ "BCS Flag" ∷ "bcsFlag" ∷ []

abbrev pub opp_prj_start_past_aliases : List String
opp_prj_start_past_aliases = "PRJ_START_IN_PAST" ∷ "Project Start In Past" ∷ []

abbrev pub opp_cls_date_past_aliases : List String
opp_cls_date_past_aliases = "CLS_DATE_IN_PAST" ∷ "Close Date In Past" ∷ []

abbrev pub opp_owner_aliases : List String
opp_owner_aliases =
    "Opportunity Owner" ∷ "opportunity owner" ∷ "OpportunityOwner" ∷ "Owner" ∷ "owner" ∷ []

-- The loop over the keys of the row.
unfoldable pub read_trimmed : RowObject → List String → Value
unfolding trim
read_trimmed [] wanted = undefined
read_trimmed ((key, value) ∷ row) wanted =
    let rest = read_trimmed row wanted in
    if contains wanted (trim key) then if is_undefined value then rest else value else rest

-- `readCell` of this engine: the exact headers first, then those that differ by surrounding spaces.
unfoldable pub read_opp_cell : RowObject → List String → Value
unfolding read_trimmed trim
read_opp_cell row aliases =
    let direct = ses.Workbook.Rows.read_cell row aliases in
    if is_undefined direct then read_trimmed row (map trim aliases) else direct

unfoldable pub read_boolean : Host → Value → Bool
unfolding trim num_eq of_nat
read_boolean host (boolean b) = b
read_boolean host (number n) = num_eq n (of_nat 1)
read_boolean host (text s) =
    let trimmed = host.to_lower (trim s) in str_eq trimmed "true" || str_eq trimmed "1"
read_boolean host _ = false

abbrev finite_only : Number → Option Number
finite_only n = if is_finite n then some n else none

abbrev parse_text : Host → String → Option Number
parse_text host t = if is_empty t then none else finite_only (host.parse_number t)

unfoldable pub read_number : Host → Value → Option Number
unfolding cell_text
read_number host undefined = none
read_number host null = none
read_number host (number n) = finite_only n
read_number host value = parse_text host (cell_text host value)

unfoldable pub is_bcs_missing : Host → Value → Bool
unfolding cell_text
is_bcs_missing host undefined = false
is_bcs_missing host null = false
is_bcs_missing host value = str_eq (cell_text host value) "#"

unfoldable pub is_bcs_blank : Host → Value → Bool
unfolding cell_text
is_bcs_blank host undefined = true
is_bcs_blank host null = true
is_bcs_blank host value = is_empty (cell_text host value)

unfoldable pub read_text : Host → RowObject → List String → String
unfolding read_opp_cell cell_text
read_text host row aliases = cell_text host (read_opp_cell row aliases)
