-- ===== src/Project/Stored.antt =====
-- projectStatuses.ts: reading the statuses from the JSON column of a tracking entry
-- (`parseProjectStatuses`). Every number that is stored is a count, so a number is a natural one.
pub mod Json
pub mod RoundTrip
use ses.Base.{
  ℕ, String, Bool, true, false, not, ◌&&◌, ◌||◌, Option, none, some, List, [], ◌∷◌, map, filter,
  length, str_eq, get_or, if◌then◌else◌,
}
use ses.Base.Dict.{Dict, lookup, insert}
use ses.Project.Functions.{FunctionId, function_name, function_ids}
use ses.Project.Statuses.{
  EngineSubStatus, open_status, resolved_status, na, LegacyStage, open_stage, acknowledged,
  corrected, resolved_stage, LegacyEvent, LegacyProjectTrackingRow, EngineProjectStatus,
  OverallStatus, overall_open, overall_resolved, overall_mixed, ProjectStatusesAggregate,
  ProjectStatusesV2, empty_project_statuses, recompute_aggregate,
}

-- A stored JSON value; `missing` is the `undefined` that a read of a missing property gives.
mutual
  pub data Stored : Type 0 where
    missing null_value : Stored
    count : ℕ → Stored
    word : String → Stored
    flag : Bool → Stored
    items : StoredItems → Stored
    dict : StoredFields → Stored

  pub data StoredItems : Type 0 where
    end_items : StoredItems
    next_item : Stored → StoredItems → StoredItems

  pub data StoredFields : Type 0 where
    end_fields : StoredFields
    next_field : String → Stored → StoredFields → StoredFields

-- What the language gives: `String(v)`, the text of the method `at` that texts and arrays have, and the
-- time.
pub record StoredHost : Type 0 where
  pub to_string : Stored → String
  pub at_method : String
  pub now : String

-- `fields[key]`.
unfoldable pub read : String → StoredFields → Stored
read key end_fields = missing
read key (next_field here value rest) =
    let later = read key rest in if str_eq here key then value else later

abbrev pub is_missing : Stored → Bool
is_missing missing = true
is_missing _ = false

-- `key in fields`.
unfoldable pub has : String → StoredFields → Bool
has key end_fields = false
has key (next_field here value rest) = str_eq here key || has key rest

-- `isRecord`, with the fields.
abbrev pub record_of : Stored → Option StoredFields
record_of (dict fs) = some fs
record_of _ = none

abbrev pub is_word : Stored → Bool
is_word (word s) = true
is_word _ = false

-- `String(v ?? fallback)`.
abbrev pub string_or : StoredHost → String → Stored → String
string_or host fallback missing = fallback
string_or host fallback null_value = fallback
string_or host fallback (word s) = s
string_or host fallback v = host.to_string v

abbrev pub is_legacy_row : Stored → Bool
is_legacy_row (dict fs) = is_word (read "stage" fs) && (has "projectNo" fs || has "feedback" fs)
is_legacy_row _ = false

abbrev pub legacy_stage : Stored → LegacyStage
legacy_stage (word s) =
    if str_eq s "acknowledged"
    then acknowledged
    else if str_eq s "corrected"
    then corrected
    else if str_eq s "resolved"
    then resolved_stage
    else open_stage
legacy_stage _ = open_stage

-- `String(channel)` of a property that is there.
abbrev channel_text : StoredHost → Stored → String
channel_text host (word s) = s
channel_text host v = host.to_string v

unfoldable pub legacy_event : StoredHost → Stored → LegacyEvent
unfolding read has
legacy_event host (dict fs) = record {
  channel = if has "channel" fs then channel_text host (read "channel" fs) else "manual";
  at = string_or host host.now (read "at" fs);
  note = string_or host "" (read "note" fs);
}
legacy_event host (word s) = record { channel = "manual"; at = host.at_method; note = "" }
legacy_event host (items vs) = record { channel = "manual"; at = host.at_method; note = "" }
legacy_event host v = record { channel = "manual"; at = host.now; note = "" }

unfoldable pub legacy_events : StoredHost → StoredItems → List LegacyEvent
unfolding legacy_event
legacy_events host end_items = []
legacy_events host (next_item v vs) = legacy_event host v ∷ legacy_events host vs

abbrev history_of : StoredHost → Stored → List LegacyEvent
history_of host (items vs) = legacy_events host vs
history_of host v = []

-- `coerceLegacyProjectStatus`.
unfoldable pub coerce_legacy_project_status :
    StoredHost → String → Stored → LegacyProjectTrackingRow
unfolding read legacy_events
coerce_legacy_project_status host project_no (dict fs) = record {
  project_no = string_or host project_no (read "projectNo" fs);
  stage = legacy_stage (read "stage" fs);
  feedback = string_or host "" (read "feedback" fs);
  history = history_of host (read "history" fs);
  updated_at = string_or host host.now (read "updatedAt" fs);
}
coerce_legacy_project_status host project_no v = record {
  project_no = project_no;
  stage = open_stage;
  feedback = "";
  history = [];
  updated_at = host.now;
}

abbrev pub count_of : Stored → ℕ
count_of (count n) = n
count_of _ = 0

abbrev pub sub_status_of : Stored → EngineSubStatus
sub_status_of (word s) =
    if str_eq s "open" then open_status else if str_eq s "resolved" then resolved_status else na
sub_status_of _ = na

abbrev pub text_or_null : Stored → Option String
text_or_null (word s) = some s
text_or_null _ = none

abbrev pub overall_from : String → OverallStatus
overall_from s =
    if str_eq s "open"
    then overall_open
    else if str_eq s "resolved"
    then overall_resolved
    else if str_eq s "mixed"
    then overall_mixed
    else overall_open

-- One cell of `byEngine`.
unfoldable pub engine_status_of : StoredFields → EngineProjectStatus
unfolding read
engine_status_of cell = record {
  open_count = count_of (read "openCount" cell);
  status = sub_status_of (read "status" cell);
  last_seen_run_id = text_or_null (read "lastSeenRunId" cell);
  resolved_at = text_or_null (read "resolvedAt" cell);
}

-- The loop over the functions.
unfoldable pub read_engines :
    StoredFields → List FunctionId → Dict EngineProjectStatus → Dict EngineProjectStatus
unfolding read insert engine_status_of
read_engines by_raw [] by_engine = by_engine
read_engines by_raw (id ∷ ids) by_engine =
    read_engines by_raw ids (elim (record_of (read (function_name id) by_raw)) [
      | some cell ↦ insert (function_name id) (engine_status_of cell) by_engine
      | none ↦ by_engine
    ])

unfoldable pub legacy_project_rows :
    StoredHost → StoredFields → Dict LegacyProjectTrackingRow → Dict LegacyProjectTrackingRow
unfolding coerce_legacy_project_status insert read has
legacy_project_rows host end_fields rows = rows
legacy_project_rows host (next_field key v rest) rows = legacy_project_rows host rest (
    if not (str_eq key "byEngine") && not (str_eq key "aggregate") && is_legacy_row v
    then insert key (coerce_legacy_project_status host key v) rows
    else rows)

abbrev is_count : Stored → Bool
is_count (count n) = true
is_count _ = false

-- The current form: `byEngine` and a complete `aggregate` are there.
abbrev pub current_form : StoredFields → Option (StoredFields × ProjectStatusesAggregate)
current_form fs = elim (record_of (read "byEngine" fs)) [
  | none ↦ none
  | some by_raw ↦ elim (record_of (read "aggregate" fs)) [
    | none ↦ none
    | some agg_raw ↦ elim (text_or_null (read "overallStatus" agg_raw)) [
      | none ↦ none
      | some overall ↦
          if is_count (read "totalOpen" agg_raw)
          then some (
            by_raw,
            record {
              total_open = count_of (read "totalOpen" agg_raw);
              overall_status = overall_from overall;
            },
          )
          else none
    ]
  ]
]

-- Without the current form: rows of the older form, or nothing that can be read.
abbrev from_legacy : Dict LegacyProjectTrackingRow → ProjectStatusesV2
from_legacy [] = recompute_aggregate empty_project_statuses
from_legacy (row ∷ rows) = record empty_project_statuses {
  aggregate = record { total_open = length (row ∷ rows); overall_status = overall_open };
  legacy_projects = some (row ∷ rows);
}

-- The fields of a stored record.
unfoldable pub parse_fields : StoredHost → StoredFields → ProjectStatusesV2
unfolding read read_engines legacy_project_rows empty_project_statuses recompute_aggregate
parse_fields host fs = elim (current_form fs) [
  | some found ↦ recompute_aggregate (record empty_project_statuses {
    by_engine = read_engines found.0 function_ids empty_project_statuses.by_engine;
    aggregate = found.1;
  })
  | none ↦ from_legacy (legacy_project_rows host fs [])
]

unfoldable pub parse_project_statuses : StoredHost → Stored → ProjectStatusesV2
unfolding parse_fields empty_project_statuses
parse_project_statuses host (dict fs) = parse_fields host fs
parse_project_statuses host v = empty_project_statuses
