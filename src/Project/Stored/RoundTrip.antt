-- ===== src/Project/Stored/RoundTrip.antt =====
-- Statuses that are written to the column are read back.
use ses.Base.{
  ℕ, ◌≡◌, refl, ap, ◌∙◌, String, true, Option, none, some, List, [], ◌∷◌, str_eq, arith, eq_iff,
  any, get_or, if◌then◌else◌,
}
use ses.Base.Dict.{Dict, lookup, insert, lookup-insert}
use ses.Project.Functions.{FunctionId, function_name, function_ids}
use ses.Project.Statuses.{
  EngineSubStatus, open_status, resolved_status, na, EngineProjectStatus, LegacyProjectTrackingRow,
  empty_engine_status, OverallStatus, overall_open, overall_resolved, overall_mixed,
  ProjectStatusesV2, empty_project_statuses, row_of, recompute_aggregate, fill_empty, consider,
  is_na, overall_of,
}
use ses.Project.Stored.Json.{
  stored_text, stored_status, stored_cell, stored_engines, stored_statuses,
}
use ses.Project.Stored.{
  StoredFields, StoredHost, read, record_of, sub_status_of, text_or_null, engine_status_of,
  read_engines, parse_fields, parse_project_statuses,
}

sub_status_of-stored_status : (s : EngineSubStatus) → sub_status_of (stored_status s) ≡ s
sub_status_of-stored_status open_status = refl
sub_status_of-stored_status resolved_status = refl
sub_status_of-stored_status na = refl

text_or_null-stored_text : (t : Option String) → text_or_null (stored_text t) ≡ t
text_or_null-stored_text none = refl
text_or_null-stored_text (some s) = refl

engine_status_of-stored_cell :
    (row : EngineProjectStatus) → engine_status_of (stored_cell row) ≡ row
unfolding engine_status_of read
engine_status_of-stored_cell row =
    rw
      (
        sub_status_of-stored_status row.status,
        text_or_null-stored_text row.last_seen_run_id,
        text_or_null-stored_text row.resolved_at,
      )
      refl

-- What the loop takes from the stored record for a name.
cell_at : StoredFields → String → Option EngineProjectStatus
unfolding read
cell_at raw name = elim (record_of (read name raw)) [
  | some cell ↦ some (engine_status_of cell)
  | none ↦ none
]

abbrev first_of :
    Option EngineProjectStatus → Option EngineProjectStatus → Option EngineProjectStatus
first_of (some row) other = some row
first_of none other = other

cell_at-stored_engines :
    (d : Dict EngineProjectStatus) (name : String) → cell_at (stored_engines d) name ≡ lookup name d
unfolding cell_at read stored_engines lookup
cell_at-stored_engines [] name = refl
cell_at-stored_engines ((here, row) ∷ d) name =
    ground
      (arith, eq_iff here name, engine_status_of-stored_cell row, cell_at-stored_engines d name)

cell_of : Option StoredFields → Option EngineProjectStatus
cell_of none = none
cell_of (some cell) = some (engine_status_of cell)

-- One round of the loop.
round : String → Option StoredFields → Dict EngineProjectStatus → Dict EngineProjectStatus
round key found d = elim found [ some cell ↦ insert key (engine_status_of cell) d | none ↦ d ]

lookup-round :
    (key name : String) (found : Option StoredFields) (d : Dict EngineProjectStatus)
    → lookup name (round key found d)
      ≡ (if str_eq key name then first_of (cell_of found) (lookup name d) else lookup name d)
unfolding round cell_of
lookup-round key name none d = ground arith
lookup-round key name (some cell) d = rw (lookup-insert key name (engine_status_of cell) d) refl

first_of-twice : (a b : Option EngineProjectStatus) → first_of a (first_of a b) ≡ first_of a b
first_of-twice none b = refl
first_of-twice (some row) b = refl

lookup-read_engines :
    (raw : StoredFields) (ids : List FunctionId) (d : Dict EngineProjectStatus) (name : String)
    → lookup name (read_engines raw ids d) ≡ (
        if any (λ id. str_eq (function_name id) name) ids
        then first_of (cell_at raw name) (lookup name d)
        else lookup name d)
unfolding read_engines cell_at round cell_of
lookup-read_engines raw [] d name = refl
lookup-read_engines raw (id ∷ ids) d name =
    let key = function_name id in
    let found = record_of (read key raw) in
    ground (
      arith,
      eq_iff key name,
      lookup-read_engines raw ids (round key found d) name,
      lookup-round key name found d,
      first_of-twice (cell_at raw name) (lookup name d),
    )

base_empty :
    (id : FunctionId)
    → lookup (function_name id) empty_project_statuses.by_engine ≡ some empty_engine_status
unfolding empty_project_statuses fill_empty insert lookup
base_empty FunctionId.master_data = refl
base_empty FunctionId.over_planning = refl
base_empty FunctionId.missing_plan = refl
base_empty FunctionId.function_rate = refl
base_empty FunctionId.internal_cost_rate = refl
base_empty FunctionId.opportunities = refl

is_known :
    (id : FunctionId) → any (λ i. str_eq (function_name i) (function_name id)) function_ids ≡ true
is_known FunctionId.master_data = refl
is_known FunctionId.over_planning = refl
is_known FunctionId.missing_plan = refl
is_known FunctionId.function_rate = refl
is_known FunctionId.internal_cost_rate = refl
is_known FunctionId.opportunities = refl

get_or-first_of :
    (found : Option EngineProjectStatus)
    → get_or (first_of found (some empty_engine_status)) empty_engine_status
      ≡ get_or found empty_engine_status
get_or-first_of none = refl
get_or-first_of (some row) = refl

row_of-read_engines :
    (d : Dict EngineProjectStatus) (id : FunctionId)
    → row_of (read_engines (stored_engines d) function_ids empty_project_statuses.by_engine) id
      ≡ row_of d id
row_of-read_engines d id =
    let name = function_name id in
    rw
      (
        lookup-read_engines (stored_engines d) function_ids empty_project_statuses.by_engine name,
        is_known id,
        base_empty id,
        get_or-first_of (cell_at (stored_engines d) name),
        cell_at-stored_engines d name,
      )
      refl

consider_ext :
    (b b' : Dict EngineProjectStatus) (ids : List FunctionId)
    → ((id : FunctionId) → row_of b id ≡ row_of b' id)
    → (total_open : ℕ) (considered : List EngineSubStatus)
    → consider b ids total_open considered ≡ consider b' ids total_open considered
unfolding consider
consider_ext b b' [] h total_open considered = refl
consider_ext b b' (id ∷ ids) h total_open considered =
    rw (h id, consider_ext b b' ids h total_open considered)
      (ap (λ r. if is_na (row_of b' id).status then consider b' ids total_open considered else r)
        (consider_ext b b' ids h _ _))

-- What is read, before the aggregate is recomputed.
loaded : ProjectStatusesV2 → ProjectStatusesV2
unfolding stored_engines read_engines empty_project_statuses
loaded s = record empty_project_statuses {
  by_engine =
      read_engines (stored_engines s.by_engine) function_ids empty_project_statuses.by_engine;
  aggregate = s.aggregate;
}

abbrev statuses_of :
    Dict EngineProjectStatus
    → ℕ
    → OverallStatus
    → Option (Dict LegacyProjectTrackingRow)
    → ProjectStatusesV2
statuses_of by_engine total_open o legacy_projects = record {
  by_engine = by_engine;
  aggregate = record { total_open = total_open; overall_status = o };
  legacy_projects = legacy_projects;
}

loaded_parts :
    (host : StoredHost) (by_engine : Dict EngineProjectStatus) (total_open : ℕ) (o : OverallStatus)
    (legacy_projects : Option (Dict LegacyProjectTrackingRow)) (rest : StoredFields)
    → parse_project_statuses host
        (stored_statuses (statuses_of by_engine total_open o legacy_projects) rest)
      ≡ recompute_aggregate (loaded (statuses_of by_engine total_open o legacy_projects))
unfolding parse_project_statuses parse_fields stored_statuses read loaded
loaded_parts host by_engine total_open overall_open legacy_projects rest = refl
loaded_parts host by_engine total_open overall_resolved legacy_projects rest = refl
loaded_parts host by_engine total_open overall_mixed legacy_projects rest = refl

parse_project_statuses-loaded :
    (host : StoredHost) (s : ProjectStatusesV2) (rest : StoredFields)
    → parse_project_statuses host (stored_statuses s rest) ≡ recompute_aggregate (loaded s)
parse_project_statuses-loaded host s rest =
    loaded_parts host s.by_engine s.aggregate.total_open s.aggregate.overall_status
      s.legacy_projects rest

-- Statuses that are stored are read back: each function has the row that it had, the aggregate is the
-- recomputed one, and rows of the older form that are stored beside it are not read.
pub parse_project_statuses-stored :
    (host : StoredHost) (s : ProjectStatusesV2) (rest : StoredFields)
    → ((id : FunctionId)
        → row_of (parse_project_statuses host (stored_statuses s rest)).by_engine id
          ≡ row_of s.by_engine id)
      × ((parse_project_statuses host (stored_statuses s rest)).aggregate
          ≡ (recompute_aggregate s).aggregate)
      × ((parse_project_statuses host (stored_statuses s rest)).legacy_projects ≡ none)
unfolding recompute_aggregate loaded empty_project_statuses
parse_project_statuses-stored host s rest =
    let kept = row_of-read_engines s.by_engine in
    let read_back = parse_project_statuses-loaded host s rest in
    (
      λ id. ap (λ r. row_of r.by_engine id) read_back ∙ kept id,
      ap (λ r. r.aggregate) read_back
          ∙ ap (λ r. record { total_open = r.0; overall_status = overall_of r.1 })
              (consider_ext _ s.by_engine function_ids kept 0 []),
      ap (λ r. r.legacy_projects) read_back,
    )
