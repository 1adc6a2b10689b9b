-- ===== src/Project/Stored/Json.antt =====
-- projectStatuses.ts: the JSON of the statuses (`ProjectStatusesV2`) as the column stores it.
use ses.Base.{String, Option, none, some, List, [], ◌∷◌}
use ses.Base.Dict.{Dict}
use ses.Project.Statuses.{
  EngineSubStatus, open_status, resolved_status, na, LegacyStage, open_stage, acknowledged,
  corrected, resolved_stage, LegacyEvent, LegacyProjectTrackingRow, EngineProjectStatus,
  OverallStatus, overall_open, overall_resolved, overall_mixed, ProjectStatusesV2,
}
use ses.Project.Stored.{
  Stored, null_value, count, word, items, dict, StoredItems, end_items, next_item, StoredFields,
  end_fields, next_field,
}

abbrev pub stored_text : Option String → Stored
stored_text none = null_value
stored_text (some s) = word s

abbrev pub stored_status : EngineSubStatus → Stored
stored_status open_status = word "open"
stored_status resolved_status = word "resolved"
stored_status na = word "na"

abbrev pub stored_overall : OverallStatus → Stored
stored_overall overall_open = word "open"
stored_overall overall_resolved = word "resolved"
stored_overall overall_mixed = word "mixed"

abbrev pub stored_cell : EngineProjectStatus → StoredFields
stored_cell row = next_field "openCount" (count row.open_count) (
    next_field "status" (stored_status row.status) (
      next_field "lastSeenRunId" (stored_text row.last_seen_run_id)
        (next_field "resolvedAt" (stored_text row.resolved_at) end_fields)))

unfoldable pub stored_engines : Dict EngineProjectStatus → StoredFields
stored_engines [] = end_fields
stored_engines ((name, row) ∷ rest) = next_field name (dict (stored_cell row)) (stored_engines rest)

-- The column that holds the statuses, with whatever else is stored behind them.
unfoldable pub stored_statuses : ProjectStatusesV2 → StoredFields → Stored
unfolding stored_engines
stored_statuses s rest = dict (
    next_field "byEngine" (dict (stored_engines s.by_engine)) (
      next_field "aggregate"
        (dict (
          next_field "totalOpen" (count s.aggregate.total_open)
            (next_field "overallStatus" (stored_overall s.aggregate.overall_status) end_fields)))
        rest))

abbrev stored_stage : LegacyStage → String
stored_stage open_stage = "open"
stored_stage acknowledged = "acknowledged"
stored_stage corrected = "corrected"
stored_stage resolved_stage = "resolved"

unfoldable stored_history : List LegacyEvent → StoredItems
stored_history [] = end_items
stored_history (e ∷ es) =
    next_item
      (dict (
        next_field "channel" (word e.channel)
          (next_field "at" (word e.at) (next_field "note" (word e.note) end_fields))))
      (stored_history es)

unfoldable stored_rows : Dict LegacyProjectTrackingRow → StoredFields
unfolding stored_history
stored_rows [] = end_fields
stored_rows ((key, row) ∷ rows) =
    next_field key
      (dict (
        next_field "projectNo" (word row.project_no) (
          next_field "stage" (word (stored_stage row.stage)) (
            next_field "feedback" (word row.feedback) (
              next_field "history" (items (stored_history row.history))
                (next_field "updatedAt" (word row.updated_at) end_fields))))))
      (stored_rows rows)

unfoldable pub legacy_fields : Option (Dict LegacyProjectTrackingRow) → StoredFields
unfolding stored_rows
legacy_fields none = end_fields
legacy_fields (some rows) = next_field "legacyProjects" (dict (stored_rows rows)) end_fields

-- The JSON of a `ProjectStatusesV2`.
unfoldable pub to_stored : ProjectStatusesV2 → Stored
unfolding stored_statuses legacy_fields
to_stored s = stored_statuses s (legacy_fields s.legacy_projects)
