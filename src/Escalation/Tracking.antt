-- ===== src/Escalation/Tracking.antt =====
-- tracking.ts: the column of the pipeline board that a tracking entry stands in. The stage of an
-- entry is its text, since the source also reads the texts of an older version.
pub mod Columns
use Prim.Native.String
use ses.Base.{
  ℕ, String, Bool, true, false, Option, none, List, [], ◌∷◌, ◌||◌, if◌then◌else◌, str_eq, ltb, leb,
}
use ses.Project.Statuses.{ProjectStatusesV2, empty_project_statuses}

pub data PipelineKey : Type 0 where
  not_contacted notified escalated resolved_column : PipelineKey

pub record TrackingEvent : Type 0 where
  pub channel : String
  pub at : String
  pub note : String

-- The fields that this component reads or writes.
pub record TrackingEntry : Type 0 where
  pub key : String
  pub process_id : String
  pub manager_name : String
  pub manager_email : String
  pub flagged_project_count : ℕ
  pub outlook_count : ℕ
  pub teams_count : ℕ
  pub last_contact_at : Option String
  pub stage : String
  pub escalation_level : ℕ
  pub is_resolved : Bool
  pub history : List TrackingEvent
  pub project_statuses : ProjectStatusesV2

unfoldable pub tracking_key : String → String → String
tracking_key process_id manager_email = String.◌++◌ process_id (String.◌++◌ ":" manager_email)

-- What stands behind the `switch`: `NEW`, `DRAFTED` and every unknown stage.
unfoldable pub by_counters : TrackingEntry → PipelineKey
by_counters entry =
    if ltb 0 entry.teams_count || leb 2 entry.outlook_count
    then escalated
    else if ltb 0 entry.outlook_count
    then notified
    else not_contacted

-- The `switch`; `counted` is what the code behind it returns.
unfoldable pub by_stage : String → PipelineKey → PipelineKey
by_stage stage counted =
    if str_eq stage "RESOLVED"
    then resolved_column
    else if str_eq stage "ESCALATED_L1" || str_eq stage "ESCALATED_L2" || str_eq stage "NO_RESPONSE"
    then escalated
    else if str_eq stage "SENT" || str_eq stage "AWAITING_RESPONSE" || str_eq stage "RESPONDED"
    then notified
    else counted

-- The tests of the older texts, which stand before the `switch`.
unfoldable pub by_legacy : String → PipelineKey → PipelineKey
by_legacy legacy staged =
    if str_eq legacy "Resolved"
    then resolved_column
    else if str_eq legacy "Teams escalated"
    then escalated
    else if str_eq legacy "Reminder 1 sent" || str_eq legacy "Reminder 2 sent"
    then notified
    else if str_eq legacy "Not contacted"
    then not_contacted
    else staged

unfoldable pub pipeline_key : TrackingEntry → PipelineKey
pipeline_key entry =
    if entry.is_resolved
    then resolved_column
    else by_legacy entry.stage (by_stage entry.stage (by_counters entry))

unfoldable pub make_default_tracking_entry : String → String → String → ℕ → TrackingEntry
unfolding tracking_key
make_default_tracking_entry process_id manager_name manager_email flagged_project_count = record {
  key = tracking_key process_id manager_email;
  process_id = process_id;
  manager_name = manager_name;
  manager_email = manager_email;
  flagged_project_count = flagged_project_count;
  outlook_count = 0;
  teams_count = 0;
  last_contact_at = none;
  stage = "NEW";
  escalation_level = 0;
  is_resolved = false;
  history = [];
  project_statuses = empty_project_statuses;
}
