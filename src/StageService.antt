-- ===== src/StageService.antt =====
-- apps/api/src/modules/tracking/stage/tracking-stage.service.ts: the verification of a tracking entry and
-- its reversal, after the entry has been loaded. The database and the log are explicit state; ids,
-- codes and the time are arguments.
mod Tests
pub mod Reversal
use ses.Base.{
  ℕ, ◌+◌, String, Bool, true, false, Option, none, some, List, [], ◌∷◌, ◌++◌, if◌then◌else◌,
}
use ses.Base.Result.{Result, ok, throw}
use ses.Escalation.Stages.{EscalationStage}

pub record SessionUser : Type 0 where
  pub id : String
  pub email : String
  pub is_admin : Bool

-- The columns of a tracking entry that the service reads and writes.
pub record TrackingRow : Type 0 where
  pub id : String
  pub process_id : String
  pub display_code : String
  pub process_code : String
  pub stage : EscalationStage
  pub is_resolved : Bool
  pub verified_by_id : Option String
  pub verified_at : Option String
  pub row_version : ℕ

pub record TrackingEvent : Type 0 where
  pub id : String
  pub display_code : String
  pub tracking_id : String
  pub kind : String
  pub channel : String
  pub note : String
  pub reason : String
  pub triggered_by_id : String

pub record ActivityEntry : Type 0 where
  pub actor_id : String
  pub actor_email : String
  pub process_id : String
  pub entity_type : String
  pub entity_id : String
  pub entity_code : String
  pub action : String

-- `tracking.updated`, as sent to the viewers of a process.
pub record UpdateMessage : Type 0 where
  pub process_code : String
  pub tracking_id : String
  pub stage : EscalationStage

pub record Store : Type 0 where
  pub entry : TrackingRow
  pub events : List TrackingEvent
  pub activity : List ActivityEntry
  pub sent : List UpdateMessage

-- What the host and the identifier service give to one call.
pub record Fresh : Type 0 where
  pub now : String
  pub event_id : String
  pub event_code : String

pub record StageReply : Type 0 where
  pub stage : EscalationStage
  pub verified_at : Option String

-- The parts of a call after the update of the row: the event, the log entry and the message.
unfoldable pub record_change :
    Fresh → SessionUser → String → String → String → String → TrackingRow → Store → Store
record_change fresh user kind note reason action row s = record {
  entry = row;
  events =
      s.events
      ++ record {
        id = fresh.event_id;
        display_code = fresh.event_code;
        tracking_id = row.id;
        kind = kind;
        channel = "manual";
        note = note;
        reason = reason;
        triggered_by_id = user.id;
      }
        ∷ [];
  activity =
      s.activity
      ++ record {
        actor_id = user.id;
        actor_email = user.email;
        process_id = row.process_id;
        entity_type = "tracking_entry";
        entity_id = row.id;
        entity_code = row.display_code;
        action = action;
      }
        ∷ [];
  sent =
      s.sent
      ++ record { process_code = row.process_code; tracking_id = row.id; stage = row.stage } ∷ [];
}

-- `update` of `verify`.
unfoldable pub verified_row : Fresh → SessionUser → TrackingRow → TrackingRow
verified_row fresh user row = record {
  id = row.id;
  process_id = row.process_id;
  display_code = row.display_code;
  process_code = row.process_code;
  stage = EscalationStage.resolved;
  is_resolved = true;
  verified_by_id = some user.id;
  verified_at = some fresh.now;
  row_version = row.row_version + 1;
}

-- `verify` after its reading of `verifiedAt`.
unfoldable pub verify_at : Fresh → SessionUser → Store → Option String → StageReply × Store
unfolding record_change verified_row
verify_at fresh user s (some at) = (record { stage = s.entry.stage; verified_at = some at }, s)
verify_at fresh user s none =
    let row = verified_row fresh user s.entry in
    (
      record { stage = row.stage; verified_at = some fresh.now },
      record_change fresh user "auditor_verified" "Auditor verified resolution." "verification"
          "tracking.verified" row s,
    )

unfoldable pub verify : Fresh → SessionUser → Store → StageReply × Store
unfolding verify_at
verify fresh user s = verify_at fresh user s s.entry.verified_at

-- `update` of `revertVerification`.
unfoldable pub reverted_row : TrackingRow → TrackingRow
reverted_row row = record {
  id = row.id;
  process_id = row.process_id;
  display_code = row.display_code;
  process_code = row.process_code;
  stage = row.stage;
  is_resolved = false;
  verified_by_id = none;
  verified_at = none;
  row_version = row.row_version + 1;
}

-- `revertVerification` after the check of the role and its reading of `verifiedAt`.
unfoldable pub revert_at : Fresh → SessionUser → Store → Option String → StageReply × Store
unfolding record_change reverted_row
revert_at fresh user s none = (record { stage = s.entry.stage; verified_at = none }, s)
revert_at fresh user s (some at) =
    let row = reverted_row s.entry in
    (
      record { stage = row.stage; verified_at = none },
      record_change fresh user "verification_reverted" "Verification reverted by admin."
          "verification_revert" "tracking.verification_reverted" row s,
    )

unfoldable pub revert_verification : Fresh → SessionUser → Store → Result (StageReply × Store)
unfolding revert_at
revert_verification fresh user s =
    if user.is_admin
    then ok (revert_at fresh user s s.entry.verified_at)
    else throw "Admin role required to revert verification."
