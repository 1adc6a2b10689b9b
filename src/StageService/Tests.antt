-- ===== src/StageService/Tests.antt =====
-- The theorems about verification at a concrete entry.
use ses.Base.{◌+◌, ◌≡◌, refl, true, false, none, []}
use ses.Base.Result.{ok}
use ses.Escalation.Stages.{EscalationStage, can_transition}
use ses.StageService.{SessionUser, Store, Fresh, StageReply, verify, revert_verification}
use ses.StageService.Reversal.{revert_verification-verify}

abbrev auditor : SessionUser
auditor = record { id = "u1"; email = "ann@x.org"; is_admin = false }

abbrev admin : SessionUser
admin = record { id = "u2"; email = "bo@x.org"; is_admin = true }

abbrev first_call : Fresh
first_call = record { now = "2026-01-01T00:00:00.000Z"; event_id = "e1"; event_code = "TEV-1" }

abbrev second_call : Fresh
second_call = record { now = "2026-01-02T00:00:00.000Z"; event_id = "e2"; event_code = "TEV-2" }

abbrev open_store : Store
open_store = record {
  entry = record {
    id = "t1";
    process_id = "p1";
    display_code = "TRK-1";
    process_code = "PRC-1";
    stage = EscalationStage.responded;
    is_resolved = false;
    verified_by_id = none;
    verified_at = none;
    row_version = 4;
  };
  events = [];
  activity = [];
  sent = [];
}

revert_verification-verify_example :
    (reply : StageReply) × (after : Store) × (revert_verification second_call admin
        (verify first_call auditor open_store).1
      ≡ ok (reply, after))
    × (after.entry.is_resolved ≡ false)
    × (after.entry.verified_at ≡ none)
    × (after.entry.stage ≡ EscalationStage.resolved)
    × (can_transition after.entry.stage EscalationStage.sent ≡ false)
    × (after.entry.row_version ≡ open_store.entry.row_version + 2)
revert_verification-verify_example =
    revert_verification-verify first_call auditor open_store second_call admin EscalationStage.sent
      refl refl
