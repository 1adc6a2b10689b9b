-- ===== src/Sla/Tests.antt =====
-- The theorem about queued drafts at a concrete store, and a run of the engine on it.
use ses.Base.{◌≡◌, ◌≤◌, refl, none, some, List, [], ◌∷◌, map, filter}
use ses.Js.{Host, nan}
use ses.Escalation.Stages.{EscalationStage}
use ses.Pilot.{object, no_fields}
use ses.Sla.{SlaHost, SlaEntry, SlaStore, Draft, find_many, is_queued_for, enforce}
use ses.Sla.Drafts.{SlaStep, count_drafts, take_steps, take_steps-once}

abbrev sample_host : Host
sample_host = record {
  show_number = λ n. "n";
  parse_number = λ s. nan;
  to_lower = λ s. s;
  to_upper = λ s. s;
  encode = λ s. [];
  now = "2026-01-01T00:00:00.000Z";
}

abbrev sample_sla : SlaHost
sample_sla = record { parse_positive = λ s. none; show_json = λ v. "" }

abbrev entry_in : EscalationStage → SlaEntry
entry_in stage = record {
  id = "t1";
  process_id = "p1";
  process_code = "PRC-1";
  audit_policy = object no_fields;
  manager_name = "Ann";
  stage = stage;
  escalation_level = 0;
  sla_due_at = some 1000;
  row_version = 1;
}

abbrev sample_store : SlaStore
sample_store = record { entries = entry_in EscalationStage.sent ∷ []; events = []; notices = [] }

-- The entry is sent again after its first draft, and then escalated.
abbrev steps : List SlaStep
steps =
    SlaStep.run 2000
    ∷ SlaStep.change (entry_in EscalationStage.sent ∷ [])
    ∷ SlaStep.run 3000
    ∷ SlaStep.change (entry_in EscalationStage.escalated_l1 ∷ [])
    ∷ SlaStep.run 86400999
    ∷ SlaStep.run 86401000
    ∷ []

take_steps-run :
    map (λ e. e.payload_stage) (take_steps sample_sla sample_host steps sample_store).events
    ≡ "L1" ∷ "L2" ∷ []
unfolding enforce
take_steps-run = refl

take_steps-once_example :
    (count_drafts "t1" Draft.l1 (take_steps sample_sla sample_host steps sample_store).events ≤ 1)
    × (count_drafts "t1" Draft.l2 (take_steps sample_sla sample_host steps sample_store).events ≤ 1)
    × (find_many
          (is_queued_for "t1")
          20
          (take_steps sample_sla sample_host steps sample_store).events
        ≡ filter (is_queued_for "t1") (take_steps sample_sla sample_host steps sample_store).events)
take_steps-once_example = take_steps-once sample_sla sample_host "t1" steps sample_store refl
