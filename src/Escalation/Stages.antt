-- ===== src/Escalation/Stages.antt =====
-- escalationStages.ts: the stages of an escalation, the table of legal moves and `transition`.
-- A thrown error is `throw` with its message. Escalation levels are natural numbers.
pub mod Invariant
pub mod Reach
use Prim.Native.String
use mathlib.Core.Logic.{ite}
use ses.Base.{
  ℕ, max, String, Bool, true, false, List, [], ◌∷◌, ◌++◌, map, ◌==◌, contains, any, if◌then◌else◌,
  concat_map,
}
use ses.Base.Result.{Result, ok, throw}

pub data EscalationStage : Type 0 where
  new drafted sent awaiting_response responded no_response : EscalationStage
  escalated_l1 escalated_l2 resolved : EscalationStage

abbrev pub stage_name : EscalationStage → String
stage_name new = "NEW"
stage_name drafted = "DRAFTED"
stage_name sent = "SENT"
stage_name awaiting_response = "AWAITING_RESPONSE"
stage_name responded = "RESPONDED"
stage_name no_response = "NO_RESPONSE"
stage_name escalated_l1 = "ESCALATED_L1"
stage_name escalated_l2 = "ESCALATED_L2"
stage_name resolved = "RESOLVED"

abbrev pub escalation_stages : List EscalationStage
escalation_stages =
    new ∷ drafted ∷ sent ∷ awaiting_response ∷ responded ∷ no_response ∷ escalated_l1 ∷ escalated_l2
    ∷ resolved ∷ []

unfoldable pub is_escalation_stage : String → Bool
is_escalation_stage value = contains (map stage_name escalation_stages) value

-- `LEGAL`.
abbrev pub legal : EscalationStage → List EscalationStage
legal new = drafted ∷ sent ∷ awaiting_response ∷ resolved ∷ []
legal drafted = new ∷ sent ∷ []
legal sent = awaiting_response ∷ responded ∷ no_response ∷ resolved ∷ []
legal awaiting_response = responded ∷ no_response ∷ sent ∷ escalated_l1 ∷ resolved ∷ []
legal responded = resolved ∷ awaiting_response ∷ no_response ∷ []
legal no_response = escalated_l1 ∷ sent ∷ awaiting_response ∷ resolved ∷ []
legal escalated_l1 = escalated_l2 ∷ sent ∷ awaiting_response ∷ resolved ∷ no_response ∷ []
legal escalated_l2 = resolved ∷ sent ∷ no_response ∷ awaiting_response ∷ []
legal resolved = []

-- Stages are nine different strings in the source; `===` on them is equality of their positions in
-- `ESCALATION_STAGES`.
abbrev pub stage_index : EscalationStage → ℕ
stage_index new = 0
stage_index drafted = 1
stage_index sent = 2
stage_index awaiting_response = 3
stage_index responded = 4
stage_index no_response = 5
stage_index escalated_l1 = 6
stage_index escalated_l2 = 7
stage_index resolved = 8

abbrev pub stage_eq : EscalationStage → EscalationStage → Bool
stage_eq a b = stage_index a == stage_index b

unfoldable pub can_transition : EscalationStage → EscalationStage → Bool
can_transition from to = if stage_eq from to then false else any (stage_eq to) (legal from)

unfoldable pub assert_transition : EscalationStage → EscalationStage → Result (Unit {0})
assert_transition from to =
    if can_transition from to
    then ok tt
    else throw (
        String.◌++◌ "Illegal escalation transition "
          (String.◌++◌ (stage_name from) (String.◌++◌ " -> " (stage_name to))))

unfoldable pub all_stage_pairs : List (EscalationStage × EscalationStage)
all_stage_pairs = concat_map (λ from. map (λ to. (from, to)) escalation_stages) escalation_stages

pub record TransitionActor : Type 0 where
  pub id : String
  pub email : String
  pub display_name : String

pub record TransitionSlice : Type 0 where
  pub stage : EscalationStage
  pub escalation_level : ℕ
  pub is_resolved : Bool

pub record EventPayload : Type 0 where
  pub previous_stage : EscalationStage
  pub next_stage : EscalationStage
  pub reason : String
  pub actor : TransitionActor
  pub source_action : String

-- `from` is not read in the source either.
abbrev pub next_escalation_level : EscalationStage → EscalationStage → ℕ → ℕ
next_escalation_level from resolved current = 0
next_escalation_level from escalated_l1 current = max current 1
next_escalation_level from escalated_l2 current = 2
next_escalation_level from to current = current

abbrev pub next_slice : TransitionSlice → EscalationStage → TransitionSlice
next_slice entry to = record {
  stage = to;
  escalation_level = next_escalation_level entry.stage to entry.escalation_level;
  is_resolved = if stage_eq to resolved then true else entry.is_resolved;
}

abbrev pub event_payload :
    TransitionSlice → EscalationStage → TransitionActor → String → String → EventPayload
event_payload entry to actor reason source_action = record {
  previous_stage = entry.stage;
  next_stage = to;
  reason = reason;
  actor = actor;
  source_action = source_action;
}

unfoldable pub transition :
    TransitionSlice
    → EscalationStage
    → TransitionActor
    → String
    → String
    → Result (TransitionSlice × EventPayload)
transition entry to actor reason source_action =
    if can_transition entry.stage to
    then ok (next_slice entry to, event_payload entry to actor reason source_action)
    else throw (
        String.◌++◌ "Illegal transition "
          (String.◌++◌ (stage_name entry.stage) (String.◌++◌ " -> " (stage_name to))))
