-- ===== src/Sla.antt =====
-- apps/api/src/modules/escalations/sla-engine.service.ts: the engine that queues a draft when a tracking
-- entry has passed its due date. The tables are explicit state and the times are in milliseconds; the
-- ids and codes of new events are left out.
pub mod Drafts
mod Tests
use Prim.Native.String
use ses.Base.{
  ℕ, ◌+◌, ◌*◌, zero, suc, String, Bool, true, false, not, ◌&&◌, ◌||◌, Option, none, some, List, [],
  ◌∷◌, ◌++◌, map, filter, any, str_eq, is_some, leb, ltb, get_or, if◌then◌else◌,
}
use ses.Js.{Host, Value, to_text}
use ses.Js.Words.{join}
use ses.Escalation.Stages.{EscalationStage, stage_eq}
use ses.Pilot.{Json, plain, array, object, Fields, no_fields, get}

-- The columns of a tracking entry that the engine reads and writes, with those of its process.
pub record SlaEntry : Type 0 where
  pub id : String
  pub process_id : String
  pub process_code : String
  pub audit_policy : Json
  pub manager_name : String
  pub stage : EscalationStage
  pub escalation_level : ℕ
  pub sla_due_at : Option ℕ
  pub row_version : ℕ

-- A tracking event: its kind, and the stage in its payload.
pub record SlaEvent : Type 0 where
  pub tracking_id : String
  pub kind : String
  pub payload_stage : String

pub record SlaNotice : Type 0 where
  pub message : String
  pub link : String
  pub process_id : String

pub record SlaStore : Type 0 where
  pub entries : List SlaEntry
  pub events : List SlaEvent
  pub notices : List SlaNotice

-- `Number.parseInt(text, 10)` where it is a positive number; `String(v)` of an array or an object.
pub record SlaHost : Type 0 where
  pub parse_positive : String → Option ℕ
  pub show_json : Json → String

-- The kind of the events that the engine writes.
abbrev pub queued_kind : String
queued_kind = "sla_draft_queued"

abbrev pub default_delay_hours : ℕ
default_delay_hours = 24

abbrev delay_text : SlaHost → Host → Json → String
delay_text sla host (plain v) = to_text host v
delay_text sla host v = sla.show_json v

abbrev escalation_of : Json → Fields
escalation_of (object policy) = elim (get "escalation" policy) [
  | object escalation ↦ escalation
  | _ ↦ no_fields
]
escalation_of _ = no_fields

-- `policy.l2DelayHours` of `policyFromProcessAuditPolicy`.
unfoldable pub l2_delay_hours : SlaHost → Host → Json → ℕ
unfolding get
l2_delay_hours sla host audit_policy =
    get_or
      (sla.parse_positive (delay_text sla host (get "l2DelayHours" (escalation_of audit_policy))))
      default_delay_hours

-- The draft to queue: the first level, the second level, or none.
pub data Draft : Type 0 where
  l1 l2 : Draft

abbrev pub draft_name : Draft → String
draft_name Draft.l1 = "L1"
draft_name Draft.l2 = "L2"

abbrev pub draft_level : Draft → ℕ
draft_level Draft.l1 = 1
draft_level Draft.l2 = 2

unfoldable pub stage_to_queue : EscalationStage → Option Draft
stage_to_queue stage =
    if stage_eq stage EscalationStage.sent || stage_eq stage EscalationStage.awaiting_response
    then some Draft.l1
    else if stage_eq stage EscalationStage.escalated_l1
    then some Draft.l2
    else none

-- `findMany({ where, take })`: the first rows that satisfy the condition.
unfoldable pub find_many {ℓ} : {A : Type ℓ} → (A → Bool) → ℕ → List A → List A
find_many p zero rows = []
find_many p (suc n) [] = []
find_many p (suc n) (row ∷ rows) =
    let taken = row ∷ find_many p n rows in
    let passed = find_many p (suc n) rows in if p row then taken else passed

unfoldable pub is_queued_for : String → SlaEvent → Bool
is_queued_for id event = str_eq event.tracking_id id && str_eq event.kind queued_kind

unfoldable pub already_queued : String → Draft → List SlaEvent → Bool
unfolding find_many is_queued_for
already_queued id draft events =
    any (λ event. str_eq event.payload_stage (draft_name draft))
      (find_many (is_queued_for id) 20 events)

-- The update of the entry.
unfoldable pub breached : Draft → SlaEntry → SlaEntry
breached draft entry = record entry {
  stage = EscalationStage.no_response;
  escalation_level = draft_level draft;
  row_version = entry.row_version + 1;
}

-- The part of `handleEntry` behind its guards.
unfoldable pub queue_draft : SlaEntry → Draft → SlaStore → SlaStore
unfolding breached join
queue_draft entry draft s = record {
  entries = map (λ e. if str_eq e.id entry.id then breached draft e else e) s.entries;
  events =
      s.events
      ++ record { tracking_id = entry.id; kind = queued_kind; payload_stage = draft_name draft }
        ∷ [];
  notices =
      s.notices
      ++ record {
        message =
            join ""
              (entry.manager_name ∷ " breached SLA - " ∷ draft_name draft ∷ " draft queued" ∷ []);
        link = join "" ("/processes/" ∷ entry.process_code ∷ "/escalations" ∷ []);
        process_id = entry.process_id;
      }
        ∷ [];
}

-- The second level waits for its delay after the due date.
unfoldable pub is_waiting : SlaHost → Host → ℕ → SlaEntry → ℕ → Draft → Bool
unfolding l2_delay_hours
is_waiting sla host now entry due Draft.l1 = false
is_waiting sla host now entry due Draft.l2 =
    ltb now (due + l2_delay_hours sla host entry.audit_policy * 3600000)

-- `handleEntry` after its readings of the entry, the due date and the stage.
unfoldable pub handle_draft :
    SlaHost → Host → ℕ → SlaEntry → Option ℕ → Option Draft → SlaStore → SlaStore
unfolding is_waiting already_queued queue_draft
handle_draft sla host now entry none draft s = s
handle_draft sla host now entry (some due) none s = s
handle_draft sla host now entry (some due) (some draft) s =
    if is_waiting sla host now entry due draft || already_queued entry.id draft s.events
    then s
    else queue_draft entry draft s

unfoldable pub find_sla_entry : String → List SlaEntry → Option SlaEntry
find_sla_entry id [] = none
find_sla_entry id (entry ∷ entries) =
    if str_eq entry.id id then some entry else find_sla_entry id entries

abbrev handle_found : SlaHost → Host → ℕ → Option SlaEntry → SlaStore → SlaStore
handle_found sla host now none s = s
handle_found sla host now (some entry) s =
    handle_draft sla host now entry entry.sla_due_at (stage_to_queue entry.stage) s

unfoldable pub handle_entry : SlaHost → Host → ℕ → String → SlaStore → SlaStore
unfolding handle_draft stage_to_queue find_sla_entry
handle_entry sla host now id s = handle_found sla host now (find_sla_entry id s.entries) s

-- The `where` of `enforce`.
unfoldable pub is_due : ℕ → SlaEntry → Bool
unfolding stage_to_queue
is_due now entry =
    is_some (stage_to_queue entry.stage)
    && elim entry.sla_due_at [ none ↦ false | some due ↦ leb due now ]

-- The loop of `enforce`.
unfoldable pub handle_all : SlaHost → Host → ℕ → List SlaEntry → SlaStore → SlaStore
unfolding handle_entry
handle_all sla host now [] s = s
handle_all sla host now (entry ∷ entries) s =
    handle_all sla host now entries (handle_entry sla host now entry.id s)

-- The insertion of an entry by its due date, behind those of the same date.
unfoldable pub insert_by_due : SlaEntry → List SlaEntry → List SlaEntry
insert_by_due entry [] = entry ∷ []
insert_by_due entry (other ∷ rest) =
    let later = insert_by_due entry rest in
    if ltb (get_or entry.sla_due_at 0) (get_or other.sla_due_at 0)
    then entry ∷ other ∷ rest
    else other ∷ later

unfoldable pub order_by_due : List SlaEntry → List SlaEntry → List SlaEntry
unfolding insert_by_due
order_by_due ordered [] = ordered
order_by_due ordered (entry ∷ entries) = order_by_due (insert_by_due entry ordered) entries

unfoldable pub enforce : SlaHost → Host → ℕ → SlaStore → SlaStore
unfolding is_due order_by_due find_many handle_all
enforce sla host now s =
    handle_all sla host now
      (find_many (λ e. true) 500 (order_by_due [] (filter (is_due now) s.entries))) s
