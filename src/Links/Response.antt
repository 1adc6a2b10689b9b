-- ===== src/Links/Response.antt =====
-- apps/api/src/modules/signed-links/public-response.service.ts: the response of a manager through a
-- signed link. The tables are explicit state. The ids and codes that are drawn for new rows are left
-- out.
pub mod Once
pub mod Entries
use Prim.Native.String
use ses.Base.{
  ℕ, ◌+◌, String, Bool, true, false, ◌&&◌, ◌||◌, Option, none, some, List, [], ◌∷◌, ◌++◌, map,
  filter, str_eq, is_empty, not, if◌then◌else◌, get_or,
}
use ses.Base.Result.{Result, ok, throw}
use ses.Js.{Host, Number}
use ses.Js.Trim.{trim}
use ses.Js.Words.{join}
use ses.Audit.Issue.{take_chars}
use ses.Escalation.Stages.{EscalationStage}
use ses.Links.Tokens.{Crypto, Env}
use ses.Links.{
  SignedLinkRow, SignedLinkContext, SignedLinkRejection, PeekReply, Meta, LinkActivity, Claim,
  PublicAction, action_name, peek, claim, assert_action_allowed, to_http_error,
}

-- The columns of a tracking entry that the service reads and writes.
pub record LinkedEntry : Type 0 where
  pub id : String
  pub display_code : String
  pub process_id : String
  pub manager_key : String
  pub stage : EscalationStage
  pub is_resolved : Bool
  pub last_contact_at : Option ℕ
  pub row_version : ℕ

-- An event of the kind contact and the channel manager_response.
pub record ContactEvent : Type 0 where
  pub tracking_id : String
  pub note : String

pub record Acknowledgment : Type 0 where
  pub process_id : String
  pub issue_key : String
  pub status : String
  pub row_version : ℕ

pub record Correction : Type 0 where
  pub process_id : String
  pub issue_key : String
  pub corrected_effort : Option Number
  pub corrected_state : Option String
  pub corrected_manager : Option String
  pub note : String
  pub row_version : ℕ

-- The messages to the viewers of a process.
pub data ResponseMessage : Type 0 where
  tracking_updated : String → String → EscalationStage → Bool → ResponseMessage
  event_added : String → String → ResponseMessage

pub record ResponseStore : Type 0 where
  pub links : List SignedLinkRow
  pub activity : List LinkActivity
  pub entries : List LinkedEntry
  pub events : List ContactEvent
  pub acknowledgments : List Acknowledgment
  pub corrections : List Correction
  pub sent : List ResponseMessage

-- `PublicSubmitInput`.
pub record SubmitInput : Type 0 where
  pub action : String
  pub note : Option String
  pub corrected_effort : Option Number
  pub corrected_state : Option String
  pub corrected_manager : Option String

-- An absent text and an empty one are both falsy.
unfoldable pub truthy : Option String → Option String
truthy none = none
truthy (some s) = if is_empty s then none else some s

abbrev piece : String → Option String → List String
piece label none = []
piece label (some s) = String.◌++◌ label s ∷ []

abbrev effort_piece : Host → Option Number → List String
effort_piece host none = []
effort_piece host (some n) = String.◌++◌ "effort → " (host.show_number n) ∷ []

abbrev correction_pieces : Host → PublicAction → SubmitInput → List String
correction_pieces host PublicAction.correct body =
    effort_piece host body.corrected_effort
    ++ piece "state → " (truthy body.corrected_state)
    ++ piece "mgr → " (truthy body.corrected_manager)
correction_pieces host _ body = []

unfoldable pub summary_note : Host → PublicAction → SubmitInput → String
unfolding truthy trim take_chars join
summary_note host action body =
    let note = take_chars 500 (trim (get_or body.note "")) in
    join " · " (
      (String.◌++◌ "Manager " (action_name action) ∷ [])
      ++ piece "" (truthy (some note))
      ++ correction_pieces host action body)

-- `findTrackingForIssue`.
unfoldable pub find_entry : String → String → List LinkedEntry → Option LinkedEntry
find_entry process_id key [] = none
find_entry process_id key (entry ∷ entries) =
    if str_eq entry.process_id process_id && str_eq entry.manager_key key
    then some entry
    else find_entry process_id key entries

-- The update of the entry; a dispute leaves it as it is.
unfoldable pub answered : PublicAction → ℕ → LinkedEntry → LinkedEntry
answered PublicAction.acknowledge now entry = record entry {
  stage = EscalationStage.responded;
  last_contact_at = some now;
  row_version = entry.row_version + 1;
}
answered PublicAction.correct now entry = record entry {
  stage = EscalationStage.resolved;
  is_resolved = true;
  last_contact_at = some now;
  row_version = entry.row_version + 1;
}
answered PublicAction.dispute now entry = entry

-- `update({ where: { id } })`.
unfoldable pub update_entry :
    String → (LinkedEntry → LinkedEntry) → List LinkedEntry → List LinkedEntry
update_entry id change entries = map (λ e. if str_eq e.id id then change e else e) entries

unfoldable pub upsert_acknowledgment :
    String → String → String → List Acknowledgment → List Acknowledgment
upsert_acknowledgment process_id issue_key status [] =
    record { process_id = process_id; issue_key = issue_key; status = status; row_version = 1 } ∷ []
upsert_acknowledgment process_id issue_key status (ack ∷ acks) =
    let rest = upsert_acknowledgment process_id issue_key status acks in
    if str_eq ack.process_id process_id && str_eq ack.issue_key issue_key
    then record ack { status = status; row_version = ack.row_version + 1 } ∷ acks
    else ack ∷ rest

abbrev correction_of : String → String → SubmitInput → ℕ → Correction
correction_of process_id issue_key body version = record {
  process_id = process_id;
  issue_key = issue_key;
  corrected_effort = body.corrected_effort;
  corrected_state = body.corrected_state;
  corrected_manager = body.corrected_manager;
  note = get_or body.note "";
  row_version = version;
}

unfoldable pub upsert_correction : String → String → SubmitInput → List Correction → List Correction
upsert_correction process_id issue_key body [] = correction_of process_id issue_key body 1 ∷ []
upsert_correction process_id issue_key body (c ∷ corrections) =
    let rest = upsert_correction process_id issue_key body corrections in
    if str_eq c.process_id process_id && str_eq c.issue_key issue_key
    then correction_of process_id issue_key body (c.row_version + 1) ∷ corrections
    else c ∷ rest

-- The event and the update of the entry, where there is one.
unfoldable pub respond_tracking :
    Host → PublicAction → SubmitInput → ℕ → Option LinkedEntry → ResponseStore → ResponseStore
unfolding summary_note answered update_entry
respond_tracking host action body now none s = s
respond_tracking host action body now (some entry) s = record s {
  events = s.events ++ record { tracking_id = entry.id; note = summary_note host action body } ∷ [];
  entries = update_entry entry.id (answered action now) s.entries;
}

-- The rows of the finding of the link, where the link names one.
unfoldable pub respond_issue :
    PublicAction → String → Option String → SubmitInput → ResponseStore → ResponseStore
unfolding upsert_acknowledgment upsert_correction
respond_issue action process_id none body s = s
respond_issue PublicAction.acknowledge process_id (some key) body s = record s {
  acknowledgments = upsert_acknowledgment process_id key "acknowledged" s.acknowledgments;
}
respond_issue PublicAction.correct process_id (some key) body s = record s {
  acknowledgments = upsert_acknowledgment process_id key "corrected" s.acknowledgments;
  corrections = upsert_correction process_id key body s.corrections;
}
respond_issue PublicAction.dispute process_id (some key) body s = record s {
  acknowledgments = upsert_acknowledgment process_id key "needs_review" s.acknowledgments;
}

abbrev is_correct : PublicAction → Bool
is_correct PublicAction.correct = true
is_correct _ = false

abbrev update_message : PublicAction → Option LinkedEntry → List ResponseMessage
update_message action none = []
update_message action (some entry) =
    if is_empty entry.display_code || is_empty entry.manager_key
    then []
    else ResponseMessage.tracking_updated entry.display_code entry.manager_key entry.stage
        (is_correct action)
      ∷ []

-- The messages after the transaction. The stage in them is the one that the entry had when it was
-- read.
unfoldable pub emit_response :
    SignedLinkContext → PublicAction → Option LinkedEntry → ResponseStore → ResponseStore
emit_response ctx action entry s = record s {
  sent =
      s.sent
      ++ update_message action entry
      ++ ResponseMessage.event_added (action_name action) ctx.manager_email ∷ [];
}

-- The entry of the link's manager, where the link names a finding.
unfoldable pub entry_for : Host → SignedLinkContext → ResponseStore → Option LinkedEntry
unfolding truthy find_entry trim
entry_for host ctx s = elim (truthy ctx.issue_key) [
  | none ↦ none
  | some key ↦ find_entry ctx.process_id (trim (host.to_lower ctx.manager_email)) s.entries
]

-- `submit` after the claim.
unfoldable pub respond :
    Host → SignedLinkContext → PublicAction → SubmitInput → ℕ → ResponseStore → ResponseStore
unfolding entry_for respond_tracking respond_issue emit_response
respond host ctx action body now s =
    let entry = entry_for host ctx s in
    emit_response ctx action entry (
      respond_issue action ctx.process_id (truthy ctx.issue_key) body
        (respond_tracking host action body now entry s))

-- `submit` after the action is checked. A transaction that throws leaves no trace.
unfoldable pub submit_action :
    Host
    → SignedLinkContext
    → Result PublicAction
    → SubmitInput
    → Meta
    → ℕ
    → ResponseStore
    → Result ResponseStore
unfolding claim respond to_http_error
submit_action host ctx (throw message) body meta now s = throw message
submit_action host ctx (ok action) body meta now s =
    let claimed = claim now ctx.link_id (action_name action) meta s.links s.activity in
    if claimed.is_consumed
    then ok (
        respond host ctx action body now
          (record s { links = claimed.rows; activity = claimed.activity }))
    else throw (to_http_error SignedLinkRejection.already_used)

unfoldable pub submit_peeked :
    Host → PeekReply → SubmitInput → Meta → ℕ → ResponseStore → Result ResponseStore
unfolding submit_action assert_action_allowed to_http_error
submit_peeked host (PeekReply.rejection why) body meta now s = throw (to_http_error why)
submit_peeked host (PeekReply.context ctx) body meta now s =
    submit_action host ctx (assert_action_allowed ctx body.action) body meta now s

unfoldable pub submit :
    Host → Crypto → Env → ℕ → String → SubmitInput → Meta → ResponseStore → Result ResponseStore
unfolding submit_peeked peek
submit host crypto env now token body meta s =
    submit_peeked host (peek crypto env now token s.links) body meta now s
