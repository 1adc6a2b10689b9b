-- ===== src/Links/Response/Entries.antt =====
-- What an accepted response does to the tracking entry of the manager.
use ses.Base.{
  ℕ, ◌+◌, ◌≡◌, refl, sym, ap, ◌∙◌, String, true, Option, none, some, List, [], ◌∷◌, arith, eq_refl,
}
use ses.Escalation.Stages.{EscalationStage}
use ses.Base.Result.{ok, if_ok}
use ses.Js.{Host}
use ses.Js.Trim.{trim}
use ses.Links.Tokens.{Crypto, Env}
use ses.Links.{
  SignedLinkContext, PeekReply, Meta, PublicAction, peek, claim, assert_action_allowed, action_name,
}
use ses.Links.Response.{
  LinkedEntry, SubmitInput, ResponseStore, find_entry, answered, update_entry, respond_tracking,
  respond_issue, emit_response, entry_for, respond, submit_action, submit_peeked, submit, truthy,
}

answered-keys :
    (action : PublicAction) (now : ℕ) (entry : LinkedEntry)
    → ((answered action now entry).process_id ≡ entry.process_id)
      × ((answered action now entry).manager_key ≡ entry.manager_key)
unfolding answered
answered-keys PublicAction.acknowledge now entry = (refl, refl)
answered-keys PublicAction.correct now entry = (refl, refl)
answered-keys PublicAction.dispute now entry = (refl, refl)

find_entry-update :
    (process_id key : String) (action : PublicAction) (now : ℕ) (entries : List LinkedEntry)
    (entry : LinkedEntry)
    → find_entry process_id key entries ≡ some entry
    → find_entry process_id key (update_entry entry.id (answered action now) entries)
      ≡ some (answered action now entry)
unfolding find_entry update_entry
find_entry-update process_id key action now [] entry e = absurd (cc e)
find_entry-update process_id key action now (x ∷ entries) entry e = ground (
  arith,
  answered-keys action now x,
  eq_refl entry.id,
  find_entry-update process_id key action now entries entry,
)

respond_issue-entries :
    (action : PublicAction) (process_id : String) (key : Option String) (body : SubmitInput)
    (s : ResponseStore)
    → (respond_issue action process_id key body s).entries ≡ s.entries
unfolding respond_issue
respond_issue-entries action process_id none body s = refl
respond_issue-entries PublicAction.acknowledge process_id (some key) body s = refl
respond_issue-entries PublicAction.correct process_id (some key) body s = refl
respond_issue-entries PublicAction.dispute process_id (some key) body s = refl

respond-entries :
    (host : Host) (ctx : SignedLinkContext) (action : PublicAction) (body : SubmitInput) (now : ℕ)
    (s : ResponseStore) (entry : LinkedEntry)
    → entry_for host ctx s ≡ some entry
    → (respond host ctx action body now s).entries
      ≡ update_entry entry.id (answered action now) s.entries
unfolding respond emit_response respond_tracking
respond-entries host ctx action body now s entry e =
    respond_issue-entries action ctx.process_id (truthy ctx.issue_key) body
      (respond_tracking host action body now (entry_for host ctx s) s)
    ∙ ap (λ o. (respond_tracking host action body now o s).entries) e

-- The reading of the manager's entry from a list of entries.
abbrev look : Host → SignedLinkContext → List LinkedEntry → Option String → Option LinkedEntry
look host ctx entries none = none
look host ctx entries (some key) =
    find_entry ctx.process_id (trim (host.to_lower ctx.manager_email)) entries

entry_for_lem :
    (host : Host) (ctx : SignedLinkContext) (s : ResponseStore)
    → entry_for host ctx s ≡ look host ctx s.entries (truthy ctx.issue_key)
unfolding entry_for
entry_for_lem host ctx s = go (truthy ctx.issue_key)
  where
    go :
        (key : Option String)
        → (elim key [
          | none ↦ none
          | some k ↦ find_entry ctx.process_id (trim (host.to_lower ctx.manager_email)) s.entries
        ])
          ≡ look host ctx s.entries key
    go none = refl
    go (some k) = refl

look-update :
    (host : Host) (ctx : SignedLinkContext) (entries : List LinkedEntry) (key : Option String)
    (action : PublicAction) (now : ℕ) (entry : LinkedEntry)
    → look host ctx entries key ≡ some entry
    → look host ctx (update_entry entry.id (answered action now) entries) key
      ≡ some (answered action now entry)
look-update host ctx entries none action now entry e = absurd (cc e)
look-update host ctx entries (some key) action now entry e =
    find_entry-update ctx.process_id (trim (host.to_lower ctx.manager_email)) action now entries
      entry e

submit_action-entry :
    (host : Host) (ctx : SignedLinkContext) (action : PublicAction) (body : SubmitInput)
    (meta : Meta) (now : ℕ) (s s' : ResponseStore) (entry : LinkedEntry)
    → entry_for host ctx s ≡ some entry
    → submit_action host ctx (ok action) body meta now s ≡ ok s'
    → entry_for host ctx s' ≡ some (answered action now entry)
unfolding submit_action
submit_action-entry host ctx action body meta now s s' entry found e =
    let claimed = claim now ctx.link_id (action_name action) meta s.links s.activity in
    let used = record s { links = claimed.rows; activity = claimed.activity } in
    let read = sym (entry_for_lem host ctx s) ∙ found in
    let kept = entry_for_lem host ctx used ∙ read in
    let entries =
      sym (ap (λ t. t.entries) (if_ok _ (respond host ctx action body now used) s' _ e).1)
      ∙ respond-entries host ctx action body now used entry kept in
    entry_for_lem host ctx s'
    ∙ ap (λ es. look host ctx es (truthy ctx.issue_key)) entries
    ∙ look-update host ctx s.entries (truthy ctx.issue_key) action now entry read

-- What a response of the action makes of an entry.
abbrev pub IsAnswered : PublicAction → ℕ → LinkedEntry → LinkedEntry → Type 0
IsAnswered PublicAction.acknowledge now before after =
    (after.stage ≡ EscalationStage.responded)
    × (after.is_resolved ≡ before.is_resolved)
    × (after.last_contact_at ≡ some now)
    × (after.row_version ≡ before.row_version + 1)
IsAnswered PublicAction.correct now before after =
    (after.stage ≡ EscalationStage.resolved)
    × (after.is_resolved ≡ true)
    × (after.last_contact_at ≡ some now)
    × (after.row_version ≡ before.row_version + 1)
IsAnswered PublicAction.dispute now before after = after ≡ before

answered-IsAnswered :
    (action : PublicAction) (now : ℕ) (entry : LinkedEntry)
    → IsAnswered action now entry (answered action now entry)
unfolding answered
answered-IsAnswered PublicAction.acknowledge now entry = (refl, refl, refl, refl)
answered-IsAnswered PublicAction.correct now entry = (refl, refl, refl, refl)
answered-IsAnswered PublicAction.dispute now entry = refl

answered-id :
    (action : PublicAction) (now : ℕ) (entry : LinkedEntry)
    → (answered action now entry).id ≡ entry.id
unfolding answered
answered-id PublicAction.acknowledge now entry = refl
answered-id PublicAction.correct now entry = refl
answered-id PublicAction.dispute now entry = refl

-- An accepted response through a link that names a finding, whose manager has a tracking entry, leaves
-- an entry of the same id that is in the stage of the action, whatever the stage was before: a
-- correction gives RESOLVED and the flag of resolution, an acknowledgement gives RESPONDED and keeps
-- the flag; both record the time of the contact and raise the version by one. A dispute leaves the
-- entry as it was.
pub submit-entry :
    (host : Host) (crypto : Crypto) (env : Env) (now : ℕ) (token : String) (body : SubmitInput)
    (meta : Meta) (s s' : ResponseStore) (ctx : SignedLinkContext) (action : PublicAction)
    (entry : LinkedEntry)
    → peek crypto env now token s.links ≡ PeekReply.context ctx
    → assert_action_allowed ctx body.action ≡ ok action
    → entry_for host ctx s ≡ some entry
    → submit host crypto env now token body meta s ≡ ok s'
    → (after : LinkedEntry) × (entry_for host ctx s' ≡ some after)
      × (after.id ≡ entry.id)
      × IsAnswered action now entry after
unfolding submit submit_peeked
submit-entry host crypto env now token body meta s s' ctx action entry peeked allowed found e = (
  answered action now entry,
  submit_action-entry host ctx action body meta now s s' entry found (
      sym (ap (λ a. submit_action host ctx a body meta now s) allowed)
      ∙ sym (ap (λ p. submit_peeked host p body meta now s) peeked)
      ∙ e),
  answered-id action now entry,
  answered-IsAnswered action now entry,
)
