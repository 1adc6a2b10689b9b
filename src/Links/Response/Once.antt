-- ===== src/Links/Response/Once.antt =====
-- A signed link is used at most once.
use mathlib.Core.Path.{subst}
use ses.Base.{
  ℕ, ◌≡◌, refl, sym, ap, ◌∙◌, String, Bool, true, false, not, ◌&&◌, Option, none, some, List, [],
  ◌∷◌, map, filter, ◌/◌, any, length, arith,
}
use ses.Base.Result.{Result, ok, throw, if_ok}
use ses.Js.{Host}
use ses.Links.Tokens.{Crypto, Env, SignedLinkPayload, verify, hash_for}
use ses.Links.{
  SignedLinkRow, SignedLinkContext, PeekReply, Meta, PublicAction, find_link, peek_row, peek_found,
  peek, is_open, use_row, claim, assert_action_allowed, action_name,
}
use ses.Links.Response.{
  LinkedEntry, SubmitInput, ResponseStore, respond_tracking, respond_issue, emit_response,
  entry_for, respond, submit_action, submit_peeked, submit, truthy,
}

abbrev pub is_ok : Result ResponseStore → Bool
is_ok (ok s) = true
is_ok (throw message) = false

abbrev id_of : Option SignedLinkRow → Option String
id_of none = none
id_of (some row) = some row.id

-- The id of the link with the given hash.
abbrev link_id : List ℕ → List SignedLinkRow → Option String
link_id hash rows = id_of (find_link hash rows)

peek_row-context :
    (token : String) (payload : SignedLinkPayload) (row : SignedLinkRow) (now : ℕ)
    (ctx : SignedLinkContext)
    → peek_row token payload row now ≡ PeekReply.context ctx
    → ctx.link_id ≡ row.id
unfolding peek_row
peek_row-context token payload row now ctx e = ground arith

peek_found-context :
    (token : String) (payload : Option SignedLinkPayload) (row : Option SignedLinkRow) (now : ℕ)
    (ctx : SignedLinkContext)
    → peek_found token payload row now ≡ PeekReply.context ctx
    → id_of row ≡ some ctx.link_id
unfolding peek_found
peek_found-context token none row now ctx e = absurd (cc e)
peek_found-context token (some payload) none now ctx e = absurd (cc e)
peek_found-context token (some payload) (some row) now ctx e =
    ap some (sym (peek_row-context token payload row now ctx e))

respond_tracking-links :
    (host : Host) (action : PublicAction) (body : SubmitInput) (now : ℕ)
    (entry : Option LinkedEntry) (s : ResponseStore)
    → (respond_tracking host action body now entry s).links ≡ s.links
unfolding respond_tracking
respond_tracking-links host action body now none s = refl
respond_tracking-links host action body now (some entry) s = refl

respond_issue-links :
    (action : PublicAction) (process_id : String) (key : Option String) (body : SubmitInput)
    (s : ResponseStore)
    → (respond_issue action process_id key body s).links ≡ s.links
unfolding respond_issue
respond_issue-links action process_id none body s = refl
respond_issue-links PublicAction.acknowledge process_id (some key) body s = refl
respond_issue-links PublicAction.correct process_id (some key) body s = refl
respond_issue-links PublicAction.dispute process_id (some key) body s = refl

respond-links :
    (host : Host) (ctx : SignedLinkContext) (action : PublicAction) (body : SubmitInput) (now : ℕ)
    (s : ResponseStore)
    → (respond host ctx action body now s).links ≡ s.links
unfolding respond emit_response
respond-links host ctx action body now s =
    let entry = entry_for host ctx s in
    respond_issue-links action ctx.process_id (truthy ctx.issue_key) body
      (respond_tracking host action body now entry s)
    ∙ respond_tracking-links host action body now entry s

-- The rows of a store with one open link of the given id, and the rows after it is used.
abbrev IsUse : String → ℕ → Meta → ResponseStore → ResponseStore → Type 0
IsUse id now meta s s' =
    (length (filter (is_open id) s.links) ≡ 1) × (s'.links ≡ map (use_row id now meta) s.links)

submit_action-ok :
    (host : Host) (ctx : SignedLinkContext) (action : Result PublicAction) (body : SubmitInput)
    (meta : Meta) (now : ℕ) (s s' : ResponseStore)
    → submit_action host ctx action body meta now s ≡ ok s'
    → IsUse ctx.link_id now meta s s'
unfolding submit_action claim
submit_action-ok host ctx (throw message) body meta now s s' e = absurd (cc e)
submit_action-ok host ctx (ok action) body meta now s s' e =
    let rows = map (use_row ctx.link_id now meta) s.links in
    let claimed = claim now ctx.link_id (action_name action) meta s.links s.activity in
    let used = record s { links = rows; activity = claimed.activity } in
    let found = if_ok _ (respond host ctx action body now used) s' _ e in
    (
      ground (arith, found.0),
      sym (ap (λ t. t.links) found.1) ∙ respond-links host ctx action body now used,
    )

-- What a successful response did to the link of its token.
submit-ok :
    (host : Host) (crypto : Crypto) (env : Env) (now : ℕ) (token : String) (body : SubmitInput)
    (meta : Meta) (s s' : ResponseStore)
    → submit host crypto env now token body meta s ≡ ok s'
    → (id : String) × ((link_id (hash_for crypto token) s.links ≡ some id) × IsUse id now meta s s')
unfolding submit submit_peeked peek
submit-ok host crypto env now token body meta s s' e = go _ refl e
  where
    go :
        (reply : PeekReply)
        → peek crypto env now token s.links ≡ reply
        → submit_peeked host reply body meta now s ≡ ok s'
        → (id : String) × ((link_id (hash_for crypto token) s.links ≡ some id)
            × IsUse id now meta s s')
    go (PeekReply.rejection why) p e = absurd (cc e)
    go (PeekReply.context ctx) p e = (
      ctx.link_id,
      (
        peek_found-context token (verify crypto env (now / 1000) token)
            (find_link (hash_for crypto token) s.links) now ctx p,
        submit_action-ok host ctx (assert_action_allowed ctx body.action) body meta now s s' e,
      ),
    )

is_open-use_row :
    (id used_id : String) (now : ℕ) (meta : Meta) (row : SignedLinkRow)
    → is_open id (use_row used_id now meta row) ≡ (is_open id row && not (is_open used_id row))
unfolding use_row is_open
is_open-use_row id used_id now meta row = ground arith

-- After a use of the link with the given id no link with it is open.
any-is_open-used :
    (id : String) (now : ℕ) (meta : Meta) (rows : List SignedLinkRow)
    → any (is_open id) (map (use_row id now meta) rows) ≡ false
any-is_open-used id now meta [] = refl
any-is_open-used id now meta (row ∷ rows) =
    ground (arith, is_open-use_row id id now meta row, any-is_open-used id now meta rows)

-- A link that is not open stays so.
any-is_open-kept :
    (id used_id : String) (now : ℕ) (meta : Meta) (rows : List SignedLinkRow)
    → any (is_open id) rows ≡ false
    → any (is_open id) (map (use_row used_id now meta) rows) ≡ false
any-is_open-kept id used_id now meta [] h = refl
any-is_open-kept id used_id now meta (row ∷ rows) h =
    ground
      (arith, is_open-use_row id used_id now meta row, any-is_open-kept id used_id now meta rows)

link_id-use_row :
    (hash : List ℕ) (id : String) (now : ℕ) (meta : Meta) (rows : List SignedLinkRow)
    → link_id hash (map (use_row id now meta) rows) ≡ link_id hash rows
unfolding find_link use_row
link_id-use_row hash id now meta [] = refl
link_id-use_row hash id now meta (row ∷ rows) =
    ground (arith, link_id-use_row hash id now meta rows)

length-filter-none :
    (id : String) (rows : List SignedLinkRow)
    → any (is_open id) rows ≡ false
    → length (filter (is_open id) rows) ≡ 0
length-filter-none id [] h = refl
length-filter-none id (row ∷ rows) h = ground (arith, length-filter-none id rows)

pub record Request : Type 0 where
  pub now : ℕ
  pub token : String
  pub body : SubmitInput
  pub meta : Meta

-- The link with the given hash is used up.
abbrev IsSpent : List ℕ → ResponseStore → Type 0
IsSpent hash s =
    (id : String) × ((link_id hash s.links ≡ some id) × (any (is_open id) s.links ≡ false))

same_id : {a b : String} → some a ≡ some b → a ≡ b
same_id e = cc e

module _ (host : Host) (crypto : Crypto) (env : Env) where
  abbrev pub answer : Request → ResponseStore → Result ResponseStore
  answer r s = submit host crypto env r.now r.token r.body r.meta s

  abbrev pub kept : Result ResponseStore → ResponseStore → ResponseStore
  kept (ok s') s = s'
  kept (throw message) s = s

  -- The store after a list of requests, each of which may fail.
  abbrev pub serve : List Request → ResponseStore → ResponseStore
  serve [] s = s
  serve (r ∷ requests) s = serve requests (kept (answer r s) s)

  answer-IsSpent :
      (r : Request) (s s' : ResponseStore)
      → answer r s ≡ ok s'
      → IsSpent (hash_for crypto r.token) s'
  answer-IsSpent r s s' e =
      let (id, (found, (count, links))) =
        submit-ok host crypto env r.now r.token r.body r.meta s s' e in
      (
        id,
        (
          ap (link_id (hash_for crypto r.token)) links
              ∙ link_id-use_row (hash_for crypto r.token) id r.now r.meta s.links
              ∙ found,
          ap (any (is_open id)) links ∙ any-is_open-used id r.now r.meta s.links,
        ),
      )

  answer-IsSpent_kept :
      (r : Request) (hash : List ℕ) (s s' : ResponseStore)
      → answer r s ≡ ok s'
      → IsSpent hash s
      → IsSpent hash s'
  answer-IsSpent_kept r hash s s' e (id, (named, closed)) =
      let (used_id, (found, (count, links))) =
        submit-ok host crypto env r.now r.token r.body r.meta s s' e in
      (
        id,
        (
          ap (link_id hash) links ∙ link_id-use_row hash used_id r.now r.meta s.links ∙ named,
          ap (any (is_open id)) links ∙ any-is_open-kept id used_id r.now r.meta s.links closed,
        ),
      )

  answer-spent :
      (r : Request) (s : ResponseStore)
      → IsSpent (hash_for crypto r.token) s
      → is_ok (answer r s) ≡ false
  answer-spent r s (id, (named, closed)) = go (answer r s) refl
    where
      go : (reply : Result ResponseStore) → answer r s ≡ reply → is_ok reply ≡ false
      go (throw message) e = refl
      go (ok s') e =
          let (used_id, (found, (count, links))) =
            submit-ok host crypto env r.now r.token r.body r.meta s s' e in
          let zero =
            subst (λ i. length (filter (is_open i) s.links) ≡ 0) (same_id (sym named ∙ found))
              (length-filter-none id s.links closed) in
          absurd (omega (arith, count, zero))

  serve-IsSpent :
      (requests : List Request) (hash : List ℕ) (s : ResponseStore)
      → IsSpent hash s
      → IsSpent hash (serve requests s)
  serve-IsSpent [] hash s h = h
  serve-IsSpent (r ∷ requests) hash s h = serve-IsSpent requests hash _ (go (answer r s) refl)
    where
      go : (reply : Result ResponseStore) → answer r s ≡ reply → IsSpent hash (kept reply s)
      go (ok s') e = answer-IsSpent_kept r hash s s' e h
      go (throw message) e = h

  -- After a response through a token is accepted, no response through that token is accepted any more,
  -- whatever requests with this and other tokens come in between and at whatever time.
  pub submit-once :
      (first again : Request) (between : List Request) (s s' : ResponseStore)
      → answer first s ≡ ok s'
      → again.token ≡ first.token
      → is_ok (answer again (serve between s')) ≡ false
  submit-once first again between s s' e same = answer-spent again (serve between s') (
      serve-IsSpent between (hash_for crypto again.token) s'
        (subst (λ t. IsSpent (hash_for crypto t) s') (sym same) (answer-IsSpent first s s' e)))
