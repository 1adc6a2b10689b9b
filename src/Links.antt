-- ===== src/Links.antt =====
-- apps/api/src/modules/signed-links/signed-link.service.ts: the rows of signed links, the look-up of a
-- token (`peek`), its redemption (`claim`) and the check of an action. The rows are explicit state and
-- the time is an argument, in milliseconds.
pub mod Tokens
pub mod Response
mod Tests
use Prim.Native.String
use ses.Base.{
  ℕ, ◌+◌, ◌/◌, String, Bool, true, false, not, ◌&&◌, ◌||◌, Option, none, some, List, [], ◌∷◌, ◌++◌,
  map, filter, length, str_eq, contains, is_some, leb, ◌==◌, if◌then◌else◌,
}
use ses.Base.Result.{Result, ok, throw}
use ses.Links.Tokens.{Crypto, Env, SignedLinkPayload, bytes_eq, verify, hash_for}

-- The columns of a signed link that the service reads and writes, with the code of its process.
pub record SignedLinkRow : Type 0 where
  pub id : String
  pub display_code : String
  pub process_id : String
  pub process_code : String
  pub issue_key : Option String
  pub manager_email : String
  pub token_hash : List ℕ
  pub allowed_actions : List String
  pub single_use : Bool
  pub expires_at : ℕ
  pub used_at : Option ℕ
  pub used_from_ip : Option String
  pub used_user_agent : Option String
  pub revoked_at : Option ℕ

pub record SignedLinkContext : Type 0 where
  pub token : String
  pub payload : SignedLinkPayload
  pub link_id : String
  pub link_code : String
  pub process_id : String
  pub process_code : String
  pub manager_email : String
  pub allowed_actions : List String
  pub issue_key : Option String
  pub expires_at : ℕ

pub data SignedLinkRejection : Type 0 where
  invalid_signature expired unknown_jti already_used revoked process_not_found : SignedLinkRejection

-- What `peek` returns.
pub data PeekReply : Type 0 where
  context : SignedLinkContext → PeekReply
  rejection : SignedLinkRejection → PeekReply

-- `findFirst({ where: { tokenHash } })`.
unfoldable pub find_link : List ℕ → List SignedLinkRow → Option SignedLinkRow
unfolding bytes_eq
find_link hash [] = none
find_link hash (row ∷ rows) = if bytes_eq row.token_hash hash then some row else find_link hash rows

-- `peek` after the row is found.
unfoldable pub peek_row : String → SignedLinkPayload → SignedLinkRow → ℕ → PeekReply
peek_row token payload row now =
    if is_some row.revoked_at
    then PeekReply.rejection SignedLinkRejection.revoked
    else if row.single_use && is_some row.used_at
    then PeekReply.rejection SignedLinkRejection.already_used
    else if leb row.expires_at now
    then PeekReply.rejection SignedLinkRejection.expired
    else PeekReply.context (record {
      token = token;
      payload = payload;
      link_id = row.id;
      link_code = row.display_code;
      process_id = row.process_id;
      process_code = row.process_code;
      manager_email = row.manager_email;
      allowed_actions = row.allowed_actions;
      issue_key = row.issue_key;
      expires_at = row.expires_at;
    })

-- `peek` after the token is verified and the row is looked for.
unfoldable pub peek_found : String → Option SignedLinkPayload → Option SignedLinkRow → ℕ → PeekReply
unfolding peek_row
peek_found token none row now = PeekReply.rejection SignedLinkRejection.invalid_signature
peek_found token (some payload) none now = PeekReply.rejection SignedLinkRejection.unknown_jti
peek_found token (some payload) (some row) now = peek_row token payload row now

unfoldable pub peek : Crypto → Env → ℕ → String → List SignedLinkRow → PeekReply
unfolding peek_found find_link verify hash_for
peek crypto env now token rows =
    peek_found token (verify crypto env (now / 1000) token) (find_link (hash_for crypto token) rows)
      now

-- `where: { id: linkId, usedAt: null, revokedAt: null }`.
unfoldable pub is_open : String → SignedLinkRow → Bool
is_open link_id row =
    str_eq row.id link_id && (not (is_some row.used_at) && not (is_some row.revoked_at))

-- `meta`.
pub record Meta : Type 0 where
  pub ip : Option String
  pub user_agent : Option String

unfoldable pub use_row : String → ℕ → Meta → SignedLinkRow → SignedLinkRow
unfolding is_open
use_row link_id now meta row =
    if is_open link_id row
    then record row {
      used_at = some now;
      used_from_ip = meta.ip;
      used_user_agent = meta.user_agent;
    }
    else row

-- An entry of the activity log.
pub record LinkActivity : Type 0 where
  pub entity_id : String
  pub action : String
  pub ip_address : Option String
  pub user_agent : Option String

pub record Claim : Type 0 where
  pub is_consumed : Bool
  pub rows : List SignedLinkRow
  pub activity : List LinkActivity

unfoldable pub claim : ℕ → String → String → Meta → List SignedLinkRow → List LinkActivity → Claim
unfolding use_row
claim now link_id action meta rows activity =
    let consumed = length (filter (is_open link_id) rows) == 1 in
    record {
      is_consumed = consumed;
      rows = map (use_row link_id now meta) rows;
      activity =
          if consumed
          then activity
            ++ record {
              entity_id = link_id;
              action = String.◌++◌ "signed_link." action;
              ip_address = meta.ip;
              user_agent = meta.user_agent;
            }
              ∷ []
          else activity;
    }

-- The actions that a manager can take.
pub data PublicAction : Type 0 where
  acknowledge correct dispute : PublicAction

abbrev pub action_name : PublicAction → String
action_name PublicAction.acknowledge = "acknowledge"
action_name PublicAction.correct = "correct"
action_name PublicAction.dispute = "dispute"

-- The action that a text names.
unfoldable pub parse_action : String → Option PublicAction
parse_action action =
    if str_eq action "acknowledge"
    then some PublicAction.acknowledge
    else if str_eq action "correct"
    then some PublicAction.correct
    else if str_eq action "dispute"
    then some PublicAction.dispute
    else none

abbrev allowed_or_throw : SignedLinkContext → String → Option PublicAction → Result PublicAction
allowed_or_throw ctx action none = throw (String.◌++◌ "Unknown action: " action)
allowed_or_throw ctx action (some known) =
    if contains ctx.allowed_actions action
    then ok known
    else throw (String.◌++◌ "Action \"" (String.◌++◌ action "\" not allowed by this link"))

unfoldable pub assert_action_allowed : SignedLinkContext → String → Result PublicAction
unfolding parse_action
assert_action_allowed ctx action = allowed_or_throw ctx action (parse_action action)

-- The message of the error of `toHttpError`.
unfoldable pub to_http_error : SignedLinkRejection → String
to_http_error SignedLinkRejection.invalid_signature = "This response link is invalid."
to_http_error SignedLinkRejection.expired = "This response link has expired."
to_http_error SignedLinkRejection.already_used = "This response link has already been used."
to_http_error SignedLinkRejection.revoked = "This response link has been revoked."
to_http_error SignedLinkRejection.unknown_jti = "This response link could not be found."
to_http_error SignedLinkRejection.process_not_found =
    "The process for this link is no longer available."
