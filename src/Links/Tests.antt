-- ===== src/Links/Tests.antt =====
-- The theorems about signed links at a concrete store, and runs of the definitions on it.
use ses.Base.{◌≡◌, refl, String, true, false, none, some, [], ◌∷◌}
use ses.Base.Result.{Result, ok, throw}
use ses.Js.{Host, nan}
use ses.Escalation.Stages.{EscalationStage}
use ses.Links.Tokens.{Crypto, Env, SignedLinkPayload, text_length}
use ses.Links.{SignedLinkContext, PeekReply, PublicAction, peek, assert_action_allowed}
use ses.Links.Response.{LinkedEntry, ResponseStore, entry_for, submit}
use ses.Links.Response.Once.{Request, answer, kept, serve, is_ok, submit-once}
use ses.Links.Response.Entries.{IsAnswered, submit-entry}

abbrev sample_host : Host
sample_host = record {
  show_number = λ n. "n";
  parse_number = λ s. nan;
  to_lower = λ s. s;
  to_upper = λ s. s;
  encode = λ s. [];
  now = "2026-01-01T00:00:00.000Z";
}

abbrev sample_payload : SignedLinkPayload
sample_payload = record {
  v = 1;
  jti = "j";
  purp = "manager_response";
  proc = "PRC-1";
  iky = some "IKY-1";
  mgr = "ann@x.org";
  acts = "acknowledge" ∷ "correct" ∷ [];
  exp = 100;
}

-- A platform that gives every text the same signature.
abbrev sample_crypto : Crypto
sample_crypto = record {
  hmac_sha256 = λ key t. 7 ∷ [];
  sha256 = λ t. text_length t ∷ [];
  to_base64 = λ bytes. "Bw==";
  from_base64 = λ t. 7 ∷ [];
  encode = λ t. [];
  decode = λ bytes. "";
  show_payload = λ p. "";
  parse_payload = λ t. some sample_payload;
}

abbrev sample_env : Env
sample_env = record { node_env = "test"; ses_auth_secret = "" }

abbrev sample_entry : LinkedEntry
sample_entry = record {
  id = "t1";
  display_code = "TRK-1";
  process_id = "p1";
  manager_key = "ann@x.org";
  stage = EscalationStage.resolved;
  is_resolved = true;
  last_contact_at = none;
  row_version = 1;
}

abbrev sample_store : ResponseStore
sample_store = record {
  links =
      record {
        id = "l1";
        display_code = "LNK-1";
        process_id = "p1";
        process_code = "PRC-1";
        issue_key = some "IKY-1";
        manager_email = "ann@x.org";
        token_hash = 3 ∷ [];
        allowed_actions = "acknowledge" ∷ "correct" ∷ [];
        single_use = true;
        expires_at = 100000;
        used_at = none;
        used_from_ip = none;
        used_user_agent = none;
        revoked_at = none;
      }
      ∷ [];
  activity = [];
  entries = sample_entry ∷ [];
  events = [];
  acknowledgments = [];
  corrections = [];
  sent = [];
}

abbrev request_for : String → Request
request_for action = record {
  now = 5000;
  token = "p.s";
  body = record {
    action = action;
    note = none;
    corrected_effort = none;
    corrected_state = none;
    corrected_manager = none;
  };
  meta = record { ip = none; user_agent = none };
}

abbrev answer_to : String → Result ResponseStore
answer_to action = answer sample_host sample_crypto sample_env (request_for action) sample_store

abbrev error_of : Result ResponseStore → String
error_of (ok s) = ""
error_of (throw message) = message

submit-dispute : error_of (answer_to "dispute") ≡ "Action \"dispute\" not allowed by this link"
unfolding submit
submit-dispute = refl

abbrev store_after : ResponseStore
store_after = kept sample_host sample_crypto sample_env (answer_to "acknowledge") sample_store

accepted : answer_to "acknowledge" ≡ ok store_after
unfolding submit
accepted = refl

submit-once_example :
    is_ok (
      answer sample_host sample_crypto sample_env
        (request_for "correct")
        (serve sample_host sample_crypto sample_env [] store_after))
    ≡ false
submit-once_example =
    submit-once sample_host sample_crypto sample_env (request_for "acknowledge")
      (request_for "correct") [] sample_store store_after accepted refl

abbrev sample_context : SignedLinkContext
sample_context = record {
  token = "p.s";
  payload = sample_payload;
  link_id = "l1";
  link_code = "LNK-1";
  process_id = "p1";
  process_code = "PRC-1";
  manager_email = "ann@x.org";
  allowed_actions = "acknowledge" ∷ "correct" ∷ [];
  issue_key = some "IKY-1";
  expires_at = 100000;
}

peeked :
    peek sample_crypto sample_env 5000 "p.s" sample_store.links ≡ PeekReply.context sample_context
unfolding peek
peeked = refl

allowed : assert_action_allowed sample_context "acknowledge" ≡ ok PublicAction.acknowledge
unfolding assert_action_allowed
allowed = refl

found : entry_for sample_host sample_context sample_store ≡ some sample_entry
unfolding entry_for
found = refl

submit-entry_example :
    (after : LinkedEntry) × (entry_for sample_host sample_context store_after ≡ some after)
    × (after.id ≡ sample_entry.id)
    × IsAnswered PublicAction.acknowledge 5000 sample_entry after
submit-entry_example =
    submit-entry sample_host sample_crypto sample_env 5000 "p.s" (request_for "acknowledge").body
      (request_for "acknowledge").meta sample_store store_after sample_context
      PublicAction.acknowledge sample_entry peeked allowed found accepted
