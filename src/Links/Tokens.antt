-- ===== src/Links/Tokens.antt =====
-- apps/api/src/modules/signed-links/signed-link-token.service.ts: the token of a signed link. The hash
-- functions, the base-64 coding, UTF-8 and JSON are parameters; the time is an argument, in seconds.
use Prim.Native.Char.{Char, code}
use Prim.Native.String
use ses.Base.{
  ℕ, ◌+◌, ◌*◌, ◌-◌, ◌%◌, suc, zero, String, Bool, true, false, not, ◌&&◌, ◌||◌, Option, none, some,
  List, [], ◌∷◌, str_eq, is_empty, ◌==◌, ltb, if◌then◌else◌, length, get_or,
}
use ses.Base.Result.{Result, ok, throw}
use ses.Js.{Host}
use ses.Js.Trim.{trim}
use ses.Js.Words.{join}

-- `v` is a number and `purp` a text in every token that the service makes; `exp` is in seconds.
pub record SignedLinkPayload : Type 0 where
  pub v : ℕ
  pub jti : String
  pub purp : String
  pub proc : String
  pub iky : Option String
  pub mgr : String
  pub acts : List String
  pub exp : ℕ

-- The parts of the platform that are taken as given: `createHmac('sha256', secret)`,
-- `createHash('sha256')`, base 64 in both directions, UTF-8 and JSON. `parse_payload` is `none` where
-- `JSON.parse` throws.
pub record Crypto : Type 0 where
  pub hmac_sha256 : String → String → List ℕ
  pub sha256 : String → List ℕ
  pub to_base64 : List ℕ → String
  pub from_base64 : String → List ℕ
  pub encode : String → List ℕ
  pub decode : List ℕ → String
  pub show_payload : SignedLinkPayload → String
  pub parse_payload : String → Option SignedLinkPayload

-- The environment variables NODE_ENV and SES_AUTH_SECRET.
pub record Env : Type 0 where
  pub node_env : String
  pub ses_auth_secret : String

-- `s.length`, for texts in the basic plane.
unfoldable pub text_length : String → ℕ
text_length String.[] = zero
text_length (String.◌∷◌ c s) = suc (text_length s)

unfoldable pub secret : Env → Result String
unfolding text_length
secret env =
    let value = env.ses_auth_secret in
    if str_eq env.node_env "production"
    then if is_empty value || ltb (text_length value) 32
      then throw "SES_AUTH_SECRET must be ≥ 32 chars in production"
      else ok value
    else ok (if is_empty value then "ses-dev-secret" else value)

-- `s.replace(/a/g, b)` at single characters.
unfoldable pub replace_char : ℕ → Char → String → String
replace_char a b String.[] = String.[]
replace_char a b (String.◌∷◌ c s) = String.◌∷◌ (if code c == a then b else c) (replace_char a b s)

-- `s.replace(/=+$/g, '')`.
unfoldable pub strip_padding : String → String
strip_padding String.[] = String.[]
strip_padding (String.◌∷◌ c s) =
    let rest = strip_padding s in
    if code c == b'=' && is_empty rest then String.[] else String.◌∷◌ c rest

unfoldable pub base64url : Crypto → List ℕ → String
unfolding replace_char strip_padding
base64url crypto bytes =
    strip_padding (replace_char b'/' "_" (replace_char b'+' "-" (crypto.to_base64 bytes)))

-- `'='.repeat(n)`.
unfoldable pub padding : ℕ → String
padding zero = String.[]
padding (suc n) = String.◌∷◌ "=" (padding n)

unfoldable pub base64url_decode : Crypto → String → List ℕ
unfolding replace_char padding text_length
base64url_decode crypto input =
    let rest = text_length input % 4 in
    let pad = if rest == 0 then "" else padding (4 - rest) in
    crypto.from_base64 (String.◌++◌ (replace_char b'_' "/" (replace_char b'-' "+" input)) pad)

-- What a caller gives to `issue`; the time to live is in seconds.
pub record IssueTokenInput : Type 0 where
  pub process_code : String
  pub issue_key : Option String
  pub manager_email : String
  pub allowed_actions : List String
  pub ttl_seconds : Option ℕ

pub record IssuedToken : Type 0 where
  pub token : String
  pub token_hash : List ℕ
  pub payload : SignedLinkPayload
  pub expires_at : ℕ

abbrev default_ttl_seconds : ℕ
default_ttl_seconds = 1209600

unfoldable pub payload_of : Host → Crypto → ℕ → List ℕ → IssueTokenInput → SignedLinkPayload
unfolding base64url trim
payload_of host crypto now random input = record {
  v = 1;
  jti = base64url crypto random;
  purp = "manager_response";
  proc = input.process_code;
  iky = input.issue_key;
  mgr = trim (host.to_lower input.manager_email);
  acts = input.allowed_actions;
  exp = now + get_or input.ttl_seconds default_ttl_seconds;
}

-- The text of a token: the coded payload and the coded signature of it.
unfoldable pub sign : Crypto → String → SignedLinkPayload → String
unfolding base64url join
sign crypto key payload =
    let payload_part = base64url crypto (crypto.encode (crypto.show_payload payload)) in
    let sig = crypto.hmac_sha256 key payload_part in
    join "." (payload_part ∷ base64url crypto sig ∷ [])

unfoldable pub hash_for : Crypto → String → List ℕ
hash_for crypto token = crypto.sha256 token

-- `issue`, with the random bytes of the token's id.
unfoldable pub issue_token : Host → Crypto → Env → ℕ → List ℕ → IssueTokenInput → Result IssuedToken
unfolding secret payload_of sign
issue_token host crypto env now random input = elim (secret env) [
  | throw message ↦ throw message
  | ok key ↦
      let payload = payload_of host crypto now random input in
      let token = sign crypto key payload in
      ok (record {
        token = token;
        token_hash = crypto.sha256 token;
        payload = payload;
        expires_at = payload.exp * 1000;
      })
]

-- `token.slice(0, dot)` and `token.slice(dot + 1)` at the first dot.
unfoldable pub split_dot : String → Option (String × String)
split_dot String.[] = none
split_dot (String.◌∷◌ c s) = if code c == b'.' then some (String.[], s) else elim (split_dot s) [
  | none ↦ none
  | some (before, after) ↦ some (String.◌∷◌ c before, after)
]

-- `timingSafeEqual`, and the comparison of stored hashes.
unfoldable pub bytes_eq : List ℕ → List ℕ → Bool
bytes_eq [] [] = true
bytes_eq [] (b ∷ bs) = false
bytes_eq (a ∷ bytes) [] = false
bytes_eq (a ∷ bytes) (b ∷ bs) = a == b && bytes_eq bytes bs

-- `verify` after the signature is checked.
unfoldable pub checked_payload : ℕ → Option SignedLinkPayload → Option SignedLinkPayload
checked_payload now none = none
checked_payload now (some payload) =
    if not (payload.v == 1) || not (str_eq payload.purp "manager_response")
    then none
    else if ltb now payload.exp
    then some payload
    else none

unfoldable pub verify_parts : Crypto → ℕ → String → String → String → Option SignedLinkPayload
unfolding base64url_decode bytes_eq checked_payload
verify_parts crypto now key payload_part sig_part =
    let expected = crypto.hmac_sha256 key payload_part in
    let provided = base64url_decode crypto sig_part in
    if not (length provided == length expected) || not (bytes_eq provided expected)
    then none
    else checked_payload now
        (crypto.parse_payload (crypto.decode (base64url_decode crypto payload_part)))

unfoldable pub verify_split :
    Crypto → ℕ → Result String → Option (String × String) → Option SignedLinkPayload
unfolding verify_parts
verify_split crypto now key none = none
verify_split crypto now (throw message) (some parts) = none
verify_split crypto now (ok key) (some (payload_part, sig_part)) =
    if is_empty payload_part || is_empty sig_part
    then none
    else verify_parts crypto now key payload_part sig_part

-- `verify`; whatever throws inside it gives `null`.
unfoldable pub verify : Crypto → Env → ℕ → String → Option SignedLinkPayload
unfolding verify_split secret split_dot
verify crypto env now token = verify_split crypto now (secret env) (split_dot token)
