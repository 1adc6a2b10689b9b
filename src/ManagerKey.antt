-- ===== src/ManagerKey.antt =====
-- packages/domain/src/notifications/notificationBuilder.ts: the key under which a manager is tracked
-- (`sanitizeHeader`, `isValidEmail`, `managerKey`).
use Prim.Native.Char.{code}
use Prim.Native.String
use Prim.Native.String.{[] as nil, ◌∷◌ as cons}
use ses.Base.{ℕ, String, Bool, true, false, not, ◌&&◌, ◌||◌, leb, ◌==◌, if◌then◌else◌, or_else}
use ses.Js.{Host}
use ses.Js.Trim.{is_space, trim}
use ses.Js.Words.{words, join}

-- `value.split(/[\r\n]/)[0]`.
unfoldable pub first_line : String → String
first_line String.[] = ""
first_line (String.◌∷◌ c s) =
    let rest = first_line s in if code c == 10 || code c == 13 then "" else String.◌∷◌ c rest

abbrev pub is_control : ℕ → Bool
is_control c = leb c 31 || c == 127

-- Each run of characters of a class becomes one space; `in_run` says that the run has begun.
unfoldable pub runs_to_space : (ℕ → Bool) → Bool → String → String
runs_to_space in_class in_run String.[] = ""
runs_to_space in_class in_run (String.◌∷◌ c s) =
    let here = in_class (code c) in
    let rest = runs_to_space in_class here s in
    if here then if in_run then rest else String.◌++◌ " " rest else String.◌∷◌ c rest

unfoldable pub sanitize_header : String → String
unfolding first_line runs_to_space trim
sanitize_header value =
    trim (runs_to_space is_space false (runs_to_space is_control false (first_line value)))

-- `[^\s@<>"]`.
abbrev pub is_email_char : ℕ → Bool
is_email_char c = not (is_space c || c == b'@' || c == b'<' || c == b'>' || c == 34)

-- What of the part behind the `@` has been read: nothing, a character, a dot behind a character, and a
-- character behind that dot.
pub data DomainState : Type 0 where
  nothing_read name_read dot_read end_read : DomainState

abbrev pub next_domain : DomainState → ℕ → DomainState
next_domain nothing_read c = name_read
next_domain name_read c = if c == b'.' then dot_read else name_read
next_domain dot_read c = end_read
next_domain end_read c = end_read

abbrev pub is_end_read : DomainState → Bool
is_end_read end_read = true
is_end_read _ = false

-- The part of `EMAIL_RE` behind the `@`.
unfoldable pub is_domain : DomainState → String → Bool
is_domain state String.[] = is_end_read state
is_domain state (String.◌∷◌ c s) =
    is_email_char (code c) && is_domain (next_domain state (code c)) s

-- `EMAIL_RE.test(s)`; `started` says that the part before the `@` has a character.
unfoldable pub is_email : Bool → String → Bool
unfolding is_domain
is_email started String.[] = false
is_email started (String.◌∷◌ c s) =
    let rest = is_email true s in
    if code c == b'@' then started && is_domain nothing_read s else is_email_char (code c) && rest

-- `isValidEmail`, of a text; `null` and `undefined` read as the empty text.
unfoldable pub is_valid_email : String → Bool
unfolding sanitize_header is_email
is_valid_email value = is_email false (sanitize_header value)

-- What `replace(/[^a-z0-9]+/g, '-').replace(/^-+|-+$/g, '')` leaves are the words with dashes between.
unfoldable pub manager_key : Host → String → String → String
unfolding is_valid_email sanitize_header words join
manager_key host name email =
    let clean = join "-" (words (host.to_lower (sanitize_header name))) in
    if is_valid_email email
    then host.to_lower (sanitize_header email)
    else String.◌++◌ "missing-email:" (or_else clean "unassigned")
