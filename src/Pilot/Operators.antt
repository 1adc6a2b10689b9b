-- ===== src/Pilot/Operators.antt =====
-- packages/domain/src/ai-pilot/operators.ts and columnResolver.ts: the operators of a rule and the look-up
-- of its columns.
pub mod Reads
use Prim.Native.Char.{code}
use ses.Base.{
  String, Bool, true, false, not, ◌&&◌, ◌||◌, leb, Option, none, some, List, [], ◌∷◌, str_eq,
  is_empty, if◌then◌else◌,
}
use ses.Base.Dict.{Dict, insert, lookup}
use ses.Js.{Host, Number, undefined, null, number, nan, is_finite, is_zero, gt, num_eq, to_text}
use ses.Js.Trim.{trim}
use ses.Js.Words.{includes, starts_with}
use ses.Pilot.{Json, plain, Items, no_items, item, Platform, is_array, items_of}

pub data Operator : Type 0 where
  greater less greater_eq less_eq equals differs percent_above contains_text starts ends : Operator
  blank one_of missing not_missing : Operator

-- The key of `OPERATORS` that the text is.
unfoldable pub parse_operator : String → Option Operator
parse_operator s =
    if str_eq s ">"
    then some Operator.greater
    else if str_eq s "<"
    then some Operator.less
    else if str_eq s ">="
    then some Operator.greater_eq
    else if str_eq s "<="
    then some Operator.less_eq
    else if str_eq s "=="
    then some Operator.equals
    else if str_eq s "!="
    then some Operator.differs
    else if str_eq s "%>"
    then some Operator.percent_above
    else if str_eq s "contains"
    then some Operator.contains_text
    else if str_eq s "startsWith"
    then some Operator.starts
    else if str_eq s "endsWith"
    then some Operator.ends
    else if str_eq s "isBlank"
    then some Operator.blank
    else if str_eq s "isOneOf"
    then some Operator.one_of
    else if str_eq s "isMissing"
    then some Operator.missing
    else if str_eq s "isNotMissing"
    then some Operator.not_missing
    else none

-- `s.endsWith(part)`.
unfoldable pub ends_with : String → String → Bool
ends_with String.[] part = is_empty part
ends_with (String.◌∷◌ c s) part = str_eq (String.◌∷◌ c s) part || ends_with s part

abbrev pub map_some {ℓ κ} : {A : Type ℓ} {B : Type κ} → (A → B) → Option A → Option B
map_some f none = none
map_some f (some a) = some (f a)

-- A test of two values, where both can be read.
abbrev pub both {ℓ} : {A : Type ℓ} → (A → A → Bool) → Option A → Option A → Option Bool
both test none b = none
both test (some a) none = none
both test (some a) (some b) = some (test a b)

abbrev if_finite : (Number → Number → Bool) → Number → Number → Bool
if_finite test a b = is_finite a && (is_finite b && test a b)

module _ (host : Host) (platform : Platform) where
  -- `String(v ?? '').trim()`. Where the conversion throws there is no text.
  unfoldable pub text_of : Json → Option String
  unfolding trim
  text_of (plain v) = some (trim (to_text host v))
  text_of v = map_some trim (platform.show_json v)

  abbrev finite_or_nan : Number → Number
  finite_or_nan n = if is_finite n then n else nan

  unfoldable pub num : Json → Option Number
  unfolding text_of
  num (plain (number n)) = some n
  num v = map_some (λ t. finite_or_nan (host.parse_number t)) (text_of v)

  abbrev pub lower_text : Json → Option String
  lower_text v = map_some (λ t. host.to_lower t) (text_of v)

  unfoldable pub is_blank : Json → Option Bool
  unfolding text_of
  is_blank (plain undefined) = some true
  is_blank (plain null) = some true
  is_blank v = map_some (λ t. is_empty t) (text_of v)

  -- `values.map((v) => text(v).toLowerCase()).includes(s)`: every value is read.
  unfoldable pub any_text : String → Items → Option Bool
  unfolding text_of
  any_text s no_items = some false
  any_text s (item v items) =
      let rest = any_text s items in
      elim (lower_text v) [ none ↦ none | some t ↦ map_some (λ b. str_eq t s || b) rest ]

  -- `isOneOf`, after the array is checked: the values are read, and then the cell.
  abbrev pub one_of_texts : Option String → Items → Option Bool
  one_of_texts none items = none
  one_of_texts (some s) items = any_text s items

  -- `%>`: the cell, the cell to compare with and the value.
  abbrev pub above_percent : Option Number → Option Number → Option Number → Option Bool
  above_percent none base pct = none
  above_percent (some a) none pct = none
  above_percent (some a) (some base) none = none
  above_percent (some a) (some base) (some pct) = some (
      if not (is_finite a) || (not (is_finite base) || (is_zero base || not (is_finite pct)))
      then false
      else gt (platform.percent a base) pct)

  -- `OPERATORS[op]({ cell, value, values, compareCell })`; `none` where a conversion throws.
  unfoldable pub apply_operator : Operator → Json → Json → Json → Json → Option Bool
  unfolding num is_blank text_of any_text includes starts_with ends_with num_eq
  apply_operator Operator.greater cell value values compare_cell =
      both (if_finite (λ a b. gt a b)) (num cell) (num value)
  apply_operator Operator.less cell value values compare_cell =
      both (if_finite (λ a b. gt b a)) (num cell) (num value)
  apply_operator Operator.greater_eq cell value values compare_cell =
      both (if_finite (λ a b. gt a b || num_eq a b)) (num cell) (num value)
  apply_operator Operator.less_eq cell value values compare_cell =
      both (if_finite (λ a b. gt b a || num_eq a b)) (num cell) (num value)
  apply_operator Operator.equals cell value values compare_cell =
      both (λ s t. str_eq s t) (lower_text cell) (lower_text value)
  apply_operator Operator.differs cell value values compare_cell =
      both (λ s t. not (str_eq s t)) (lower_text cell) (lower_text value)
  apply_operator Operator.percent_above cell value values compare_cell =
      above_percent (num cell) (num compare_cell) (num value)
  apply_operator Operator.contains_text cell value values compare_cell =
      both (λ s t. includes s t) (lower_text cell) (lower_text value)
  apply_operator Operator.starts cell value values compare_cell =
      both (λ s t. starts_with s t) (lower_text cell) (lower_text value)
  apply_operator Operator.ends cell value values compare_cell =
      both (λ s t. ends_with s t) (lower_text cell) (lower_text value)
  apply_operator Operator.blank cell value values compare_cell = is_blank cell
  apply_operator Operator.one_of cell value values compare_cell =
      if is_array values then one_of_texts (lower_text cell) (items_of values) else some false
  apply_operator Operator.missing cell value values compare_cell = is_blank cell
  apply_operator Operator.not_missing cell value values compare_cell =
      map_some (λ b. not b) (is_blank cell)

-- The characters that the two replacements of `normalize` leave.
unfoldable pub alphanumeric : String → String
alphanumeric String.[] = String.[]
alphanumeric (String.◌∷◌ c s) =
    let rest = alphanumeric s in
    if (leb b'a' (code c) && leb (code c) b'z') || (leb b'0' (code c) && leb (code c) b'9')
    then String.◌∷◌ c rest
    else rest

unfoldable pub normalize_label : Host → String → String
unfolding alphanumeric
normalize_label host s = alphanumeric (host.to_lower s)

-- `new ColumnResolver(headers)`, with the entries so far.
unfoldable pub column_map : Host → List String → Dict String → Dict String
unfolding insert normalize_label
column_map host [] columns = columns
column_map host (h ∷ headers) columns =
    column_map host headers (insert (normalize_label host h) h columns)

unfoldable pub resolve : Host → Dict String → String → Option String
unfolding lookup normalize_label
resolve host columns label =
    if is_empty label then none else lookup (normalize_label host label) columns
