-- ===== src/Pilot.antt =====
-- packages/domain/src/ai-pilot: the rules that a language model proposes. A rule's logic comes as JSON;
-- it is validated (specSchema.ts) and then evaluated on rows (evaluator.ts, operators.ts).
pub mod Operators
pub mod Spec
pub mod Evaluate
pub mod Merge
mod Tests
use ses.Base.{ℕ, String, Bool, true, false, Option, none, some, str_eq, if◌then◌else◌, ◌≡◌, suc}
use ses.Js.{Value, undefined, text}

-- A JSON value: an array and an object are the two values that are not plain ones.
mutual
  pub data Json : Type 0 where
    plain : Value → Json
    array : Items → Json
    object : Fields → Json

  pub data Items : Type 0 where
    no_items : Items
    item : Json → Items → Items

  pub data Fields : Type 0 where
    no_fields : Fields
    entry : String → Json → Fields → Fields

-- `fields[key]`.
unfoldable pub get : String → Fields → Json
get key no_fields = plain undefined
get key (entry here value rest) =
    let later = get key rest in if str_eq here key then value else later

-- `fields[key] = value`.
unfoldable pub put : String → Json → Fields → Fields
put key value no_fields = entry key value no_fields
put key value (entry here old rest) =
    let later = put key value rest in
    if str_eq here key then entry here value rest else entry here old later

-- `delete fields[key]`.
unfoldable pub remove : String → Fields → Fields
remove key no_fields = no_fields
remove key (entry here value rest) =
    let later = remove key rest in if str_eq here key then later else entry here value later

-- `typeof v === 'string' ? v : …`.
abbrev pub as_text : Json → Option String
as_text (plain (text s)) = some s
as_text _ = none

-- `v === undefined`.
abbrev pub is_absent : Json → Bool
is_absent (plain undefined) = true
is_absent _ = false

abbrev pub is_array : Json → Bool
is_array (array items) = true
is_array _ = false

-- The items of an array; of another value none.
abbrev pub items_of : Json → Items
items_of (array items) = items
items_of _ = no_items

-- The fields of an object that can be read by name; an array has none of those that are read.
abbrev pub fields_of : Json → Option Fields
fields_of (plain v) = none
fields_of (array items) = some no_fields
fields_of (object fields) = some fields

-- What the language gives to these rules besides its strings: `String(v)` of an array or an object, which
-- throws (`none`) where neither its `toString` nor its `valueOf` gives a primitive value, as in
-- `{"toString": 1}`, and `((a - base) / base) * 100` on doubles.
pub record Platform : Type 0 where
  pub show_json : Json → Option String
  pub percent : ses.Js.Number → ses.Js.Number → ses.Js.Number

-- What such a conversion throws.
abbrev pub conversion_error : String
conversion_error = "Cannot convert object to primitive value"
