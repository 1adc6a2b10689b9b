-- ===== src/Pilot/Spec.antt =====
-- packages/domain/src/ai-pilot/specSchema.ts: the validation of a proposed rule.
use Prim.Native.String
use ses.Base.{
  ℕ, zero, suc, String, Bool, true, not, ◌&&◌, ◌||◌, Option, none, some, List, [], ◌∷◌, str_eq,
  is_empty, is_some, contains, if◌then◌else◌, get_or,
}
use ses.Base.Result.{Result, ok, throw}
use ses.Js.{Host, undefined, null, number, text, of_nat, gt, to_text, show_nat}
use ses.Js.Trim.{trim}
use ses.Js.Words.{join}
use ses.Pilot.{
  Json, plain, array, object, Items, no_items, item, Fields, no_fields, entry, get, put, remove,
  as_text, is_absent, is_array, fields_of, Platform, conversion_error,
}
use ses.Pilot.Operators.{parse_operator}

-- `{ ...xs }` of an array, from the given index on.
unfoldable pub indexed : Host → ℕ → Items → Fields
indexed host i no_items = no_fields
indexed host i (item v items) = entry (show_nat host i) v (indexed host (suc i) items)

-- `typeof fields[key] === 'string'`.
abbrev pub has_text : String → Fields → Bool
has_text key fields = is_some (as_text (get key fields))

-- The renaming of `operator`.
unfoldable pub rename_operator : Fields → Fields
unfolding get put remove
rename_operator fields =
    if has_text "operator" fields && not (has_text "op" fields)
    then remove "operator" (put "op" (get "operator" fields) fields)
    else fields

-- The default of `op`.
unfoldable pub default_op : Fields → Fields
unfolding get put
default_op fields =
    if is_array (get "children" fields) && not (has_text "op" fields)
    then put "op" (plain (text "and")) fields
    else fields

-- The coercion of the value of isOneOf.
unfoldable pub coerce_values : Fields → Fields
unfolding get put remove
coerce_values fields =
    let value = get "value" fields in
    if str_eq (get_or (as_text (get "op" fields)) "") "isOneOf"
      && (not (is_absent value) && is_absent (get "values" fields))
    then remove "value"
        (put "values" (if is_array value then value else array (item value no_items)) fields)
    else fields

-- `normalizeLogic`. The children are normalised where they stand: no other step reads into them.
unfoldable mutual
  unfolding indexed rename_operator default_op coerce_values

  pub normalize_logic : Host → Json → Json
  normalize_logic host (plain v) = plain v
  normalize_logic host (array items) = object (indexed host 0 items)
  normalize_logic host (object fields) =
      object (coerce_values (default_op (rename_operator (normalize_fields host fields))))

  pub normalize_fields : Host → Fields → Fields
  normalize_fields host no_fields = no_fields
  normalize_fields host (entry key value rest) =
      let children = normalize_children host value in
      entry key (if str_eq key "children" then children else value) (normalize_fields host rest)

  pub normalize_children : Host → Json → Json
  normalize_children host (array items) = array (normalize_items host items)
  normalize_children host value = value

  pub normalize_items : Host → Items → Items
  normalize_items host no_items = no_items
  normalize_items host (item v items) = item (normalize_logic host v) (normalize_items host items)

-- The loop over the children: the first error.
unfoldable pub first_error : (Json → Option String) → Items → Option String
first_error check no_items = none
first_error check (item v items) =
    let rest = first_error check items in elim (check v) [ none ↦ rest | some e ↦ some e ]

-- `!text.trim()` of a value that has to be a text.
unfoldable pub is_missing_text : Option String → Bool
unfolding trim
is_missing_text none = true
is_missing_text (some s) = is_empty (trim s)

-- The checks of a node that is no `and` or `or`.
unfoldable pub validate_leaf : String → Fields → Option String
unfolding get is_missing_text
validate_leaf op fields =
    if is_missing_text (as_text (get "column" fields))
    then some "column required"
    else if str_eq op "isOneOf" && not (is_array (get "values" fields))
    then some "values[] required for isOneOf"
    else if str_eq op "%>" && not (has_text "compareTo" fields)
    then some "compareTo required for %>"
    else none

abbrev pub is_group : String → Bool
is_group op = str_eq op "and" || str_eq op "or"

-- The checks of a node's children.
unfoldable pub validate_children : (Json → Option String) → Json → Option String
unfolding first_error
validate_children check (array (item v items)) = first_error check (item v items)
validate_children check _ = some "children required"

-- The error of an unknown operator, given its text. Where that text cannot be made, the validation throws
-- in place of returning an error: both reject the rule, here with the message of what is thrown.
abbrev pub unknown_op : Option String → String
unknown_op none = conversion_error
unknown_op (some shown) = join "" ("unknown op '" ∷ shown ∷ "'" ∷ [])

-- `validateNode` of an object, after its reading of `op`.
unfoldable pub validate_op :
    (Json → Option String) → Option String → Fields → Option String → Option String
unfolding validate_leaf validate_children get parse_operator
validate_op check shown fs none = some (unknown_op shown)
validate_op check shown fs (some op) =
    if is_group op
    then validate_children check (get "children" fs)
    else if is_some (parse_operator op)
    then validate_leaf op fs
    else some (unknown_op shown)

-- The text `String(v)` in an error.
abbrev pub shown_op : Host → Platform → Json → Option String
shown_op host platform (plain undefined) = some "undefined"
shown_op host platform (plain null) = some "null"
shown_op host platform (plain v) = some (to_text host v)
shown_op host platform v = platform.show_json v

unfoldable pub validate_fields :
    Host → Platform → (Json → Option String) → Option Fields → Option String
unfolding validate_op get
validate_fields host platform check none = some "node must be an object"
validate_fields host platform check (some fields) =
    validate_op check (shown_op host platform (get "op" fields)) fields (as_text (get "op" fields))

-- `validateNode(node, depth)` with `MAX_DEPTH + 1 - depth` levels left.
unfoldable pub validate_node : Host → Platform → ℕ → Json → Option String
unfolding validate_fields
validate_node host platform zero node = some "nesting depth exceeds 2"
validate_node host platform (suc levels) node =
    validate_fields host platform (validate_node host platform levels) (fields_of node)

-- `MAX_DEPTH + 1`.
abbrev pub max_levels : ℕ
max_levels = 3

abbrev pub severities : List String
severities = "High" ∷ "Medium" ∷ "Low" ∷ []

abbrev pub categories : List String
categories =
    "Overplanning" ∷ "Missing Planning" ∷ "Function Rate" ∷ "Internal Cost Rate" ∷ "Other"
    ∷ "Effort Threshold" ∷ "Missing Data" ∷ "Planning Risk" ∷ "Capacity Risk" ∷ "Data Quality"
    ∷ "Needs Review" ∷ []

-- `AiRuleSpec`: the fields of the input as they are, with the normalised logic.
pub record AiRuleSpec : Type 0 where
  pub input : Fields
  pub logic : Json

abbrev pub is_bad_version : Json → Bool
is_bad_version (plain (number n)) = gt (of_nat 1) n
is_bad_version v = not (is_absent v)

-- The first check of `validateSpec` on the fields that fails.
unfoldable pub spec_error : Fields → Option String
unfolding get is_missing_text of_nat join
spec_error s =
    if is_missing_text (as_text (get "ruleCode" s))
    then some "ruleCode required"
    else if not (has_text "functionId" s)
    then some "functionId required"
    else if is_missing_text (as_text (get "name" s))
    then some "name required"
    else if not (has_text "flagMessage" s)
    then some "flagMessage required"
    else if is_bad_version (get "ruleVersion" s)
    then some "ruleVersion must be a positive integer if provided"
    else if not (contains severities (get_or (as_text (get "severity" s)) ""))
    then some (String.◌++◌ "severity must be one of " (join ", " severities))
    else if not (contains categories (get_or (as_text (get "category" s)) ""))
    then some (String.◌++◌ "category must be one of " (join ", " categories))
    else none

-- The end of `validateSpec`.
unfoldable pub validate_logic : Fields → Json → Option String → Result AiRuleSpec
validate_logic s logic none = ok (record { input = s; logic = logic })
validate_logic s logic (some e) = throw (String.◌++◌ "logic: " e)

unfoldable pub validate_checked : Host → Platform → Fields → Option String → Result AiRuleSpec
unfolding validate_logic validate_node normalize_logic get
validate_checked host platform s (some e) = throw e
validate_checked host platform s none =
    let logic = normalize_logic host (get "logic" s) in
    validate_logic s logic (validate_node host platform max_levels logic)

abbrev pub validate_object : Host → Platform → Option Fields → Result AiRuleSpec
validate_object host platform none = throw "spec must be an object"
validate_object host platform (some s) = validate_checked host platform s (spec_error s)

-- `validateSpec`: `throw e` is `{ ok: false, error: e }`.
unfoldable pub validate_spec : Host → Platform → Json → Result AiRuleSpec
unfolding validate_checked spec_error
validate_spec host platform input = validate_object host platform (fields_of input)
