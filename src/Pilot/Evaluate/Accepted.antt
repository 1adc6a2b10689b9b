-- ===== src/Pilot/Evaluate/Accepted.antt =====
-- An accepted rule can be evaluated on every row.
use ses.Base.{
  ℕ, ◌≡◌, refl, sym, zero, suc, String, Bool, true, false, not, ◌&&◌, ◌||◌, Option, none, some,
  List, str_eq, is_some, if◌then◌else◌, arith,
}
use ses.Base.Dict.{Dict}
use ses.Base.Result.{ok, throw}
use ses.Js.{Host, undefined}
use ses.Workbook.{RowObject}
use ses.Pilot.{
  Json, plain, array, object, Items, no_items, item, Fields, no_fields, get, as_text, fields_of,
  Platform, conversion_error,
}
use ses.Pilot.Operators.{Operator, parse_operator}
use ses.Pilot.Operators.Reads.{Reads, apply_operator-Reads}
use ses.Workbook.Rows.{field}
use ses.Pilot.Spec.{
  AiRuleSpec, first_error, is_missing_text, validate_leaf, validate_children, validate_op, shown_op,
  validate_fields, validate_node, max_levels, has_text, validate_logic, validate_checked,
  validate_spec, validate_object, spec_error, normalize_logic,
}
use ses.Pilot.Evaluate.{
  Evaluation, is_falsy, then_others, column_of, apply_known, apply_compared, apply_named,
  evaluate_compared, evaluate_found, evaluate_column, children_until, evaluate_children, apply_node,
  evaluate_leaf, evaluate_fields, evaluate_node, readable, answer,
}

-- The evaluation gives a value, or it throws the error of a conversion to text and there is a value that
-- has none.
abbrev pub Ends : Platform → Evaluation → Type 0
Ends platform (ok r) = Unit
Ends platform (throw message) =
    (message ≡ conversion_error) × (v : Json) × (platform.show_json v ≡ none)

abbrev Test : Type 0
Test = Json → List String → Evaluation

first_error-none :
    (check : Json → Option String) (v : Json) (items : Items)
    → first_error check (item v items) ≡ none
    → (check v ≡ none) × (first_error check items ≡ none)
unfolding first_error
first_error-none check v items e = ground arith

module _ (platform : Platform) where
  if-Ends :
      (b : Bool) (reply other : Evaluation)
      → Ends platform reply
      → Ends platform other
      → Ends platform (if b then reply else other)
  if-Ends true reply other h k = h
  if-Ends false reply other h k = k

  then_others-Ends :
      (stop : Bool) (reply : Evaluation) (others : List String → Evaluation)
      → Ends platform reply
      → ((unknown : List String) → Ends platform (others unknown))
      → Ends platform (then_others stop reply others)
  then_others-Ends stop (throw message) others h rest = h
  then_others-Ends stop (ok (b, unknown)) others h rest =
      if-Ends (if stop then b else not b) (ok (stop, unknown)) (others unknown) tt (rest unknown)

  children_until-done :
      (stop : Bool) (check : Json → Option String) (test : Test)
      → ((v : Json) → check v ≡ none → (unknown : List String) → Ends platform (test v unknown))
      → (items : Items) → first_error check items ≡ none
      → (unknown : List String) → Ends platform (children_until stop test items unknown)
  unfolding first_error children_until
  children_until-done stop check test sound no_items e unknown = tt
  children_until-done stop check test sound (item v items) e unknown =
      let (first, later) = first_error-none check v items e in
      then_others-Ends stop (test v unknown) _ (sound v first unknown)
        (children_until-done stop check test sound items later)

if_none :
    {A : Type 0} (b : Bool) (a : A) (o : Option A)
    → (if b then some a else o) ≡ none
    → (b ≡ false) × (o ≡ none)
if_none true a o e = absurd (cc e)
if_none false a o e = (refl, e)

-- What the validation of a leaf says about its texts.
validate_leaf-none :
    (op : String) (fs : Fields)
    → validate_leaf op fs ≡ none
    → (is_missing_text (as_text (get "column" fs)) ≡ false)
      × ((str_eq op "%>" && not (has_text "compareTo" fs)) ≡ false)
unfolding validate_leaf
validate_leaf-none op fs e =
    let (column, later) = if_none _ _ _ e in
    let (values, last) = if_none _ _ _ later in (column, (if_none _ _ _ last).0)

module _ (host : Host) (platform : Platform) (columns : Dict String) (row : RowObject) where
  answer-Ends :
      (o : Option Bool) (unknown : List String)
      → Reads platform o
      → Ends platform (answer o unknown)
  unfolding Reads
  answer-Ends none unknown h = (refl, h.0, h.1)
  answer-Ends (some b) unknown h = tt

  apply_known-done :
      (known : Option Operator) (fs : Fields) (col : String) (cell : Json) (unknown : List String)
      → is_some known ≡ true
      → Ends platform (apply_known host platform columns row known fs col cell unknown)
  unfolding apply_known
  apply_known-done none fs col cell unknown h = absurd (cc)
  apply_known-done (some known) fs col cell unknown h = answer-Ends _ unknown (
      apply_operator-Reads platform host known (plain (field row col)) (get "value" fs)
        (get "values" fs) cell)

  apply_compared-done :
      (op : String) (fs : Fields) (col name : String) (compared : Option String)
      (unknown : List String)
      → is_some (parse_operator op) ≡ true
      → Ends platform (apply_compared host platform columns row op fs col name compared unknown)
  unfolding apply_node
  apply_compared-done op fs col name none unknown known = tt
  apply_compared-done op fs col name (some real) unknown known =
      apply_known-done (parse_operator op) fs col _ unknown known

  apply_named-done :
      (op : String) (fs : Fields) (col : String) (name : Option String) (unknown : List String)
      → is_some (parse_operator op) ≡ true
      → is_some name ≡ true
      → Ends platform (apply_named host platform columns row op fs col name unknown)
  apply_named-done op fs col none unknown known h = absurd (cc)
  apply_named-done op fs col (some name) unknown known h =
      apply_compared-done op fs col name (column_of host platform columns row name) unknown known

  evaluate_compared-done :
      (op : String) (fs : Fields) (col : String) (compare_to : Json) (unknown : List String)
      → is_some (parse_operator op) ≡ true
      → (str_eq op "%>" && not (is_some (as_text compare_to))) ≡ false
      → Ends platform (evaluate_compared host platform columns row op fs col compare_to unknown)
  unfolding apply_node
  evaluate_compared-done op fs col compare_to unknown known h =
      go (str_eq op "%>") (is_some (as_text compare_to)) h refl
    where
      go :
          (is_percent has_name : Bool)
          → (is_percent && not has_name) ≡ false
          → is_some (as_text compare_to) ≡ has_name
          → Ends platform (
              if is_percent && not (is_falsy compare_to)
              then apply_named host platform columns row op fs col (as_text compare_to) unknown
              else apply_node host platform columns row op fs col (plain undefined) unknown)
      go false has_name h e = apply_known-done (parse_operator op) fs col _ unknown known
      go true false h e = absurd (cc h)
      go true true h e = either (is_falsy compare_to)
        where
          either :
              (b : Bool)
              → Ends platform (
                  if not b
                  then apply_named host platform columns row op fs col (as_text compare_to) unknown
                  else apply_node host platform columns row op fs col (plain undefined) unknown)
          either false = apply_named-done op fs col (as_text compare_to) unknown known e
          either true = apply_known-done (parse_operator op) fs col _ unknown known

  evaluate_found-done :
      (op : String) (fs : Fields) (label : String) (found : Option String) (unknown : List String)
      → is_some (parse_operator op) ≡ true
      → (str_eq op "%>" && not (has_text "compareTo" fs)) ≡ false
      → Ends platform (evaluate_found host platform columns row op fs label found unknown)
  evaluate_found-done op fs label none unknown known h = tt
  evaluate_found-done op fs label (some real) unknown known h =
      evaluate_compared-done op fs real (get "compareTo" fs) unknown known h

  evaluate_column-done :
      (op : String) (fs : Fields) (column : Json) (label : Option String) (unknown : List String)
      → is_some (parse_operator op) ≡ true
      → is_missing_text label ≡ false
      → (str_eq op "%>" && not (has_text "compareTo" fs)) ≡ false
      → Ends platform (evaluate_column host platform columns row op fs column label unknown)
  unfolding is_missing_text
  evaluate_column-done op fs column none unknown known m h = absurd (cc m)
  evaluate_column-done op fs column (some label) unknown known m h =
      evaluate_found-done op fs label (column_of host platform columns row label) unknown known h

  evaluate_leaf-done :
      (op : String) (fs : Fields) (unknown : List String)
      → is_some (parse_operator op) ≡ true
      → validate_leaf op fs ≡ none
      → Ends platform (evaluate_leaf host platform columns row op fs unknown)
  unfolding evaluate_leaf
  evaluate_leaf-done op fs unknown known h =
      let (column, compared) = validate_leaf-none op fs h in
      evaluate_column-done op fs (get "column" fs) (as_text (get "column" fs)) unknown known column
        compared

  evaluate_children-done :
      (stop : Bool) (check : Json → Option String) (test : Test)
      → ((v : Json) → check v ≡ none → (unknown : List String) → Ends platform (test v unknown))
      → (children : Json) → validate_children check children ≡ none
      → (unknown : List String) → Ends platform (evaluate_children stop test children unknown)
  unfolding validate_children evaluate_children
  evaluate_children-done stop check test sound (plain v) e unknown = absurd (cc e)
  evaluate_children-done stop check test sound (object fs) e unknown = absurd (cc e)
  evaluate_children-done stop check test sound (array no_items) e unknown = absurd (cc e)
  evaluate_children-done stop check test sound (array (item v items)) e unknown =
      children_until-done platform stop check test sound (item v items) e unknown

  -- What the validation of a node says, given its operator.
  evaluate_op-done :
      (check : Json → Option String) (test : Test) (shown : Option String)
      → ((v : Json) → check v ≡ none → (unknown : List String) → Ends platform (test v unknown))
      → (fs : Fields) (op : Option String) → as_text (get "op" fs) ≡ op
      → validate_op check shown fs op ≡ none
      → (unknown : List String)
      → Ends platform (evaluate_fields host platform columns row test (some fs) unknown)
  unfolding evaluate_fields validate_op
  evaluate_op-done check test shown sound fs none named e unknown = absurd (cc e)
  evaluate_op-done check test shown sound fs (some op) named e unknown =
      rw named (by_name (str_eq op "and") (str_eq op "or") (is_some (parse_operator op)) _ refl e)
    where
      by_name :
          (is_and is_or is_known : Bool) (message : String)
          → is_some (parse_operator op) ≡ is_known
          → (if is_and || is_or
              then validate_children check (get "children" fs)
              else if is_known
              then validate_leaf op fs
              else some message)
            ≡ none
          → Ends platform (
              if is_and
              then evaluate_children false test (get "children" fs) unknown
              else if is_or
              then evaluate_children true test (get "children" fs) unknown
              else evaluate_leaf host platform columns row op fs unknown)
      by_name true is_or is_known message k e =
          evaluate_children-done false check test sound _ e unknown
      by_name false true is_known message k e =
          evaluate_children-done true check test sound _ e unknown
      by_name false false true message k e = evaluate_leaf-done op fs unknown k e
      by_name false false false message k e = absurd (cc e)

  evaluate_fields-done :
      (check : Json → Option String) (test : Test)
      → ((v : Json) → check v ≡ none → (unknown : List String) → Ends platform (test v unknown))
      → (node : Json) → validate_fields host platform check (fields_of node) ≡ none
      → (unknown : List String)
      → Ends platform (evaluate_fields host platform columns row test (readable node) unknown)
  unfolding validate_fields
  evaluate_fields-done check test sound (plain v) e unknown = absurd (cc e)
  evaluate_fields-done check test sound (array items) e unknown =
      evaluate_op-done check test (shown_op host platform (get "op" no_fields)) sound no_fields _
        refl e unknown
  evaluate_fields-done check test sound (object fs) e unknown =
      evaluate_op-done check test (shown_op host platform (get "op" fs)) sound fs _ refl e unknown

  evaluate_node-done :
      (levels : ℕ) (node : Json)
      → validate_node host platform levels node ≡ none
      → (unknown : List String)
      → Ends platform (evaluate_node host platform columns row levels node unknown)
  unfolding validate_node evaluate_node
  evaluate_node-done zero node e unknown = absurd (cc e)
  evaluate_node-done (suc levels) node e unknown =
      evaluate_fields-done (validate_node host platform levels)
        (evaluate_node host platform columns row levels) (evaluate_node-done levels) node e unknown

validate_logic-ok :
    (s : Fields) (logic : Json) (error : Option String) (spec : AiRuleSpec)
    → validate_logic s logic error ≡ ok spec
    → (error ≡ none) × (logic ≡ spec.logic)
unfolding validate_logic
validate_logic-ok s logic none spec e = (refl, cc e)
validate_logic-ok s logic (some m) spec e = absurd (cc e)

validate_checked-ok :
    (host : Host) (platform : Platform) (s : Fields) (error : Option String) (spec : AiRuleSpec)
    → validate_checked host platform s error ≡ ok spec
    → validate_node host platform max_levels spec.logic ≡ none
unfolding validate_checked
validate_checked-ok host platform s (some m) spec e = absurd (cc e)
validate_checked-ok host platform s none spec e =
    let logic = normalize_logic host (get "logic" s) in
    let (valid, same) =
      validate_logic-ok s logic (validate_node host platform max_levels logic) spec e in
    rw (sym same) valid

validate_object-ok :
    (host : Host) (platform : Platform) (fs : Option Fields) (spec : AiRuleSpec)
    → validate_object host platform fs ≡ ok spec
    → validate_node host platform max_levels spec.logic ≡ none
validate_object-ok host platform none spec e = absurd (cc e)
validate_object-ok host platform (some s) spec e =
    validate_checked-ok host platform s (spec_error s) spec e

-- A rule that the validation accepts, whatever JSON was proposed, can be evaluated on every row with
-- every set of columns: the evaluation ends with a truth value, or it throws the one error of a
-- conversion to text, and then there is an array or an object whose conversion throws. Neither the limit
-- on the depth nor missing children, a missing field, an unknown operator or a column that is no text
-- makes it throw.
pub validate_spec-evaluate_node :
    (host : Host) (platform : Platform) (input : Json) (spec : AiRuleSpec)
    → validate_spec host platform input ≡ ok spec
    → (columns : Dict String) (row : RowObject) (unknown : List String)
    → Ends platform (evaluate_node host platform columns row max_levels spec.logic unknown)
unfolding validate_spec
validate_spec-evaluate_node host platform input spec e columns row unknown =
    evaluate_node-done host platform columns row max_levels spec.logic
      (validate_object-ok host platform (fields_of input) spec e) unknown
