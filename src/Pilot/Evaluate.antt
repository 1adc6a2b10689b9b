-- ===== src/Pilot/Evaluate.antt =====
-- packages/domain/src/ai-pilot/evaluator.ts: the evaluation of a rule on a row. The set of unknown columns
-- is passed on; what throws gives an error and no set.
pub mod Accepted
use ses.Base.{
  ℕ, zero, suc, String, Bool, true, false, not, ◌&&◌, Option, none, some, List, [], ◌∷◌, ◌++◌,
  contains, get_or, str_eq, is_empty, if◌then◌else◌,
}
use ses.Base.Dict.{Dict, lookup}
use ses.Base.Result.{Result, ok, throw}
use ses.Js.{Host, Value, undefined, null, number, text, boolean, nan, is_zero, to_text}
use ses.Workbook.{RowObject}
use ses.Workbook.Rows.{field}
use ses.Pilot.{
  Json, plain, array, object, Items, no_items, item, Fields, no_fields, get, as_text, Platform,
  conversion_error,
}
use ses.Pilot.Operators.{Operator, parse_operator, apply_operator, resolve}
use ses.Pilot.Spec.{is_group}

-- The result of an evaluation and the unknown columns so far.
abbrev pub Evaluation : Type 0
Evaluation = Result (Bool × List String)

-- `unknownColumns?.add(name)`.
unfoldable pub add_unknown : String → List String → List String
add_unknown name unknown = if contains unknown name then unknown else unknown ++ name ∷ []

-- A resolved column; an empty name is falsy.
abbrev pub named : Option String → Option String
named none = none
named (some s) = if is_empty s then none else some s

-- A falsy value: no text, 0, NaN, `false`, `undefined` or `null`.
abbrev pub is_falsy : Json → Bool
is_falsy (plain undefined) = true
is_falsy (plain null) = true
is_falsy (plain (text s)) = is_empty s
is_falsy (plain (number nan)) = true
is_falsy (plain (number n)) = is_zero n
is_falsy (plain (boolean b)) = not b
is_falsy _ = false

-- The loop of `every` and `some` after the test of a child, given what goes on with the others.
abbrev pub then_others : Bool → Evaluation → (List String → Evaluation) → Evaluation
then_others stop (throw message) others = throw message
then_others stop (ok (b, unknown)) others =
    let rest = others unknown in if (if stop then b else not b) then ok (stop, unknown) else rest

-- `node.children.every(test)` and, from the other truth value, `node.children.some(test)`: the loop ends
-- at the first child whose value is `stop`. Without an array there is no such method.
unfoldable pub children_until :
    Bool → (Json → List String → Evaluation) → Items → List String → Evaluation
children_until stop test no_items unknown = ok (not stop, unknown)
children_until stop test (item v items) unknown =
    then_others stop (test v unknown) (λ later. children_until stop test items later)

unfoldable pub evaluate_children :
    Bool → (Json → List String → Evaluation) → Json → List String → Evaluation
unfolding children_until
evaluate_children stop test (array items) unknown = children_until stop test items unknown
evaluate_children stop test _ unknown = throw "node.children is not an array"

-- The answer of an operator; a conversion in it may throw.
abbrev pub answer : Option Bool → List String → Evaluation
answer none unknown = throw conversion_error
answer (some b) unknown = ok (b, unknown)

-- The fields that can be read of a value: `undefined` and `null` throw, and no other plain value has any of
-- those that are read.
abbrev pub readable : Json → Option Fields
readable (plain undefined) = none
readable (plain null) = none
readable (plain v) = some no_fields
readable (array items) = some no_fields
readable (object fields) = some fields

abbrev pub plain_of : Json → Value
plain_of (plain v) = v
plain_of _ = undefined

module _ (host : Host) (platform : Platform) (columns : Dict String) (row : RowObject) where
  abbrev pub column_of : String → Option String
  column_of label = named (resolve host columns label)

  -- The call of the operator, where there is one of that name.
  unfoldable pub apply_known : Option Operator → Fields → String → Json → List String → Evaluation
  unfolding get apply_operator
  apply_known none fs real_col compare_cell unknown = throw "OPERATORS[node.op] is not a function"
  apply_known (some known) fs real_col compare_cell unknown =
      answer
        (apply_operator host platform known (plain (field row real_col)) (get "value" fs)
          (get "values" fs) compare_cell)
        unknown

  unfoldable pub apply_node : String → Fields → String → Json → List String → Evaluation
  unfolding parse_operator apply_known
  apply_node op fields real_col compare_cell unknown =
      apply_known (parse_operator op) fields real_col compare_cell unknown

  abbrev pub apply_compared :
      String → Fields → String → String → Option String → List String → Evaluation
  apply_compared op fs real_col compare_to none unknown = ok (false, add_unknown compare_to unknown)
  apply_compared op fs real_col compare_to (some real_compare) unknown =
      apply_node op fs real_col (plain (field row real_compare)) unknown

  -- The reading of the column to compare with. A name that is no text has no `toLowerCase`.
  abbrev pub apply_named : String → Fields → String → Option String → List String → Evaluation
  apply_named op fs real_col none unknown = throw "toLowerCase is not a function"
  apply_named op fs real_col (some name) unknown =
      apply_compared op fs real_col name (column_of name) unknown

  abbrev pub evaluate_compared : String → Fields → String → Json → List String → Evaluation
  evaluate_compared op fields real_col compare_to unknown =
      if str_eq op "%>" && not (is_falsy compare_to)
      then apply_named op fields real_col (as_text compare_to) unknown
      else apply_node op fields real_col (plain undefined) unknown

  -- `evaluateLeaf` after the column is resolved.
  abbrev pub evaluate_found : String → Fields → String → Option String → List String → Evaluation
  evaluate_found op fs column none unknown = ok (false, add_unknown column unknown)
  evaluate_found op fs column (some real_col) unknown =
      evaluate_compared op fs real_col (get "compareTo" fs) unknown

  -- The look-up of the column. An absent column is noted as unknown by its text.
  abbrev pub evaluate_column : String → Fields → Json → Option String → List String → Evaluation
  evaluate_column op fs column none unknown =
      if is_falsy column
      then ok (false, add_unknown (to_text host (plain_of column)) unknown)
      else throw "toLowerCase is not a function"
  evaluate_column op fs column (some label) unknown =
      evaluate_found op fs label (column_of label) unknown

  unfoldable pub evaluate_leaf : String → Fields → List String → Evaluation
  unfolding get resolve add_unknown apply_node
  evaluate_leaf op fields unknown =
      let column = get "column" fields in evaluate_column op fields column (as_text column) unknown

  -- `evaluateNode` after its reading of the fields. A node without a text as its `op` has no operator.
  unfoldable pub evaluate_fields :
      (Json → List String → Evaluation) → Option Fields → List String → Evaluation
  unfolding get evaluate_children evaluate_leaf
  evaluate_fields test none unknown = throw "node.op of no object"
  evaluate_fields test (some fs) unknown =
      let op = get_or (as_text (get "op" fs)) "" in
      if str_eq op "and"
      then evaluate_children false test (get "children" fs) unknown
      else if str_eq op "or"
      then evaluate_children true test (get "children" fs) unknown
      else evaluate_leaf op fs unknown

  -- `evaluateNode(row, node, ctx, depth)` with `MAX_DEPTH + 1 - depth` levels left.
  unfoldable pub evaluate_node : ℕ → Json → List String → Evaluation
  unfolding evaluate_fields
  evaluate_node zero node unknown = throw "AI rule nesting depth exceeds 2"
  evaluate_node (suc levels) node unknown =
      evaluate_fields (evaluate_node levels) (readable node) unknown
