-- ===== src/Pilot/Tests.antt =====
-- The theorem about proposed rules at a concrete rule, and runs of the definitions on it.
use ses.Base.{◌≡◌, refl, String, false, none, some, [], ◌∷◌}
use ses.Base.Dict.{Dict, lookup, insert}
use ses.Base.Result.{Result, ok, throw}
use ses.Js.{Host, text, nan, number, of_nat}
use ses.Workbook.{RowObject}
use ses.Pilot.{Json, plain, array, object, no_items, item, Fields, no_fields, entry, Platform}
use ses.Pilot.Operators.{column_map}
use ses.Pilot.Spec.{AiRuleSpec, validate_spec, max_levels}
use ses.Pilot.Evaluate.{evaluate_node}
use ses.Pilot.Evaluate.Accepted.{Ends, validate_spec-evaluate_node}

abbrev sample_host : Host
sample_host = record {
  show_number = λ n. "n";
  parse_number = λ s. nan;
  to_lower = λ s. s;
  to_upper = λ s. s;
  encode = λ s. [];
  now = "2026-01-01T00:00:00.000Z";
}

abbrev sample_platform : Platform
sample_platform = record { show_json = λ v. some "[object]"; percent = λ a base. nan }

abbrev with_text : String → String → Fields → Fields
with_text key value rest = entry key (plain (text value)) rest

-- A condition with an operator under its older name, and one on a column that no sheet has.
abbrev conditions : Json
conditions = object (
    entry "children"
      (array (
        item
          (object (
            with_text "operator" "=="
              (with_text "column" "State" (with_text "value" "open" no_fields))))
          (item (object (with_text "op" "isBlank" (with_text "column" "manager" no_fields)))
            no_items)))
      no_fields)

abbrev proposal : Json → Json
proposal logic = object (
    with_text "ruleCode" "r" (
      with_text "functionId" "over-planning" (
        with_text "name" "N" (
          with_text "flagMessage" "F" (
            with_text "severity" "High"
              (with_text "category" "Other" (entry "logic" logic no_fields)))))))

abbrev spec_of : Result AiRuleSpec → AiRuleSpec
spec_of (ok spec) = spec
spec_of (throw message) = record { input = no_fields; logic = object no_fields }

abbrev error_of : Result AiRuleSpec → String
error_of (ok spec) = ""
error_of (throw message) = message

abbrev sample_spec : AiRuleSpec
sample_spec = spec_of (validate_spec sample_host sample_platform (proposal conditions))

abbrev nested : Json → Json
nested logic = object (entry "children" (array (item logic no_items)) no_fields)

too_deep :
    error_of (validate_spec sample_host sample_platform (proposal (nested (nested conditions))))
    ≡ "logic: nesting depth exceeds 2"
unfolding validate_spec
too_deep = refl

accepted : validate_spec sample_host sample_platform (proposal conditions) ≡ ok sample_spec
unfolding validate_spec
accepted = refl

abbrev sample_columns : Dict String
sample_columns = column_map sample_host ("state" ∷ []) []

abbrev sample_row : RowObject
sample_row = ("state", text " open ") ∷ []

evaluate_node-run :
    evaluate_node sample_host sample_platform
      (("tate", "state") ∷ [])
      sample_row
      max_levels
      sample_spec.logic
      []
    ≡ ok (false, "manager" ∷ [])
unfolding evaluate_node validate_spec lookup insert
evaluate_node-run = refl

-- A rule whose value has no conversion to text is accepted, and its evaluation throws.
abbrev strict_platform : Platform
strict_platform = record { show_json = λ v. none; percent = λ a base. nan }

abbrev unprintable : Json
unprintable = object (
    with_text "op" "==" (
      with_text "column" "tate" (
        entry "value" (object (entry "toString" (plain (number (of_nat 1))) no_fields)) no_fields)))

unprintable-accepted :
    error_of (validate_spec sample_host strict_platform (proposal unprintable)) ≡ ""
unfolding validate_spec
unprintable-accepted = refl

unprintable-throws :
    evaluate_node sample_host strict_platform
      (("tate", "state") ∷ [])
      sample_row
      max_levels
      (spec_of (validate_spec sample_host strict_platform (proposal unprintable))).logic
      []
    ≡ throw "Cannot convert object to primitive value"
unfolding evaluate_node validate_spec lookup insert
unprintable-throws = refl

validate_spec-evaluate_node_example : Ends sample_platform (
    evaluate_node sample_host sample_platform sample_columns sample_row max_levels sample_spec.logic
      [])
validate_spec-evaluate_node_example =
    validate_spec-evaluate_node sample_host sample_platform (proposal conditions) sample_spec
      accepted sample_columns sample_row []
