-- ===== src/Engine/BadValues.antt =====
-- functions-audit/bad-values.ts: the texts that stand for a missing value.
use ses.Base.{String, Bool, List, [], ◌∷◌, contains}
use ses.Js.{Host, Value}
use ses.Workbook.Rows.{cell_text}

abbrev pub bad_value_tokens : List String
bad_value_tokens =
    "" ∷ "-" ∷ "--" ∷ "n/a" ∷ "na" ∷ "null" ∷ "none" ∷ "nil" ∷ "tbd" ∷ "pending" ∷ "undefined"
    ∷ "unknown" ∷ "?" ∷ "not assigned" ∷ "not available" ∷ "not available yet" ∷ "not avaliable yet"
    ∷ "missing" ∷ "not applicable" ∷ "not set" ∷ []

-- `normalizeCell`.
unfoldable pub normalize_cell : Host → Value → String
unfolding cell_text
normalize_cell host Value.undefined = ""
normalize_cell host Value.null = ""
normalize_cell host value = host.to_lower (cell_text host value)

unfoldable pub is_bad_value : Host → Value → Bool
unfolding normalize_cell
is_bad_value host value = contains bad_value_tokens (normalize_cell host value)

unfoldable pub is_others_token : Host → Value → Bool
unfolding normalize_cell
is_others_token host value = contains ("other" ∷ "others" ∷ []) (normalize_cell host value)

unfoldable pub is_not_assigned_token : Host → Value → Bool
unfolding normalize_cell
is_not_assigned_token host value = contains ("not assigned" ∷ []) (normalize_cell host value)
