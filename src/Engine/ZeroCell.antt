-- ===== src/Engine/ZeroCell.antt =====
-- The reading of a rate cell that the function-rate and the internal-cost-rate columns share, line by
-- line: only an exact zero counts.
pub mod Exact
use ses.Base.{
  ℕ, String, Bool, true, false, List, get_or, get_elem?, is_empty, if◌then◌else◌, [], ◌&&◌,
}
use ses.Js.{Host, Value, undefined, null, number, text, other, boolean, is_finite, is_zero}
use ses.Workbook.Rows.{cell_text}

pub data CellState : Type 0 where
  zero_cell ignore : CellState

-- `rawRows[rowIndex]?.[colIndex]`.
abbrev pub raw_cell : List (List Value) → ℕ → ℕ → Value
raw_cell raw_rows row_index col_index =
    get_or (get_elem? (get_or (get_elem? raw_rows row_index) []) col_index) undefined

abbrev pub classify_text : Host → String → CellState
classify_text host t =
    if is_empty t
    then ignore
    else let parsed = host.parse_number t in
      if is_finite parsed then if is_zero parsed then zero_cell else ignore else ignore

abbrev pub classify_value : Host → Value → CellState
classify_value host undefined = ignore
classify_value host null = ignore
classify_value host (number n) = if is_finite n && is_zero n then zero_cell else ignore
classify_value host (text s) = classify_text host (cell_text host (text s))
classify_value host (other s) = classify_text host (cell_text host (other s))
classify_value host (boolean b) = classify_text host (cell_text host (boolean b))

abbrev pub is_zero_cell : CellState → Bool
is_zero_cell zero_cell = true
is_zero_cell ignore = false
