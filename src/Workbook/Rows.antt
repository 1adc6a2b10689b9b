-- ===== src/Workbook/Rows.antt =====
-- `isBlankRow`, `rowsToObjects`, `readCell` and `textValue` of the per-function engines.
pub mod Positions
use ses.Base.{
  ℕ, zero, suc, ◌+◌, String, Bool, true, false, not, ◌&&◌, Option, none, some, List, [], ◌∷◌, map,
  all, filter, get_or, get_elem?, drop, is_empty, or_else, if◌then◌else◌,
}
use ses.Base.Dict.{lookup, insert}
use ses.Js.{Host, Value, undefined, null, to_text, is_undefined}
use ses.Js.Trim.{trim}
use ses.Js.Words.{starts_with}
use ses.Workbook.{RowObject, EvaluatedRow}

-- `String(cell ?? '').trim()`.
unfoldable pub cell_text : Host → Value → String
unfolding trim
cell_text host cell = trim (to_text host cell)

unfoldable pub is_blank_row : Host → List Value → Bool
unfolding cell_text
is_blank_row host row = all (λ cell. is_empty (cell_text host cell)) row

-- `row[key]`; a key that is not there reads as `undefined`.
abbrev pub field : RowObject → String → Value
field row key = get_or (lookup key row) undefined

abbrev pub set_once : String → Value → RowObject → RowObject
set_once key cell row = if is_undefined (field row key) then insert key cell row else row

-- One round of `headers.forEach`.
unfoldable pub set_header : String → String → Value → RowObject → RowObject
unfolding trim starts_with
set_header header original cell row =
    let canonical_key = trim header in
    let original_key = trim original in
    let with_canonical =
      if not (is_empty canonical_key) && not (starts_with canonical_key "column")
      then set_once canonical_key cell row
      else row in
    if is_empty original_key then with_canonical else set_once original_key cell with_canonical

unfoldable pub set_headers : List String → List Value → ℕ → List String → RowObject → RowObject
unfolding set_header
set_headers originals cells index [] row = row
set_headers originals cells index (header ∷ headers) row =
    set_headers originals cells (suc index) headers (
      set_header header (get_or (get_elem? originals index) "")
        (get_or (get_elem? cells index) undefined) row)

-- `.map((row, index) => ({ cells: row, rowIndex: … }))`.
unfoldable pub number_rows : ℕ → List (List Value) → List (ℕ × List Value)
number_rows index [] = []
number_rows index (cells ∷ rows) = (index, cells) ∷ number_rows (suc index) rows

abbrev pub original_headers : Host → List (List Value) → ℕ → List String
original_headers host rows header_row_index =
    map (cell_text host) (get_or (get_elem? rows header_row_index) [])

abbrev pub headers_of : Option (List String) → List String → List String
headers_of none originals = originals
headers_of (some []) originals = originals
headers_of (some (h ∷ hs)) originals = h ∷ hs

unfoldable pub rows_to_objects :
    Host → List (List Value) → ℕ → Option (List String) → List EvaluatedRow
unfolding is_blank_row set_headers number_rows cell_text
rows_to_objects host rows header_row_index normalized_headers =
    let originals = original_headers host rows header_row_index in
    let headers = headers_of normalized_headers originals in
    map (λ r. record { row = set_headers originals r.1 0 headers []; row_index = r.0 })
      (filter (λ r. not (is_blank_row host r.1))
        (number_rows (header_row_index + 1) (drop (suc header_row_index) rows)))

-- A key whose value is `undefined` is passed over.
unfoldable pub read_cell : RowObject → List String → Value
read_cell row [] = undefined
read_cell row (alias ∷ aliases) =
    let value = field row alias in if is_undefined value then read_cell row aliases else value

abbrev pub text_of : Host → Value → String → String
text_of host undefined fallback = fallback
text_of host null fallback = fallback
text_of host raw fallback = or_else (cell_text host raw) fallback

unfoldable pub text_value : Host → RowObject → List String → String → String
unfolding read_cell cell_text
text_value host row aliases fallback = text_of host (read_cell row aliases) fallback
