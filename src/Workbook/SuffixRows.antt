-- ===== src/Workbook/SuffixRows.antt =====
-- packages/domain/src/audit/auditEngine.ts: `rowsToObjects` of the audit that is driven by the policy. It
-- differs from that of the per-function engines: a header whose key is taken gets a number.
pub mod Free
use Prim.Native.String
use ses.Base.{
  ℕ, zero, suc, ◌+◌, String, Bool, true, false, not, ◌&&◌, Option, none, some, List, [], ◌∷◌, map,
  filter, get_or, get_elem?, drop, length, is_empty, ◌==◌, if◌then◌else◌,
}
use ses.Base.Dict.{insert, lookup}
use ses.Js.{Host, Value, undefined, is_undefined, show_nat}
use ses.Js.Trim.{trim}
use ses.Js.Words.{starts_with, join}
use ses.Workbook.{RowObject, EvaluatedRow}
use ses.Workbook.Rows.{field, set_once, is_blank_row, number_rows, original_headers, headers_of}

-- The names that the loop tries in turn: the header, and from the second on the header with a number.
unfoldable pub key_of : Host → String → ℕ → String
key_of host original_key suffix =
    if suffix == 1
    then original_key
    else String.◌++◌ original_key (String.◌++◌ " " (show_nat host suffix))

-- `while (row[key] !== undefined)`, on fuel; `none` means that the fuel ran out.
unfoldable pub free_suffix : (ℕ → String) → RowObject → ℕ → ℕ → Option ℕ
unfolding lookup
free_suffix key row zero suffix = none
free_suffix key row (suc fuel) suffix =
    let rest = free_suffix key row fuel (suffix + 1) in
    if is_undefined (field row (key suffix)) then some suffix else rest

-- The write under the name that is found; the fuel is enough for every row.
unfoldable pub set_free : Host → String → Value → RowObject → RowObject
unfolding free_suffix key_of insert
set_free host original_key cell row =
    elim (free_suffix (key_of host original_key) row (suc (length row)) 1) [
      | none ↦ row
      | some suffix ↦ insert (key_of host original_key suffix) cell row
    ]

-- One round of `headers.forEach`.
unfoldable pub set_suffixed : Host → String → String → Value → RowObject → RowObject
unfolding trim starts_with set_free
set_suffixed host header original cell row =
    let canonical_key = trim header in
    let original_key = trim original in
    let with_canonical =
      if not (is_empty canonical_key) && not (starts_with canonical_key "column")
      then set_once canonical_key cell row
      else row in
    if is_empty original_key then with_canonical else set_free host original_key cell with_canonical

unfoldable pub set_all_suffixed :
    Host → List String → List Value → ℕ → List String → RowObject → RowObject
unfolding set_suffixed
set_all_suffixed host originals cells index [] row = row
set_all_suffixed host originals cells index (header ∷ headers) row =
    set_all_suffixed host originals cells (suc index) headers (
      set_suffixed host header (get_or (get_elem? originals index) "")
        (get_or (get_elem? cells index) undefined) row)

unfoldable pub suffixed_rows :
    Host → List (List Value) → ℕ → Option (List String) → List EvaluatedRow
unfolding is_blank_row set_all_suffixed number_rows
suffixed_rows host rows header_row_index normalized_headers =
    let originals = original_headers host rows header_row_index in
    let headers = headers_of normalized_headers originals in
    map (λ r. record { row = set_all_suffixed host originals r.1 0 headers []; row_index = r.0 })
      (filter (λ r. not (is_blank_row host r.1))
        (number_rows (header_row_index + 1) (drop (suc header_row_index) rows)))
