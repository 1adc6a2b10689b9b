-- ===== src/Engine/Columns.antt =====
-- The search for the header row that the column modules of the rate and plan engines share: the best
-- single row, and the best pair of rows whose texts are merged.
pub mod Best
use Prim.Native.String
use ses.Base.{
  ℕ, zero, suc, ◌+◌, ◌-◌, min, max, String, Bool, List, [], ◌∷◌, get_or, get_elem?, is_empty,
  if◌then◌else◌, length, ltb,
}
use ses.Js.{Host, Value, undefined}
use ses.Js.Trim.{trim}
use ses.Workbook.Rows.{cell_text}

pub record ColumnInfo : Type 0 where
  pub col_index : ℕ
  pub label : String

-- `columns` and `count` of the best row so far: a later row replaces it only with strictly more.
abbrev pub better : List ColumnInfo → List ColumnInfo → List ColumnInfo
better best cols = if ltb (length best) (length cols) then cols else best

module _ (host : Host) (is_column : String → Bool) where
  -- The loop over the cells of one row.
  unfoldable pub scan_row : ℕ → List Value → List ColumnInfo
  scan_row c [] = []
  scan_row c (cell ∷ cells) =
      let h = cell_text host cell in
      let rest = scan_row (suc c) cells in
      if is_column h then record { col_index = c; label = h } ∷ rest else rest

  -- The loop over the first `limit` rows.
  unfoldable pub best_single : ℕ → List (List Value) → List ColumnInfo → List ColumnInfo
  unfolding scan_row
  best_single zero rows best = best
  best_single (suc limit) [] best = best
  best_single (suc limit) (row ∷ rows) best = best_single limit rows (better best (scan_row 0 row))

  -- `bottom ? `${top} ${bottom}`.trim() : top`.
  unfoldable pub merged_label : Value → Value → String
  unfolding trim
  merged_label above below =
      let top = cell_text host above in
      let bottom = cell_text host below in
      if is_empty bottom then top else trim (String.◌++◌ top (String.◌++◌ " " bottom))

  -- The loop over the columns `c` to `c + width - 1` of two rows.
  unfoldable pub scan_pair : ℕ → ℕ → List Value → List Value → List ColumnInfo
  unfolding merged_label
  scan_pair zero c above below = []
  scan_pair (suc width) c above below =
      let merged =
        merged_label (get_or (get_elem? above c) undefined)
          (get_or (get_elem? below c) undefined) in
      let rest = scan_pair width (suc c) above below in
      if is_column merged then record { col_index = c; label = merged } ∷ rest else rest

  -- The loop over the first `limit` pairs of rows. `width` is the number of columns to look at.
  unfoldable pub best_merged :
      (List Value → List Value → ℕ) → ℕ → List (List Value) → List ColumnInfo → List ColumnInfo
  unfolding scan_pair
  best_merged width zero rows best = best
  best_merged width (suc limit) (above ∷ below ∷ rows) best =
      best_merged width limit (below ∷ rows)
        (better best (scan_pair (width above below) 0 above below))
  best_merged width (suc limit) _ best = best
