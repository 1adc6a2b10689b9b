-- ===== src/Engine/ZeroMonths.antt =====
-- The loop over the rate columns of a row that the function-rate and the internal-cost-rate engines
-- share, line by line: the labels of the columns whose cell is exactly zero.
use mathlib.Core.List.{append-nil, append_assoc}
use ses.Base.{
  ℕ, ◌≡◌, refl, sym, String, Bool, List, [], ◌∷◌, ◌++◌, map, filter, arith, any, length,
  if◌then◌else◌, Bool-cases, inl, inr, ltb,
}
use ses.Js.{Host, Value}
use ses.Engine.Columns.{ColumnInfo}
use ses.Engine.ZeroCell.{CellState, raw_cell, classify_value, is_zero_cell}

unfoldable pub classify_rate_cell : Host → List (List Value) → ℕ → ℕ → CellState
classify_rate_cell host rows row_index col_index =
    classify_value host (raw_cell rows row_index col_index)

unfoldable pub missing_months_of :
    Host → List (List Value) → ℕ → List ColumnInfo → List String → List String
unfolding classify_rate_cell
missing_months_of host rows row_index [] missing_months = missing_months
missing_months_of host rows row_index (col ∷ cols) missing_months =
    missing_months_of host rows row_index cols (
      if is_zero_cell (classify_rate_cell host rows row_index col.col_index)
      then missing_months ++ col.label ∷ []
      else missing_months)

-- A list is longer than 0 after a filter exactly when some entry passes it.
length-map-filter {ℓ} :
    {A : Type ℓ} {B : Type 0} (f : A → B) (p : A → Bool) (xs : List A)
    → ltb 0 (length (map f (filter p xs))) ≡ any p xs
length-map-filter f p [] = refl
length-map-filter f p (x ∷ xs) = ground (arith, length-map-filter f p xs)

module _ (host : Host) (rows : List (List Value)) (row_index : ℕ) where
  -- The column's cell in the row is exactly zero.
  abbrev pub is_zero_column : ColumnInfo → Bool
  is_zero_column col = is_zero_cell (classify_value host (raw_cell rows row_index col.col_index))

  abbrev pub zero_months : List ColumnInfo → List String
  zero_months cols = map (λ c. c.label) (filter is_zero_column cols)

  pub missing_months_of_lem :
      (cols : List ColumnInfo) (acc : List String)
      → missing_months_of host rows row_index cols acc ≡ acc ++ zero_months cols
  unfolding missing_months_of classify_rate_cell
  missing_months_of_lem [] acc = sym (append-nil acc)
  missing_months_of_lem (col ∷ cols) acc = elim (Bool-cases (is_zero_column col)) [
    | inl e ↦ ground (
      arith,
      missing_months_of_lem cols (acc ++ col.label ∷ []),
      append_assoc acc (col.label ∷ []) (zero_months cols),
    )
    | inr e ↦ ground (arith, missing_months_of_lem cols acc)
  ]

  -- There is such a month exactly when some column's cell is zero.
  pub zero_months-any :
      (cols : List ColumnInfo) → ltb 0 (length (zero_months cols)) ≡ any is_zero_column cols
  zero_months-any cols = length-map-filter (λ c. c.label) is_zero_column cols
