-- ===== src/Engine/ZeroCell/Exact.antt =====
-- When a cell counts as a zero.
use ses.Base.{◌≡◌, refl, String, true, false, is_empty, arith}
use ses.Js.{Host, Number, Value, undefined, null, number, text, other, boolean, is_finite, is_zero}
use ses.Workbook.Rows.{cell_text}
use ses.Engine.ZeroCell.{classify_text, classify_value, is_zero_cell}

-- A number that is 0, or a text that is not blank and reads as 0.
abbrev pub IsExactZero : Host → Value → Type 0
IsExactZero host undefined = ⊥
IsExactZero host null = ⊥
IsExactZero host (number n) = is_zero n ≡ true
IsExactZero host (text s) =
    (is_empty (cell_text host (text s)) ≡ false)
    × (is_zero (host.parse_number (cell_text host (text s))) ≡ true)
IsExactZero host (other s) =
    (is_empty (cell_text host (other s)) ≡ false)
    × (is_zero (host.parse_number (cell_text host (other s))) ≡ true)
IsExactZero host (boolean b) =
    (is_empty (cell_text host (boolean b)) ≡ false)
    × (is_zero (host.parse_number (cell_text host (boolean b))) ≡ true)

is_zero-finite : (n : Number) → is_zero n ≡ true → is_finite n ≡ true
is_zero-finite Number.nan h = absurd (cc)
is_zero-finite Number.infinity h = absurd (cc)
is_zero-finite Number.neg_infinity h = absurd (cc)
is_zero-finite (Number.finite z) h = refl

classify_text-zero :
    (host : Host) (t : String)
    → is_empty t ≡ false
    → is_zero (host.parse_number t) ≡ true
    → is_zero_cell (classify_text host t) ≡ true
classify_text-zero host t e z = ground (arith, is_zero-finite (host.parse_number t) z)

classify_text-zero_only :
    (host : Host) (t : String)
    → is_zero_cell (classify_text host t) ≡ true
    → (is_empty t ≡ false) × (is_zero (host.parse_number t) ≡ true)
classify_text-zero_only host t h = ground arith

-- A cell of a rate column counts as a zero exactly when it is the number 0, or a value whose text is
-- not blank and reads as the number 0; null and undefined do not count.
pub classify_value-zero :
    (host : Host) (v : Value)
    → (is_zero_cell (classify_value host v) ≡ true → IsExactZero host v)
      × (IsExactZero host v → is_zero_cell (classify_value host v) ≡ true)
classify_value-zero host undefined = (λ h. absurd (cc), λ h. absurd h)
classify_value-zero host null = (λ h. absurd (cc), λ h. absurd h)
classify_value-zero host (number n) = (λ h. ground arith, λ h. ground (arith, is_zero-finite n h))
classify_value-zero host (text s) = (
  classify_text-zero_only host (cell_text host (text s)),
  λ h. classify_text-zero host (cell_text host (text s)) h.0 h.1,
)
classify_value-zero host (other s) = (
  classify_text-zero_only host (cell_text host (other s)),
  λ h. classify_text-zero host (cell_text host (other s)) h.0 h.1,
)
classify_value-zero host (boolean b) = (
  classify_text-zero_only host (cell_text host (boolean b)),
  λ h. classify_text-zero host (cell_text host (boolean b)) h.0 h.1,
)
