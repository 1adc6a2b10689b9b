-- ===== src/Workbook/SuffixRows/Free.antt =====
-- The loop that looks for a free name ends.
use Prim.Native.String
use package.text.Mathlib.TextLemmas.{append_cancel_left, append-nil, cons-append}
use ses.Base.{
  ℕ, ◌+◌, ◌≡◌, ◌≢◌, ◌≤◌, ◌<◌, refl, sym, ◌∙◌, zero, suc, String, Bool, true, false, some, [], ◌∷◌,
  length, str_eq, ◌==◌, if◌then◌else◌, arith, eq_iff, Bool-cases, inl, inr,
}
use ses.Base.Dict.{lookup}
use ses.Js.{Host, is_undefined, show_nat}
use ses.Workbook.{RowObject}
use ses.Workbook.Rows.{field}
use ses.Workbook.SuffixRows.{key_of, free_suffix}

-- The entries of a row besides those of one name.
without : String → RowObject → RowObject
without key [] = []
without key ((here, value) ∷ row) =
    let rest = without key row in if str_eq here key then rest else (here, value) ∷ rest

length-without : (key : String) (row : RowObject) → length (without key row) ≤ length row
unfolding without
length-without key [] = omega arith
length-without key ((here, value) ∷ row) = ground (arith, length-without key row)

-- A name that has a value has an entry.
length-without-lt :
    (key : String) (row : RowObject)
    → is_undefined (field row key) ≡ false
    → length (without key row) < length row
unfolding without lookup
length-without-lt key [] h = absurd (cc h)
length-without-lt key ((here, value) ∷ row) h =
    ground (arith, length-without key row, length-without-lt key row)

lookup-without :
    (key other : String) (row : RowObject)
    → str_eq key other ≡ false
    → lookup other (without key row) ≡ lookup other row
unfolding without lookup
lookup-without key other [] h = refl
lookup-without key other ((here, value) ∷ row) h =
    ground
      (arith, eq_iff here key, eq_iff here other, eq_iff key other, lookup-without key other row h)

abbrev IsInjective : (ℕ → String) → Type 0
IsInjective key = (i j : ℕ) → key i ≡ key j → i ≡ j

-- The loop reads only the names from its suffix on.
free_suffix_ext :
    (key : ℕ → String) (row row' : RowObject) (fuel suffix : ℕ)
    → ((i : ℕ) → suffix ≤ i → lookup (key i) row ≡ lookup (key i) row')
    → free_suffix key row fuel suffix ≡ free_suffix key row' fuel suffix
unfolding free_suffix
free_suffix_ext key row row' zero suffix h = refl
free_suffix_ext key row row' (suc fuel) suffix h = ground (
  arith,
  h suffix (omega arith),
  free_suffix_ext key row row' fuel (suffix + 1) (λ i le. h i (omega arith)),
)

free_suffix-free :
    (key : ℕ → String) (row : RowObject) (fuel suffix i : ℕ)
    → free_suffix key row fuel suffix ≡ some i
    → is_undefined (field row (key i)) ≡ true
unfolding free_suffix
free_suffix-free key row zero suffix i e = absurd (cc e)
free_suffix-free key row (suc fuel) suffix i e =
    elim (Bool-cases (is_undefined (field row (key suffix)))) [
      | inl free ↦ ground arith
      | inr taken ↦ free_suffix-free key row fuel (suffix + 1) i (ground arith)
    ]

-- A later name is another one.
other_key :
    (key : ℕ → String) → IsInjective key → (i j : ℕ) → i < j → str_eq (key i) (key j) ≡ false
other_key key injective i j lt = elim (Bool-cases (str_eq (key i) (key j))) [
  | inl e ↦
      let same = injective i j ((eq_iff (key i) (key j)).0 e) in absurd (omega (arith, same, lt))
  | inr e ↦ e
]

free_suffix-total :
    (key : ℕ → String)
    → IsInjective key
    → (fuel suffix : ℕ) (row : RowObject) → length row < fuel
    → (i : ℕ) × (free_suffix key row fuel suffix ≡ some i)
unfolding free_suffix
free_suffix-total key injective zero suffix row h = absurd (omega arith)
free_suffix-total key injective (suc fuel) suffix row h =
    elim (Bool-cases (is_undefined (field row (key suffix)))) [
      | inl free ↦ (suffix, rw free refl)
      | inr taken ↦
          let row' = without (key suffix) row in
          let same = free_suffix_ext key row row' fuel (suffix + 1) (λ i le. sym (
            lookup-without (key suffix) (key i) row
              (other_key key injective suffix i (omega arith)))) in
          let (i, e) =
            free_suffix-total key injective fuel (suffix + 1) row'
              (omega (arith, h, length-without-lt (key suffix) row taken)) in
          (i, rw taken (same ∙ e))
    ]

-- A header differs from the header with a number, and those with different numbers differ.
tail-ne-nil :
    (host : Host) (original_key : String) (n : ℕ)
    → original_key ≢ String.◌++◌ original_key (String.◌++◌ " " (show_nat host n))
tail-ne-nil host original_key n e =
    let cut =
      append_cancel_left original_key "" (String.◌++◌ " " (show_nat host n))
        (append-nil original_key ∙ e) in
    absurd (cc (cut ∙ cons-append " " "" (show_nat host n)))

key_of-IsInjective :
    (host : Host) (original_key : String)
    → ((a b : ℕ) → show_nat host a ≡ show_nat host b → a ≡ b)
    → IsInjective (key_of host original_key)
unfolding key_of
key_of-IsInjective host original_key shown i j e = go (i == 1) (j == 1) refl refl e
  where
    numbered : ℕ → String
    numbered n = String.◌++◌ original_key (String.◌++◌ " " (show_nat host n))

    go :
        (b c : Bool)
        → (i == 1) ≡ b
        → (j == 1) ≡ c
        → (if b then original_key else numbered i) ≡ (if c then original_key else numbered j)
        → i ≡ j
    go true true p q e = ground (arith, p, q)
    go true false p q e = absurd (tail-ne-nil host original_key j e)
    go false true p q e = absurd (tail-ne-nil host original_key i (sym e))
    go false false p q e =
        shown i j (append_cancel_left " " _ _ (append_cancel_left original_key _ _ e))

-- If different counters have different texts, the loop that looks for a free name ends within as many
-- rounds as the row has names, and one more: it finds a name that has no value yet.
pub free_suffix-key_of :
    (host : Host) (original_key : String) (row : RowObject)
    → ((a b : ℕ) → show_nat host a ≡ show_nat host b → a ≡ b)
    → (i : ℕ) × ((free_suffix (key_of host original_key) row (suc (length row)) 1 ≡ some i)
        × (is_undefined (field row (key_of host original_key i)) ≡ true))
free_suffix-key_of host original_key row shown =
    let key = key_of host original_key in
    let (i, e) =
      free_suffix-total key (key_of-IsInjective host original_key shown) (suc (length row)) 1 row
        (omega arith) in
    (i, (e, free_suffix-free key row (suc (length row)) 1 i e))
