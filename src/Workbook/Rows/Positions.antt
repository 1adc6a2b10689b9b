-- ===== src/Workbook/Rows/Positions.antt =====
-- Where the rows that `rowsToObjects` returns stand in the sheet.
use ses.Base.{
  ℕ, zero, suc, ◌+◌, ◌≤◌, ◌<◌, ◌≡◌, refl, sym, ◌∙◌, ap, String, Bool, true, false, not, Option,
  some, List, [], ◌∷◌, map, filter, arith, All, get_elem?, drop, if◌then◌else◌,
}
use ses.Js.{Host, Value}
use ses.Workbook.Rows.{is_blank_row, number_rows, rows_to_objects}

All-keep {ℓ κ} :
    {A : Type ℓ} (P : A → Type κ) (p : A → Bool) (x : A) (rest : List A)
    → P x
    → All (λ x. P x × (p x ≡ true)) rest
    → All (λ x. P x × (p x ≡ true)) (if p x then x ∷ rest else rest)
All-keep P p x rest h hs = go (p x) refl
  where
    go : (b : Bool) → p x ≡ b → All (λ x. P x × (p x ≡ true)) (if b then x ∷ rest else rest)
    go true e = ((h, e), hs)
    go false e = hs

All-filter {ℓ κ} :
    {A : Type ℓ} (P : A → Type κ) (p : A → Bool) (xs : List A)
    → All P xs
    → All (λ x. P x × (p x ≡ true)) (filter p xs)
All-filter P p [] h = tt
All-filter P p (x ∷ xs) h = All-keep P p x (filter p xs) h.0 (All-filter P p xs h.1)

All-map {ℓ κ μ} :
    {A : Type ℓ} {B : Type κ} (P : A → Type μ) (Q : B → Type μ) (f : A → B)
    → ((x : A) → P x → Q (f x))
    → (xs : List A) → All P xs
    → All Q (map f xs)
All-map P Q f h [] a = tt
All-map P Q f h (x ∷ xs) a = (h x a.0, All-map P Q f h xs a.1)

get_elem?-drop {ℓ} :
    {A : Type ℓ} (n : ℕ) (xs : List A) (j : ℕ) → get_elem? (drop n xs) j ≡ get_elem? xs (n + j)
get_elem?-drop zero xs j = ap (get_elem? xs) (omega arith)
get_elem?-drop (suc n) [] j = refl
get_elem?-drop (suc n) (x ∷ xs) j =
    get_elem?-drop n xs j ∙ ap (get_elem? (x ∷ xs)) {x = suc (n + j)} (omega arith)

module _ (rows : List (List Value)) where
  -- A numbered row carries its own position, which is at least `first`.
  abbrev IsNumbered : ℕ → ℕ × List Value → Type 0
  IsNumbered first (i, cells) = (first ≤ i) × (get_elem? rows i ≡ some cells)

  number_rows-IsNumbered :
      (first index : ℕ) (tail : List (List Value))
      → first ≤ index
      → ((j : ℕ) → get_elem? tail j ≡ get_elem? rows (index + j))
      → All (IsNumbered first) (number_rows index tail)
  unfolding number_rows
  number_rows-IsNumbered first index [] h at = tt
  number_rows-IsNumbered first index (cells ∷ tail) h at = (
    (h, sym (at 0 ∙ ap (get_elem? rows) (omega arith))),
    number_rows-IsNumbered first (suc index) tail (omega arith)
        (λ j. at (suc j) ∙ ap (get_elem? rows) (omega arith)),
  )

-- Every row object that `rowsToObjects` returns carries the position, below the header row, of a row of
-- the sheet that is not blank.
pub rows_to_objects-positions :
    (host : Host) (rows : List (List Value)) (header_row_index : ℕ) (headers : Option (List String))
    → All
        (λ r.
          (header_row_index < r.row_index)
          × ((cells : List Value) × (get_elem? rows r.row_index ≡ some cells)
              × (is_blank_row host cells ≡ false)))
        (rows_to_objects host rows header_row_index headers)
unfolding rows_to_objects
rows_to_objects-positions host rows header_row_index headers =
    let first = header_row_index + 1 in
    All-map _ _ _
      (λ r h. (omega (arith, h.0.0), (r.1, h.0.1, not_true (is_blank_row host r.1) h.1))) _
      (All-filter (IsNumbered rows first) _ _ (
        number_rows-IsNumbered rows first first (drop (suc header_row_index) rows) (omega arith)
          (λ j. get_elem?-drop (suc header_row_index) rows j ∙ ap (get_elem? rows) (omega arith))))
  where
    not_true : (b : Bool) → not b ≡ true → b ≡ false
    not_true b h = ground arith
