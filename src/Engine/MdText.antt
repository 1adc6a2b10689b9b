-- ===== src/Engine/MdText.antt =====
-- functions-audit/master-data/engine.ts: the text of a finding, and the parts of a product.
use Prim.Native.Char.{Char, code}
use Prim.Native.String
use ses.Base.{
  ℕ, ◌+◌, ◌-◌, String, not, List, [], ◌∷◌, map, filter, if◌then◌else◌, is_empty, ltb, ◌==◌,
}
use ses.Js.{Host, Value}
use ses.Js.Trim.{trim}
use ses.Js.Words.{join}
use ses.Workbook.Rows.{cell_text}

-- The length of a character in UTF-16.
abbrev units : Char → ℕ
units c = if ltb 0xffff (code c) then 2 else 1

unfoldable pub utf16_length : String → ℕ
utf16_length String.[] = 0
utf16_length (String.◌∷◌ c s) = units c + utf16_length s

-- `s.slice(0, n)`, less half a surrogate pair that the cut would leave.
unfoldable pub slice_units : ℕ → String → String
slice_units n String.[] = String.[]
slice_units n (String.◌∷◌ c s) =
    let rest = slice_units (n - units c) s in
    if ltb n (units c) then String.[] else String.◌∷◌ c rest

unfoldable pub truncated : String → String
unfolding utf16_length slice_units join
truncated observed =
    if ltb 60 (utf16_length observed)
    then join "" (slice_units 57 observed ∷ "…" ∷ [])
    else observed

unfoldable pub md_reason : Host → Value → String → String
unfolding truncated cell_text join
md_reason host observed message =
    let observed' = truncated (cell_text host observed) in
    if is_empty observed'
    then message
    else join "" (message ∷ " (found: \"" ∷ observed' ∷ "\")" ∷ [])

-- `text.split(',')`, from the part so far.
split_from : String → String → List String
split_from part String.[] = part ∷ []
split_from part (String.◌∷◌ c s) =
    let at_comma = code c == b',' in
    let rest = split_from (if at_comma then "" else String.◌++◌ part (String.◌∷◌ c String.[])) s in
    if at_comma then part ∷ rest else rest

unfoldable pub product_parts : String → List String
unfolding split_from trim
product_parts s = filter (λ part. not (is_empty part)) (map trim (split_from "" s))
