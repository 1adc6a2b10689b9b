-- ===== src/Js/Words.antt =====
-- The header normalisation `s.toLowerCase().replace(/[^a-z0-9 ]/g, ' ').replace(/\s+/g, ' ').trim()`
-- and the regular expressions that are tested on its result. The result holds only a-z, 0-9 and
-- single spaces, so it is given by its words, and `\bw\b` matches exactly when w is one of them.
use Prim.Native.Char.{code}
use Prim.Native.String
use Prim.Native.String.{[] as nil, ◌∷◌ as cons}
use ses.Base.{
  ℕ, String, Bool, true, false, ◌&&◌, ◌||◌, leb, ◌==◌, if◌then◌else◌, is_empty, List, [], ◌∷◌,
  contains,
}

-- A character of `[a-z0-9]`.
abbrev pub is_word_char : ℕ → Bool
is_word_char c = (leb b'a' c && leb c b'z') || (leb b'0' c && leb c b'9')

abbrev is_digit : ℕ → Bool
is_digit c = leb b'0' c && leb c b'9'

abbrev emit : String → List String → List String
emit word rest = if is_empty word then rest else word ∷ rest

words_from : String → String → List String
words_from word String.[] = emit word []
words_from word (String.◌∷◌ c s) =
    let in_word = is_word_char (code c) in
    let rest = words_from (if in_word then String.◌++◌ word (String.◌∷◌ c String.[]) else "") s in
    if in_word then rest else emit word rest

-- The words of a lower-case text.
unfoldable pub words : String → List String
unfolding words_from
words s = words_from "" s

unfoldable pub join : String → List String → String
join sep [] = ""
join sep (w ∷ []) = w
join sep (w ∷ v ∷ ws) = String.◌++◌ w (String.◌++◌ sep (join sep (v ∷ ws)))

is_prefix : String → String → Bool
is_prefix String.[] s = true
is_prefix (String.◌∷◌ c p) String.[] = false
is_prefix (String.◌∷◌ c p) (String.◌∷◌ d s) = code c == code d && is_prefix p s

-- `s.includes(part)`.
unfoldable pub includes : String → String → Bool
unfolding is_prefix
includes String.[] part = is_empty part
includes (String.◌∷◌ c s) part = is_prefix part (String.◌∷◌ c s) || includes s part

-- `s.startsWith(part)`.
unfoldable pub starts_with : String → String → Bool
unfolding is_prefix
starts_with s part = is_prefix part s

abbrev pub all_months : List String
all_months =
    "jan" ∷ "feb" ∷ "mar" ∷ "apr" ∷ "may" ∷ "jun" ∷ "jul" ∷ "aug" ∷ "sep" ∷ "oct" ∷ "nov" ∷ "dec"
    ∷ "january" ∷ "february" ∷ "march" ∷ "april" ∷ "may" ∷ "june" ∷ "july" ∷ "august" ∷ "september"
    ∷ "october" ∷ "november" ∷ "december" ∷ []

-- The words that `/\b(0?[1-9]|1[0-2])\b/` finds.
abbrev month_numbers : List String
month_numbers =
    "1" ∷ "2" ∷ "3" ∷ "4" ∷ "5" ∷ "6" ∷ "7" ∷ "8" ∷ "9" ∷ "01" ∷ "02" ∷ "03" ∷ "04" ∷ "05" ∷ "06"
    ∷ "07" ∷ "08" ∷ "09" ∷ "10" ∷ "11" ∷ "12" ∷ []

unfoldable pub is_month_number : String → Bool
is_month_number w = contains month_numbers w

-- The words that `/\b(19|20)\d{2}\b/` finds.
unfoldable pub is_year : String → Bool
is_year (String.◌∷◌ a (String.◌∷◌ b (String.◌∷◌ c (String.◌∷◌ d String.[])))) =
    ((code a == b'1' && code b == b'9') || (code a == b'2' && code b == b'0'))
    && is_digit (code c)
    && is_digit (code d)
is_year _ = false
