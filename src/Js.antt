-- ===== src/Js.antt =====
-- The values of JavaScript that the audit code reads from workbooks, and the operations of the
-- language and its library on them.
pub mod Int
pub mod Trim
pub mod Words
pub mod Order
pub mod Cancel
pub mod Unary
use ses.Base.{not, ◌||◌, ℕ, ◌*◌, ◌^◌, String, Bool, true, false, Option, none, some, is_empty, List}
use ses.Js.Int.{ℤ, pos, negsuc, ltb_ℤ}

-- A double. Every finite double is a whole multiple of 2 ^ -1074: `finite z` stands for
-- z * 2 ^ -1074, so that comparison of doubles is comparison of integers. Both zeros are `pos 0`.
pub data Number : Type 0 where
  nan infinity neg_infinity : Number
  finite : ℤ → Number

unit : ℕ
unit = 2 ^ 1074

-- A whole number of the program's text or of its counters.
unfoldable pub of_nat : ℕ → Number
unfolding unit
of_nat n = finite (pos (n * unit))

-- `isFinite(n)`.
abbrev pub is_finite : Number → Bool
is_finite (finite z) = true
is_finite _ = false

-- `n === 0`.
abbrev pub is_zero : Number → Bool
is_zero (finite (pos ℕ.zero)) = true
is_zero _ = false

-- `a > b`.
abbrev pub gt : Number → Number → Bool
gt nan b = false
gt neg_infinity b = false
gt (finite a) (finite b) = ltb_ℤ b a
gt (finite a) neg_infinity = true
gt (finite a) _ = false
gt infinity (finite b) = true
gt infinity neg_infinity = true
gt infinity _ = false

-- A value: `other s` is any value besides those named, with the text that `String(v)` gives for it.
pub data Value : Type 0 where
  undefined null : Value
  number : Number → Value
  text other : String → Value
  boolean : Bool → Value

abbrev pub is_undefined : Value → Bool
is_undefined undefined = true
is_undefined _ = false

-- The parts of the language's library that are taken as given: number formatting and parsing, case
-- mapping, UTF-8 encoding and the clock.
pub record Host : Type 0 where
  pub show_number : Number → String
  pub parse_number : String → Number
  pub to_lower : String → String
  pub to_upper : String → String
  pub encode : String → List ℕ
  pub now : String

-- `String(v ?? '')`.
abbrev pub to_text : Host → Value → String
to_text host undefined = ""
to_text host null = ""
to_text host (number n) = host.show_number n
to_text host (text s) = s
to_text host (other s) = s
to_text host (boolean true) = "true"
to_text host (boolean false) = "false"

-- A template literal `${n}` at a counter.
abbrev pub show_nat : Host → ℕ → String
show_nat host n = host.show_number (of_nat n)

-- `a === b` on numbers.
unfoldable pub num_eq : Number → Number → Bool
num_eq nan b = false
num_eq infinity infinity = true
num_eq infinity _ = false
num_eq neg_infinity neg_infinity = true
num_eq neg_infinity _ = false
num_eq (finite a) (finite b) = not (ltb_ℤ a b || ltb_ℤ b a)
num_eq (finite a) _ = false
