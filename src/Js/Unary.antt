-- ===== src/Js/Unary.antt =====
-- A host that shows a whole number as that many ones, at which hypotheses about a host hold.

use ses.Base.{ℕ, ◌≡◌, refl, ap, zero, suc, String, []}
use ses.Js.{Host, Number, of_nat, nan, show_nat}
use ses.Js.Int.{pos}
use ses.Js.Cancel.{of_nat-injective}

unfoldable pub unary : ℕ → String
unary zero = String.[]
unary (suc n) = String.◌∷◌ "1" (unary n)

tail : String → String
tail String.[] = String.[]
tail (String.◌∷◌ c s) = s

unary-injective : (a b : ℕ) → unary a ≡ unary b → a ≡ b
unfolding unary tail
unary-injective zero zero e = refl
unary-injective zero (suc b) e = absurd (cc e)
unary-injective (suc a) zero e = absurd (cc e)
unary-injective (suc a) (suc b) e = ap suc (unary-injective a b (ap tail e))

abbrev pub unary_of : Number → String
unary_of (Number.finite (pos n)) = unary n
unary_of _ = ""

-- A host that shows whole numbers in unary.
abbrev pub unary_host : Host
unary_host = record {
  show_number = unary_of;
  parse_number = λ s. nan;
  to_lower = λ s. s;
  to_upper = λ s. s;
  encode = λ s. [];
  now = "2026-01-01T00:00:00.000Z";
}

-- Different counters have different texts there.
pub show_nat-injective : (a b : ℕ) → show_nat unary_host a ≡ show_nat unary_host b → a ≡ b
unfolding of_nat
show_nat-injective a b e =
    of_nat-injective a b (ap (λ n. Number.finite (pos n)) (unary-injective _ _ e))
