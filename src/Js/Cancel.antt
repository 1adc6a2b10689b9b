-- ===== src/Js/Cancel.antt =====
-- Whole numbers as doubles are distinct.
use ses.Base.{ℕ, ◌*◌, ◌^◌, ◌≡◌, ◌<◌, refl, arith, zero, suc, ◌+◌}
use ses.Js.{Number, of_nat, unit}
use ses.Js.Int.{pos}

pub of_nat-injective : (a b : ℕ) → of_nat a ≡ of_nat b → a ≡ b
unfolding of_nat unit
of_nat-injective a b e = omega (arith, whole)
  where
    number_pos : Number → ℕ
    number_pos (Number.finite (pos n)) = n
    number_pos _ = 0

    whole : a * 2 ^ 1074 ≡ b * 2 ^ 1074
    whole = ses.Base.ap number_pos e
