-- ===== src/Base/Sets.antt =====
-- A JavaScript `Set` of strings: a list without duplicates, in insertion order.
use mathlib.Core.Path.{◌≡◌}
use mathlib.Core.Bool.{false, ◌||◌}
use mathlib.Core.List.{List, [], ◌∷◌, ◌++◌}
use Prim.Native.String.{String}
use Prim.Native.Nat.{◌+◌}
use native.Mathlib.Omega.{arith}
use text.Mathlib.TextEquality.{eq_iff}
use ses.Base.Tests.{if◌then◌else◌}
use ses.Base.Texts.{str_eq, contains}
use ses.Base.Lists.{length, length-append}

-- `set.add(s)`.
unfoldable pub add : String → List String → List String
add s xs = if contains xs s then xs else xs ++ s ∷ []

abbrev pub Distinct : List String → Type 0
Distinct [] = Unit
Distinct (x ∷ xs) = (contains xs x ≡ false) × Distinct xs

pub contains-append :
    (xs ys : List String) (s : String) → contains (xs ++ ys) s ≡ (contains xs s || contains ys s)
contains-append [] ys s = ground arith
contains-append (x ∷ xs) ys s = ground (arith, contains-append xs ys s)

pub contains-add :
    (s t : String) (xs : List String) → contains (add s xs) t ≡ (contains xs t || str_eq s t)
unfolding add
contains-add s t xs = ground (arith, contains-append xs (s ∷ []) t, eq_iff s t)

append-Distinct :
    (s : String) (xs : List String) → Distinct xs → contains xs s ≡ false → Distinct (xs ++ s ∷ [])
append-Distinct s [] d h = ground arith
append-Distinct s (x ∷ xs) d h =
    ground (arith, contains-append xs (s ∷ []) x, eq_iff s x, eq_iff x s, append-Distinct s xs d.1)

pub add-Distinct : (s : String) (xs : List String) → Distinct xs → Distinct (add s xs)
unfolding add
add-Distinct s xs d = ground (arith, append-Distinct s xs d)

pub length-add :
    (s : String) (xs : List String)
    → length (add s xs) ≡ (if contains xs s then length xs else length xs + 1)
unfolding add
length-add s xs = ground (arith, length-append xs (s ∷ []))
