-- ===== src/Base/Texts.antt =====
-- Text as the source uses it: comparison, and the tests that walk its characters.
use Prim.Native.String.{String}
use mathlib.Core.Bool.{Bool, false, ◌||◌}
use mathlib.Core.List.{List, [], ◌∷◌}
use text.Mathlib.Text
use ses.Base.Tests.{if◌then◌else◌}

-- `a === b` on strings.
abbrev pub str_eq : String → String → Bool
str_eq a b = Text.◌==◌ a b

-- A string is falsy exactly when it is empty.
abbrev pub is_empty : String → Bool
is_empty s = str_eq s ""

-- `a || b` on strings.
abbrev pub or_else : String → String → String
or_else a b = if is_empty a then b else a

-- `xs.includes(s)`, `set.has(s)`.
abbrev pub contains : List String → String → Bool
contains [] s = false
contains (x ∷ xs) s = str_eq x s || contains xs s
