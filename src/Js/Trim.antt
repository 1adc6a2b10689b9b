-- ===== src/Js/Trim.antt =====
-- `trim`, and the removal of white space, on texts.
use Prim.Native.Char.{code}
use Prim.Native.String.{[], ◌∷◌}
use ses.Base.{ℕ, String, Bool, ◌&&◌, ◌||◌, leb, ◌==◌, if◌then◌else◌, is_empty}

-- The white space and line ends of ECMAScript.
abbrev pub is_space : ℕ → Bool
is_space c =
    (leb 9 c && leb c 13)
    || c == 32
    || c == 160
    || c == 0x1680
    || (leb 0x2000 c && leb c 0x200a)
    || c == 0x2028
    || c == 0x2029
    || c == 0x202f
    || c == 0x205f
    || c == 0x3000
    || c == 0xfeff

unfoldable pub trim_start : String → String
trim_start [] = []
trim_start (c ∷ s) = if is_space (code c) then trim_start s else c ∷ s

unfoldable pub trim_end : String → String
trim_end [] = []
trim_end (c ∷ s) =
    let rest = trim_end s in if is_space (code c) && is_empty rest then [] else c ∷ rest

-- `s.trim()`.
unfoldable pub trim : String → String
unfolding trim_start trim_end
trim s = trim_end (trim_start s)

-- `s.replace(/\s+/g, '')`.
unfoldable pub strip_spaces : String → String
strip_spaces [] = []
strip_spaces (c ∷ s) = if is_space (code c) then strip_spaces s else c ∷ strip_spaces s
