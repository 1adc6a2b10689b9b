-- ===== src/Escalation/Levels/Pairs.antt =====
-- The composite key tells the pairs apart as long as the separator stays out of the manager keys.
use Prim.Native.Char.{Char, code}
use Prim.Native.String
use Prim.Native.String.{[], ◌∷◌}
use text.Mathlib.TextLemmas.{nil-append, cons-append, head-eq_of_cons-eq, tail-eq_of_cons-eq}
use mathlib.Core.Path.{ap₂}
use ses.Base.{String, ◌≡◌, refl, ap, ap, ◌≢◌, sym, ◌∙◌, ◌↔◌}
use ses.Escalation.Levels.{occurrence_pair_key, pair_sep}

-- No character of the text is NUL.
abbrev pub NoNul : String → Type 0
NoNul [] = Unit
NoNul (c ∷ s) = (code c ≢ 0) × NoNul s

abbrev nul : Char
nul = "\0"

sep-cons : (i : String) → String.◌++◌ pair_sep i ≡ nul ∷ i
sep-cons i = cons-append nul [] i ∙ ap (λ s. nul ∷ s) (nil-append i)

nil-sep : (i : String) → String.◌++◌ [] (String.◌++◌ pair_sep i) ≡ nul ∷ i
nil-sep i = nil-append _ ∙ sep-cons i

split_unique :
    (m m' i i' : String)
    → NoNul m
    → NoNul m'
    → String.◌++◌ m (String.◌++◌ pair_sep i) ≡ String.◌++◌ m' (String.◌++◌ pair_sep i')
    → (m ≡ m') × (i ≡ i')
split_unique [] [] i i' h h' e = (refl, tail-eq_of_cons-eq (sym (nil-sep i) ∙ e ∙ nil-sep i'))
split_unique [] (c ∷ m') i i' h h' e =
    absurd (h'.0 (ap code (sym (head-eq_of_cons-eq (sym (nil-sep i) ∙ e ∙ cons-append c m' _)))))
split_unique (c ∷ m) [] i i' h h' e =
    absurd (h.0 (ap code (head-eq_of_cons-eq (sym (cons-append c m _) ∙ e ∙ nil-sep i'))))
split_unique (c ∷ m) (c' ∷ m') i i' h h' e =
    let e' : c ∷ String.◌++◌ m (String.◌++◌ pair_sep i)
        ≡ c' ∷ String.◌++◌ m' (String.◌++◌ pair_sep i') =
      sym (cons-append c m _) ∙ e ∙ cons-append c' m' _ in
    let ih = split_unique m m' i i' h.1 h'.1 (tail-eq_of_cons-eq e') in
    (ap₂ ◌∷◌ (head-eq_of_cons-eq e') ih.0, ih.1)

-- If neither manager key holds a NUL character, equal composite keys come from equal managers and
-- equal issues.
pub occurrence_pair_key-injective :
    (m m' i i' : String)
    → NoNul m
    → NoNul m'
    → (occurrence_pair_key m i ≡ occurrence_pair_key m' i') ↔ ((m ≡ m') × (i ≡ i'))
unfolding occurrence_pair_key
occurrence_pair_key-injective m m' i i' h h' =
    (split_unique m m' i i' h h', λ (p, q). ap₂ occurrence_pair_key p q)
