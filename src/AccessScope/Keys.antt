-- ===== src/AccessScope/Keys.antt =====
-- The keys under which scopes are collapsed tell kinds and functions apart.
use Prim.Native.Char.{code}
use Prim.Native.String
use Prim.Native.String.{[] as nil, ◌∷◌ as cons}
use text.Mathlib.TextLemmas.{append_cancel_left, cons-append}
use ses.Base.{
  ℕ, ◌≡◌, ◌≢◌, refl, sym, ap, String, true, false, Option, none, some, str_eq, is_empty, get_or,
  arith, eq_iff, Bool-cases, inl, inr,
}
use ses.AccessScope.{
  ScopeKind, all_functions, function_scope, escalation_center, ScopeAccessLevel, ScopeRow, is_for,
  for_all, scope_key, stored_row, is_all_functions,
}

-- The number of the first character.
first_code : String → ℕ
first_code String.[] = 0
first_code (String.◌∷◌ c t) = code c

keys_differ : (a b : String) → first_code a ≢ first_code b → str_eq a b ≡ false
keys_differ a b d = elim (Bool-cases (str_eq a b)) [
  | inl e ↦ absurd (d (ap first_code ((eq_iff a b).0 e)))
  | inr e ↦ e
]

first_all : (t : String) → first_code (String.◌++◌ "all-functions" t) ≡ 97
unfolding first_code
first_all t = ap first_code (cons-append "a" "ll-functions" t)

first_function : (t : String) → first_code (String.◌++◌ "function" t) ≡ 102
unfolding first_code
first_function t = ap first_code (cons-append "f" "unction" t)

first_center : (t : String) → first_code (String.◌++◌ "escalation-center" t) ≡ 101
unfolding first_code
first_center t = ap first_code (cons-append "e" "scalation-center" t)

abbrev pub function_key : String → String
function_key function_id = String.◌++◌ "function" (String.◌++◌ "::" function_id)

abbrev pub center_key : String → String
center_key id = String.◌++◌ "escalation-center" (String.◌++◌ "::" id)

abbrev pub all_key : String → String
all_key id = String.◌++◌ "all-functions" (String.◌++◌ "::" id)

function_key-all_key : (f g : String) → str_eq (all_key g) (function_key f) ≡ false
function_key-all_key f g = keys_differ (all_key g) (function_key f) (λ e.
    absurd (omega (arith, first_all (String.◌++◌ "::" g), first_function (String.◌++◌ "::" f), e)))

function_key-center_key : (f g : String) → str_eq (center_key g) (function_key f) ≡ false
function_key-center_key f g = keys_differ (center_key g) (function_key f) (λ e.
    absurd
      (omega (arith, first_center (String.◌++◌ "::" g), first_function (String.◌++◌ "::" f), e)))

all_key-center_key : (f g : String) → str_eq (center_key g) (all_key f) ≡ false
all_key-center_key f g = keys_differ (center_key g) (all_key f) (λ e.
    absurd (omega (arith, first_center (String.◌++◌ "::" g), first_all (String.◌++◌ "::" f), e)))

function_key-eq : (f g : String) → str_eq (function_key g) (function_key f) ≡ str_eq g f
function_key-eq f g = elim (Bool-cases (str_eq g f)) [
  | inl e ↦
      ground (arith, eq_iff (function_key g) (function_key f), ap function_key ((eq_iff g f).0 e))
  | inr e ↦ elim (Bool-cases (str_eq (function_key g) (function_key f))) [
    | inl e' ↦
        let cut =
          append_cancel_left "::" g f
            (append_cancel_left "function" _ _ ((eq_iff (function_key g) (function_key f)).0 e')) in
        ground (arith, eq_iff g f, cut)
    | inr e' ↦ ground arith
  ]
]

abbrev row_with : ScopeKind → Option String → ScopeAccessLevel → ScopeRow
row_with kind id level = record { scope_type = kind; function_id = id; access_level = level }

is_for-row :
    (f : String)
    → is_empty f ≡ false
    → (kind : ScopeKind) (id : Option String) (level : ScopeAccessLevel)
    → is_for f (stored_row (row_with kind id level))
      ≡ str_eq (scope_key (row_with kind id level)) (function_key f)
unfolding scope_key
is_for-row f named all_functions id level = sym (function_key-all_key f (get_or id ""))
is_for-row f named escalation_center id level = sym (function_key-center_key f (get_or id ""))
is_for-row f named function_scope none level =
    ground (arith, function_key-eq f "", eq_iff "" f, eq_iff f "")
is_for-row f named function_scope (some id) level = sym (function_key-eq f id)

-- The row that is stored for an input is for a function exactly if the input has the function's key.
pub is_for-scope_key :
    (f : String)
    → is_empty f ≡ false
    → (s : ScopeRow) → is_for f (stored_row s) ≡ str_eq (scope_key s) (function_key f)
is_for-scope_key f named s = is_for-row f named s.scope_type s.function_id s.access_level

-- An input for all functions names none.
abbrev pub IsPlain : ScopeRow → Type 0
IsPlain s = is_all_functions s.scope_type ≡ true → s.function_id ≡ none

for_all-row :
    (kind : ScopeKind) (id : Option String) (level : ScopeAccessLevel)
    → IsPlain (row_with kind id level)
    → for_all (stored_row (row_with kind id level))
      ≡ str_eq (scope_key (row_with kind id level)) (all_key "")
unfolding scope_key
for_all-row all_functions id level plain = ground (
  arith,
  plain refl,
  ap (λ x. all_key (get_or x "")) (plain refl),
  eq_iff (all_key (get_or id "")) (all_key ""),
)
for_all-row function_scope id level plain = ground (
  arith,
  function_key-all_key (get_or id "") "",
  eq_iff (all_key "") (function_key (get_or id "")),
  eq_iff (function_key (get_or id "")) (all_key ""),
)
for_all-row escalation_center id level plain = sym (all_key-center_key "" (get_or id ""))

pub for_all-scope_key :
    (s : ScopeRow) → IsPlain s → for_all (stored_row s) ≡ str_eq (scope_key s) (all_key "")
for_all-scope_key s plain = for_all-row s.scope_type s.function_id s.access_level plain
