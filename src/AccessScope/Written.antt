-- ===== src/AccessScope/Written.antt =====
-- The rows of a member once the scopes are written, and what a search among them finds.

use ses.Base.{
  ◌≡◌, refl, sym, ap, ◌∙◌, String, Bool, not, Option, none, some, List, [], ◌∷◌, ◌++◌, map, filter,
  str_eq, arith, eq_iff, if◌then◌else◌, All, Bool-cases, inl, inr,
}
use ses.Base.Dict.{Dict, lookup, insert, lookup-insert}
use ses.AccessScope.{
  ScopeAccessLevel, ScopeRow, ScopeRecord, candidate, scopes_of, scope_key, collapse, stored_row,
  replace_member_scopes,
}

-- The last input of a list that has the key, or else the given one.
abbrev pub last_with : String → List ScopeRow → Option ScopeRow → Option ScopeRow
last_with key [] found = found
last_with key (s ∷ scopes) found =
    last_with key scopes (if str_eq (scope_key s) key then some s else found)

lookup-collapse :
    (key : String) (scopes : List ScopeRow) (seen : Dict ScopeRow)
    → lookup key (collapse scopes seen) ≡ last_with key scopes (lookup key seen)
unfolding collapse
lookup-collapse key [] seen = refl
lookup-collapse key (s ∷ scopes) seen =
    rw
      (
        lookup-collapse key scopes (insert (scope_key s) s seen),
        lookup-insert (scope_key s) key s seen,
      )
      refl

module _ (test : ScopeRow → Bool) (key : String) where
  -- The test holds of the row of an input exactly when the input has the key.
  abbrev pub IsTested : String × ScopeRow → Type 0
  IsTested e = test (stored_row e.1) ≡ str_eq e.0 key

  insert-IsTested :
      (s : ScopeRow) (seen : Dict ScopeRow)
      → IsTested (scope_key s, s)
      → All IsTested seen
      → All IsTested (insert (scope_key s) s seen)
  unfolding insert
  insert-IsTested s [] t h = (t, tt)
  insert-IsTested s ((here, old) ∷ seen) t h = elim (Bool-cases (str_eq here (scope_key s))) [
    | inl e ↦ rw e (t ∙ ap (λ x. str_eq x key) (sym ((eq_iff here (scope_key s)).0 e)), h.1)
    | inr e ↦ rw e (h.0, insert-IsTested s seen t h.1)
  ]

  collapse-IsTested :
      (scopes : List ScopeRow) (seen : Dict ScopeRow)
      → All (λ s. IsTested (scope_key s, s)) scopes
      → All IsTested seen
      → All IsTested (collapse scopes seen)
  unfolding collapse
  collapse-IsTested [] seen t h = h
  collapse-IsTested (s ∷ scopes) seen t h =
      collapse-IsTested scopes (insert (scope_key s) s seen) t.1 (insert-IsTested s seen t.0 h)

abbrev pub level_of : Option ScopeRow → List ScopeAccessLevel
level_of none = []
level_of (some s) = s.access_level ∷ []

-- What such a test finds among the rows is what stands under the key.
candidate-keyed :
    (test : ScopeRow → Bool) (key : String) (seen : Dict ScopeRow)
    → All (IsTested test key) seen
    → candidate test (map (λ e. stored_row e.1) seen) ≡ level_of (lookup key seen)
unfolding candidate lookup
candidate-keyed test key [] h = refl
candidate-keyed test key ((here, s) ∷ seen) h =
    ground (arith, h.0, candidate-keyed test key seen h.1)

-- So it finds the level of the last input with the key.
pub candidate-last :
    (test : ScopeRow → Bool) (key : String) (scopes : List ScopeRow)
    → All (λ s. IsTested test key (scope_key s, s)) scopes
    → candidate test (map (λ e. stored_row e.1) (collapse scopes []))
      ≡ level_of (last_with key scopes none)
unfolding lookup
candidate-last test key scopes h =
    candidate-keyed test key (collapse scopes []) (collapse-IsTested test key scopes [] h tt)
    ∙ ap level_of (lookup-collapse key scopes [])

-- The rows of a member, and of another member, after the scopes of the member are replaced.
pub scopes_of-append :
    (member_id : String) (xs ys : List ScopeRecord)
    → scopes_of member_id (xs ++ ys) ≡ scopes_of member_id xs ++ scopes_of member_id ys
scopes_of-append member_id [] ys = refl
scopes_of-append member_id (x ∷ xs) ys = ground (arith, scopes_of-append member_id xs ys)

abbrev pub kept : String → List ScopeRecord → List ScopeRecord
kept member_id table = filter (λ r. not (str_eq r.member_id member_id)) table

pub scopes_of-kept :
    (member_id : String) (table : List ScopeRecord)
    → scopes_of member_id (kept member_id table) ≡ []
scopes_of-kept member_id [] = refl
scopes_of-kept member_id (r ∷ table) = ground (arith, scopes_of-kept member_id table)

abbrev pub written : String → String → Dict ScopeRow → List ScopeRecord
written process_id member_id seen =
    map (λ e. record { process_id = process_id; member_id = member_id; row = stored_row e.1 }) seen

pub scopes_of-written :
    (process_id member_id : String) (seen : Dict ScopeRow)
    → scopes_of member_id (written process_id member_id seen) ≡ map (λ e. stored_row e.1) seen
scopes_of-written process_id member_id [] = refl
scopes_of-written process_id member_id (e ∷ seen) =
    ground (arith, eq_iff member_id member_id, scopes_of-written process_id member_id seen)

pub scopes_of-replace :
    (process_id member_id : String) (scopes : List ScopeRow) (table : List ScopeRecord)
    → scopes_of member_id (replace_member_scopes process_id member_id scopes table)
      ≡ map (λ e. stored_row e.1) (collapse scopes [])
unfolding replace_member_scopes
scopes_of-replace process_id member_id scopes table =
    scopes_of-append member_id (kept member_id table)
      (written process_id member_id (collapse scopes []))
    ∙ rw (scopes_of-kept member_id table)
        (scopes_of-written process_id member_id (collapse scopes []))
