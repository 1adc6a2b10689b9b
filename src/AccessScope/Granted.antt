-- ===== src/AccessScope/Granted.antt =====
-- What a decision allows, for scopes as they are and for scopes that are written.

use ses.Base.{
  ℕ, ◌≡◌, refl, ◌∙◌, String, Bool, true, false, ◌||◌, Option, none, some, List, [], ◌∷◌, ◌++◌, map,
  str_eq, is_empty, leb, max, arith, eq_iff, All,
}
use ses.Base.Dict.{Dict, insert}
use mathlib.Core.List.{append-nil}
use ses.AccessScope.Keys.{function_key, all_key, is_for-scope_key, IsPlain, for_all-scope_key}
use ses.AccessScope.Written.{
  last_with, IsTested, level_of, candidate-last, kept, written, scopes_of-append, scopes_of-replace,
}
use ses.AccessScope.{
  ScopeKind, all_functions, function_scope, escalation_center, ScopeAccessLevel, ScopeAction, view,
  edit, ProcessPermission, viewer, editor, owner, ScopeContext, ScopeRow, ScopeRecord, access_rank,
  required_rank, candidate, best_rank, is_for, for_all, for_center, judge_scopes, resolve_scope,
  scopes_of, scope_key, collapse, stored_row, replace_member_scopes, judge, judge_function, truthy,
  resolve_member,
}

judge-view :
    (cs : List ScopeAccessLevel) → (judge 2 cs).allowed ≡ true → (judge 1 cs).allowed ≡ true
judge-view [] h = absurd (cc h)
judge-view (c ∷ cs) h = ground arith

judge_function-view :
    (scopes : List ScopeRow) (function_id : Option String)
    → (judge_function 2 scopes function_id).allowed ≡ true
    → (judge_function 1 scopes function_id).allowed ≡ true
judge_function-view scopes none h = absurd (cc h)
judge_function-view scopes (some id) h =
    judge-view (candidate (is_for id) scopes ++ candidate for_all scopes) h

judge_scopes-view :
    (scopes : List ScopeRow) (kind : ScopeKind) (function_id : Option String)
    → (judge_scopes scopes kind function_id edit).allowed ≡ true
    → (judge_scopes scopes kind function_id view).allowed ≡ true
unfolding judge_scopes
judge_scopes-view scopes all_functions function_id h = refl
judge_scopes-view scopes function_scope function_id h =
    judge_function-view scopes (truthy function_id) h
judge_scopes-view scopes escalation_center function_id h =
    judge-view (candidate for_center scopes) h

resolve_member-view :
    (permission : ProcessPermission) (scopes : List ScopeRow) (kind : ScopeKind)
    (function_id : Option String)
    → (resolve_member permission scopes
        (record { kind = kind; function_id = function_id; action = edit })).allowed
      ≡ true
    → (resolve_member permission scopes
        (record { kind = kind; function_id = function_id; action = view })).allowed
      ≡ true
resolve_member-view viewer [] kind function_id h = refl
resolve_member-view editor [] kind function_id h = refl
resolve_member-view owner [] kind function_id h = refl
resolve_member-view permission (s ∷ scopes) kind function_id h =
    judge_scopes-view (s ∷ scopes) kind function_id h

-- Whoever may edit in a scope may also view it, whatever the permission of the member and the scopes.
pub resolve_scope-view :
    (permission : ProcessPermission) (scopes : List ScopeRow) (kind : ScopeKind)
    (function_id : Option String)
    → (resolve_scope permission scopes
        (record { kind = kind; function_id = function_id; action = edit })).allowed
      ≡ true
    → (resolve_scope permission scopes
        (record { kind = kind; function_id = function_id; action = view })).allowed
      ≡ true
unfolding resolve_scope
resolve_scope-view owner scopes kind function_id h = refl
resolve_scope-view viewer scopes kind function_id h =
    resolve_member-view viewer scopes kind function_id h
resolve_scope-view editor scopes kind function_id h =
    resolve_member-view editor scopes kind function_id h

-- The level that an input gives: 0 where there is none.
abbrev pub level_rank : Option ScopeRow → ℕ
level_rank none = 0
level_rank (some s) = access_rank s.access_level

best_rank-levels :
    (a b : Option ScopeRow)
    → best_rank (level_of a ++ level_of b) ≡ max (level_rank a) (level_rank b)
best_rank-levels none none = refl
best_rank-levels none (some b) = omega arith
best_rank-levels (some a) none = omega arith
best_rank-levels (some a) (some b) = omega arith

judge-allowed :
    (action : ScopeAction) (cs : List ScopeAccessLevel)
    → (judge (required_rank action) cs).allowed ≡ leb (required_rank action) (best_rank cs)
judge-allowed view [] = refl
judge-allowed edit [] = refl
judge-allowed view (c ∷ cs) = ground arith
judge-allowed edit (c ∷ cs) = ground arith

abbrev is_nil {ℓ} : {A : Type ℓ} → List A → Bool
is_nil [] = true
is_nil (x ∷ xs) = false

insert-nonempty :
    (key : String) (s : ScopeRow) (seen : Dict ScopeRow) → is_nil (insert key s seen) ≡ false
unfolding insert
insert-nonempty key s [] = refl
insert-nonempty key s ((here, old) ∷ seen) = ground arith

collapse-nonempty :
    (scopes : List ScopeRow) (seen : Dict ScopeRow)
    → is_nil seen ≡ false
    → is_nil (collapse scopes seen) ≡ false
unfolding collapse
collapse-nonempty [] seen h = h
collapse-nonempty (s ∷ scopes) seen h =
    collapse-nonempty scopes _ (insert-nonempty (scope_key s) s seen)

is_nil-map : (seen : Dict ScopeRow) → is_nil (map (λ e. stored_row e.1) seen) ≡ is_nil seen
is_nil-map [] = refl
is_nil-map (e ∷ seen) = refl

abbrev pub is_owner : ProcessPermission → Bool
is_owner owner = true
is_owner _ = false

abbrev pub function_context : String → ScopeAction → ScopeContext
function_context f action = record { kind = function_scope; function_id = some f; action = action }

resolve_function :
    (permission : ProcessPermission) (rows : List ScopeRow) (f : String) (action : ScopeAction)
    → is_nil rows ≡ false
    → is_empty f ≡ false
    → (resolve_scope permission rows (function_context f action)).allowed ≡ (
        is_owner permission
        || leb
            (required_rank action)
            (best_rank (candidate (is_for f) rows ++ candidate for_all rows)))
unfolding resolve_scope judge_scopes
resolve_function permission [] f action h named = absurd (cc h)
resolve_function owner (s ∷ rows) f action h named = refl
resolve_function viewer (s ∷ rows) f action h named =
    rw named
      (judge-allowed action (candidate (is_for f) (s ∷ rows) ++ candidate for_all (s ∷ rows)))
resolve_function editor (s ∷ rows) f action h named =
    rw named
      (judge-allowed action (candidate (is_for f) (s ∷ rows) ++ candidate for_all (s ∷ rows)))

All-for :
    (f : String)
    → is_empty f ≡ false
    → (scopes : List ScopeRow)
    → All (λ s. IsTested (is_for f) (function_key f) (scope_key s, s)) scopes
All-for f named [] = tt
All-for f named (s ∷ scopes) = (is_for-scope_key f named s, All-for f named scopes)

All-for_all :
    (scopes : List ScopeRow)
    → All IsPlain scopes
    → All (λ s. IsTested for_all (all_key "") (scope_key s, s)) scopes
All-for_all [] h = tt
All-for_all (s ∷ scopes) h = (for_all-scope_key s h.0, All-for_all scopes h.1)

-- After the scopes of a member are replaced by a list that is not empty and in which no entry for all
-- functions names a function, a member who is not the owner may view or edit a function exactly if the
-- last entry for that function or the last entry for all functions gives the level that is needed,
-- whatever scopes the member had before; the owner may do both.
pub resolve_scope-replace :
    (permission : ProcessPermission) (process_id member_id f : String) (action : ScopeAction)
    (s : ScopeRow) (scopes : List ScopeRow) (table : List ScopeRecord)
    → is_empty f ≡ false
    → All IsPlain (s ∷ scopes)
    → (resolve_scope permission
        (scopes_of member_id (replace_member_scopes process_id member_id (s ∷ scopes) table))
        (function_context f action)).allowed
      ≡ (is_owner permission
          || leb (required_rank action) (
              max
                (level_rank (last_with (function_key f) (s ∷ scopes) none))
                (level_rank (last_with (all_key "") (s ∷ scopes) none))))
unfolding collapse
resolve_scope-replace permission process_id member_id f action s scopes table named plain =
    let seen = collapse (s ∷ scopes) [] in
    let rows = map (λ e. stored_row e.1) seen in
    let filled =
      is_nil-map seen ∙ collapse-nonempty scopes _ (insert-nonempty (scope_key s) s []) in
    rw (scopes_of-replace process_id member_id (s ∷ scopes) table) (
      resolve_function permission rows f action filled named
      ∙ rw
          (
            candidate-last (is_for f) (function_key f) (s ∷ scopes) (All-for f named (s ∷ scopes)),
            candidate-last for_all (all_key "") (s ∷ scopes) (All-for_all (s ∷ scopes) plain),
            best_rank-levels (last_with (function_key f) (s ∷ scopes) none)
                (last_with (all_key "") (s ∷ scopes) none),
          )
          refl)

kept-other :
    (member_id other : String) (table : List ScopeRecord)
    → str_eq other member_id ≡ false
    → scopes_of other (kept member_id table) ≡ scopes_of other table
kept-other member_id other [] d = refl
kept-other member_id other (r ∷ table) d = ground (
  arith,
  kept-other member_id other table d,
  eq_iff r.member_id member_id,
  eq_iff r.member_id other,
  eq_iff other member_id,
)

written-other :
    (process_id member_id other : String) (seen : Dict ScopeRow)
    → str_eq other member_id ≡ false
    → scopes_of other (written process_id member_id seen) ≡ []
written-other process_id member_id other [] d = refl
written-other process_id member_id other (e ∷ seen) d = ground (
  arith,
  written-other process_id member_id other seen d,
  eq_iff member_id other,
  eq_iff other member_id,
)

-- The scopes of every other member stay as they were.
pub replace-other :
    (process_id member_id other : String) (scopes : List ScopeRow) (table : List ScopeRecord)
    → str_eq other member_id ≡ false
    → scopes_of other (replace_member_scopes process_id member_id scopes table)
      ≡ scopes_of other table
unfolding replace_member_scopes
replace-other process_id member_id other scopes table d =
    scopes_of-append other (kept member_id table)
      (written process_id member_id (collapse scopes []))
    ∙ rw
        (
          kept-other member_id other table d,
          written-other process_id member_id other (collapse scopes []) d,
        )
        (append-nil (scopes_of other table))
