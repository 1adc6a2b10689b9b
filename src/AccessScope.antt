-- ===== src/AccessScope.antt =====
-- apps/api/src/common/access-scope.service.ts: what a member of a process may view or edit. The table of
-- scope permissions is explicit state; the ids of new rows are left out.
pub mod Keys
pub mod Written
pub mod Granted
mod Tests
use Prim.Native.String
use ses.Base.{
  ℕ, String, Bool, true, false, not, ◌&&◌, ◌||◌, Option, none, some, List, [], ◌∷◌, ◌++◌, map,
  filter, str_eq, is_empty, leb, max, get_or, if◌then◌else◌,
}
use ses.Base.Dict.{Dict, insert}

pub data ScopeKind : Type 0 where
  all_functions function_scope escalation_center : ScopeKind

abbrev pub kind_name : ScopeKind → String
kind_name all_functions = "all-functions"
kind_name function_scope = "function"
kind_name escalation_center = "escalation-center"

-- `===` on the kinds.
abbrev pub is_all_functions : ScopeKind → Bool
is_all_functions all_functions = true
is_all_functions _ = false

abbrev pub is_function : ScopeKind → Bool
is_function function_scope = true
is_function _ = false

abbrev pub is_escalation_center : ScopeKind → Bool
is_escalation_center escalation_center = true
is_escalation_center _ = false

pub data ScopeAccessLevel : Type 0 where
  viewer_level editor_level : ScopeAccessLevel

pub data ScopeAction : Type 0 where
  view edit : ScopeAction

pub data ProcessPermission : Type 0 where
  viewer editor owner : ProcessPermission

pub record ScopeContext : Type 0 where
  pub kind : ScopeKind
  pub function_id : Option String
  pub action : ScopeAction

pub record ScopeRow : Type 0 where
  pub scope_type : ScopeKind
  pub function_id : Option String
  pub access_level : ScopeAccessLevel

abbrev pub base_rank : ProcessPermission → ℕ
base_rank viewer = 1
base_rank editor = 2
base_rank owner = 3

abbrev pub access_rank : ScopeAccessLevel → ℕ
access_rank viewer_level = 1
access_rank editor_level = 2

abbrev pub required_rank : ScopeAction → ℕ
required_rank view = 1
required_rank edit = 2

pub record Decision : Type 0 where
  pub allowed : Bool
  pub reason : Option String

abbrev allow : Decision
allow = record { allowed = true; reason = none }

abbrev deny : String → Decision
deny reason = record { allowed = false; reason = some reason }

-- `scopes.find(test)`, as the list of candidates that it adds.
unfoldable pub candidate : (ScopeRow → Bool) → List ScopeRow → List ScopeAccessLevel
candidate test [] = []
candidate test (s ∷ scopes) =
    let later = candidate test scopes in if test s then s.access_level ∷ [] else later

-- `Math.max(...candidates.map((c) => accessRank[c]))`, of levels that are positive.
abbrev pub best_rank : List ScopeAccessLevel → ℕ
best_rank [] = 0
best_rank (c ∷ cs) = max (access_rank c) (best_rank cs)

abbrev pub is_for : String → ScopeRow → Bool
is_for function_id s =
    is_function s.scope_type
    && elim s.function_id [ none ↦ false | some id ↦ str_eq id function_id ]

abbrev pub for_all : ScopeRow → Bool
for_all s = is_all_functions s.scope_type

abbrev pub for_center : ScopeRow → Bool
for_center s = is_escalation_center s.scope_type

abbrev judge : ℕ → List ScopeAccessLevel → Decision
judge required [] = deny "no scope grants this access"
judge required (c ∷ cs) =
    if leb required (best_rank (c ∷ cs)) then allow else deny "scope grant below required level"

abbrev truthy : Option String → Option String
truthy none = none
truthy (some s) = if is_empty s then none else some s

-- The decision on a function, from the id of the context.
abbrev judge_function : ℕ → List ScopeRow → Option String → Decision
judge_function required scopes none = deny "function scope requires functionId"
judge_function required scopes (some id) =
    judge required (candidate (is_for id) scopes ++ candidate for_all scopes)

-- The decision on a member who has scopes.
unfoldable pub judge_scopes : List ScopeRow → ScopeKind → Option String → ScopeAction → Decision
unfolding candidate
judge_scopes scopes function_scope function_id action =
    judge_function (required_rank action) scopes (truthy function_id)
judge_scopes scopes escalation_center function_id action =
    judge (required_rank action) (candidate for_center scopes)
judge_scopes scopes all_functions function_id view = allow
judge_scopes scopes all_functions function_id edit = judge 2 (candidate for_all scopes)

abbrev legacy_decision : ProcessPermission → ScopeAction → Decision
legacy_decision permission action =
    if leb (required_rank action) (base_rank permission)
    then allow
    else deny "insufficient permission"

abbrev resolve_member : ProcessPermission → List ScopeRow → ScopeContext → Decision
resolve_member permission [] ctx = legacy_decision permission ctx.action
resolve_member permission (s ∷ scopes) ctx =
    judge_scopes (s ∷ scopes) ctx.kind ctx.function_id ctx.action

unfoldable pub resolve_scope : ProcessPermission → List ScopeRow → ScopeContext → Decision
unfolding judge_scopes
resolve_scope owner scopes ctx = allow
resolve_scope viewer scopes ctx = resolve_member viewer scopes ctx
resolve_scope editor scopes ctx = resolve_member editor scopes ctx

-- A row of the table, with its member.
pub record ScopeRecord : Type 0 where
  pub process_id : String
  pub member_id : String
  pub row : ScopeRow

-- `member.scopePermissions`.
abbrev pub scopes_of : String → List ScopeRecord → List ScopeRow
scopes_of member_id table = map (λ r. r.row) (filter (λ r. str_eq r.member_id member_id) table)

-- `${s.scopeType}::${s.functionId ?? ''}`; an input has the fields of a row.
unfoldable pub scope_key : ScopeRow → String
scope_key s = String.◌++◌ (kind_name s.scope_type) (String.◌++◌ "::" (get_or s.function_id ""))

unfoldable pub collapse : List ScopeRow → Dict ScopeRow → Dict ScopeRow
unfolding insert scope_key
collapse [] seen = seen
collapse (s ∷ scopes) seen = collapse scopes (insert (scope_key s) s seen)

-- The row that is stored for an input.
abbrev pub stored_row : ScopeRow → ScopeRow
stored_row s = record s { function_id = if is_function s.scope_type then s.function_id else none }

unfoldable pub replace_member_scopes :
    String → String → List ScopeRow → List ScopeRecord → List ScopeRecord
unfolding collapse
replace_member_scopes process_id member_id scopes table =
    filter (λ r. not (str_eq r.member_id member_id)) table
    ++ map (λ e. record { process_id = process_id; member_id = member_id; row = stored_row e.1 })
        (collapse scopes [])
