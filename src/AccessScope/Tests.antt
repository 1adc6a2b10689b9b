-- ===== src/AccessScope/Tests.antt =====
-- Scopes of a member: decisions, and a replacement in which one function is given twice.
use ses.Base.{◌≡◌, refl, String, true, false, ◌||◌, Option, none, some, List, [], ◌∷◌, leb, max}
use ses.AccessScope.{
  ScopeKind, all_functions, function_scope, escalation_center, ScopeAccessLevel, viewer_level,
  editor_level, view, edit, viewer, editor, ScopeRow, ScopeRecord, required_rank, resolve_scope,
  scopes_of, replace_member_scopes,
}
use ses.AccessScope.Keys.{function_key, all_key}
use ses.AccessScope.Written.{last_with}
use ses.AccessScope.Granted.{
  level_rank, function_context, resolve_scope-view, resolve_scope-replace,
}

abbrev scope : ScopeKind → Option String → ScopeAccessLevel → ScopeRow
scope kind id level = record { scope_type = kind; function_id = id; access_level = level }

abbrev inputs : List ScopeRow
inputs =
    scope function_scope (some "master-data") viewer_level
    ∷ scope escalation_center none viewer_level
    ∷ scope function_scope (some "master-data") editor_level
    ∷ []

abbrev earlier : List ScopeRecord
earlier =
    record { process_id = "p1"; member_id = "m1"; row = scope all_functions none viewer_level } ∷ []

edit_master_data :
    (resolve_scope viewer
      (scopes_of "m1" (replace_member_scopes "p1" "m1" inputs earlier))
      (function_context "master-data" edit)).allowed
    ≡ true
unfolding resolve_scope replace_member_scopes
edit_master_data = refl

no_reason :
    (resolve_scope editor
      (scopes_of "m1" (replace_member_scopes "p1" "m1" inputs earlier))
      (function_context "over-planning" view)).reason
    ≡ some "no scope grants this access"
unfolding resolve_scope replace_member_scopes
no_reason = refl

resolve_scope-view_example :
    (resolve_scope viewer
      (scope function_scope (some "master-data") editor_level ∷ [])
      (record { kind = function_scope; function_id = some "master-data"; action = view })).allowed
    ≡ true
unfolding resolve_scope
resolve_scope-view_example =
    resolve_scope-view viewer (scope function_scope (some "master-data") editor_level ∷ [])
      function_scope (some "master-data") refl

resolve_scope-replace_example :
    (resolve_scope viewer
      (scopes_of "m1" (replace_member_scopes "p1" "m1" inputs earlier))
      (function_context "master-data" edit)).allowed
    ≡ (false
        || leb (required_rank edit) (
            max
              (level_rank (last_with (function_key "master-data") inputs none))
              (level_rank (last_with (all_key "") inputs none))))
resolve_scope-replace_example =
    resolve_scope-replace viewer "p1" "m1" "master-data" edit
      (scope function_scope (some "master-data") viewer_level)
      (scope escalation_center none viewer_level
        ∷ scope function_scope (some "master-data") editor_level
        ∷ [])
      earlier refl ((λ e. absurd (cc e)), ((λ e. absurd (cc e)), ((λ e. absurd (cc e)), tt)))
