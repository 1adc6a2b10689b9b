-- ===== src/Engine/Registry/Routing.antt =====
-- Which engine a function id reaches.
use ses.Base.{String, false, none, some, ◌≡◌, refl, arith, contains, map, List, [], ◌∷◌}
use ses.Project.Functions.{FunctionId, function_name, function_ids, is_function_id}
use ses.Engine.Registry.{function_audit_engines, find_engine, get_function_audit_engine}

-- Every id of the registry reaches its own engine.
pub get_function_audit_engine_lem :
    (id : FunctionId)
    → get_function_audit_engine (some (function_name id)) ≡ function_audit_engines id
unfolding get_function_audit_engine find_engine function_audit_engines
get_function_audit_engine_lem FunctionId.master_data = refl
get_function_audit_engine_lem FunctionId.over_planning = refl
get_function_audit_engine_lem FunctionId.missing_plan = refl
get_function_audit_engine_lem FunctionId.function_rate = refl
get_function_audit_engine_lem FunctionId.internal_cost_rate = refl
get_function_audit_engine_lem FunctionId.opportunities = refl

find_engine-unknown :
    (ids : List FunctionId) (name : String)
    → contains (map function_name ids) name ≡ false
    → find_engine ids name ≡ none
unfolding find_engine
find_engine-unknown [] name h = refl
find_engine-unknown (id ∷ ids) name h = ground (arith, find_engine-unknown ids name)

-- A text that is no id of the registry reaches the over-planning engine.
pub get_function_audit_engine-unknown :
    (name : String)
    → is_function_id name ≡ false
    → get_function_audit_engine (some name) ≡ function_audit_engines FunctionId.over_planning
unfolding get_function_audit_engine is_function_id
get_function_audit_engine-unknown name h = rw (find_engine-unknown function_ids name h) refl
