-- ===== src/Project/Functions.antt =====
-- functions.ts: the registry of audit functions. An id is a constructor of `FunctionId`; its text is
-- `function_name`.
use ses.Base.{
  ℕ, String, Bool, List, [], ◌∷◌, map, contains, Option, none, some, get_or, str_eq, if◌then◌else◌,
  ◌≡◌, refl, ap,
}

pub data FunctionId : Type 0 where
  master_data over_planning missing_plan function_rate internal_cost_rate opportunities : FunctionId

abbrev pub function_name : FunctionId → String
function_name master_data = "master-data"
function_name over_planning = "over-planning"
function_name missing_plan = "missing-plan"
function_name function_rate = "function-rate"
function_name internal_cost_rate = "internal-cost-rate"
function_name opportunities = "opportunities"

pub record RegistryEntry : Type 0 where
  pub id : FunctionId
  pub label : String
  pub display_order : ℕ

abbrev pub function_registry : List RegistryEntry
function_registry =
    record { id = master_data; label = "Master Data"; display_order = 1 }
    ∷ record { id = over_planning; label = "Over Planning"; display_order = 2 }
    ∷ record { id = missing_plan; label = "Missing Plan"; display_order = 3 }
    ∷ record { id = function_rate; label = "Function Rate"; display_order = 4 }
    ∷ record { id = internal_cost_rate; label = "Internal Cost Rate"; display_order = 5 }
    ∷ record { id = opportunities; label = "Opportunities"; display_order = 6 }
    ∷ []

abbrev pub function_ids : List FunctionId
function_ids = map (λ f. f.id) function_registry

unfoldable pub is_function_id : String → Bool
is_function_id value = contains (map function_name function_ids) value

abbrev pub find_label : List RegistryEntry → String → Option String
find_label [] id = none
find_label (f ∷ fs) id = if str_eq (function_name f.id) id then some f.label else find_label fs id

unfoldable pub get_function_label : String → String
get_function_label id = get_or (find_label function_registry id) id

-- The id of a text, to tell the ids apart by their texts.
function_of_name : String → Option FunctionId
function_of_name s =
    if str_eq s "master-data"
    then some master_data
    else if str_eq s "over-planning"
    then some over_planning
    else if str_eq s "missing-plan"
    then some missing_plan
    else if str_eq s "function-rate"
    then some function_rate
    else if str_eq s "internal-cost-rate"
    then some internal_cost_rate
    else some opportunities

function_of_name-function_name : (id : FunctionId) → function_of_name (function_name id) ≡ some id
unfolding function_of_name
function_of_name-function_name master_data = refl
function_of_name-function_name over_planning = refl
function_of_name-function_name missing_plan = refl
function_of_name-function_name function_rate = refl
function_of_name-function_name internal_cost_rate = refl
function_of_name-function_name opportunities = refl

-- Different functions have different texts.
pub function_name-injective : (a b : FunctionId) → function_name a ≡ function_name b → a ≡ b
function_name-injective a b e =
    cc (function_of_name-function_name a, function_of_name-function_name b, ap function_of_name e)
