-- ===== src/Project/Statuses/Aggregate.antt =====
-- What the aggregate says of the rows, and what a patch changes.
use mathlib.Core.Path.{ap₂, subst}
use mathlib.Core.List.{append-nil, append_assoc}
use ses.Base.{
  ℕ, ◌+◌, ◌≡◌, refl, sym, ap, Bool, true, not, ◌&&◌, ◌||◌, List, [], ◌∷◌, ◌++◌, map, arith, any,
  all, filter, sum_by, if◌then◌else◌, ◌≢◌, eq_iff, Option, none, some, get_or,
}
use ses.Base.Dict.{Dict, insert, lookup-insert}
use ses.Project.Functions.{function_name-injective, FunctionId, function_name, function_ids}
use ses.Project.Statuses.{
  EngineSubStatus, open_status, resolved_status, na, EngineProjectStatus, overall_open,
  overall_resolved, overall_mixed, ProjectStatusesV2, is_na, is_open, is_resolved, row_of, consider,
  overall_of, recompute_aggregate, is_nil, global_resolved_from_statuses, EngineStatusPatch,
  apply_patch, patch_engine_status,
}

abbrev pub status_at : Dict EngineProjectStatus → FunctionId → EngineSubStatus
status_at by_engine id = (row_of by_engine id).status

-- The open count that a row contributes.
abbrev pub open_at : Dict EngineProjectStatus → FunctionId → ℕ
open_at by_engine id =
    if is_open (status_at by_engine id) then (row_of by_engine id).open_count else 0

-- The statuses that the loops look at.
abbrev tracked : List EngineSubStatus → List EngineSubStatus
tracked ss = filter (λ s. not (is_na s)) ss

consider_lem :
    (b : Dict EngineProjectStatus) (ids : List FunctionId) (t : ℕ) (c : List EngineSubStatus)
    → consider b ids t c ≡ (t + sum_by (open_at b) ids, c ++ tracked (map (status_at b) ids))
unfolding consider
consider_lem b [] t c = ap₂ (λ m d. (m, d)) (omega arith) (sym (append-nil c))
consider_lem b (id ∷ ids) t c =
    let row = row_of b id in
    ground (
      arith,
      consider_lem b ids t c,
      consider_lem b ids (if is_open row.status then t + row.open_count else t)
          (c ++ row.status ∷ []),
      append_assoc c (row.status ∷ []) (tracked (map (status_at b) ids)),
    )

all-is_resolved : (ss : List EngineSubStatus) → all is_resolved (tracked ss) ≡ not (any is_open ss)
all-is_resolved [] = refl
all-is_resolved (open_status ∷ ss) = refl
all-is_resolved (resolved_status ∷ ss) = all-is_resolved ss
all-is_resolved (na ∷ ss) = all-is_resolved ss

all-is_open : (ss : List EngineSubStatus) → all is_open (tracked ss) ≡ not (any is_resolved ss)
all-is_open [] = refl
all-is_open (open_status ∷ ss) = all-is_open ss
all-is_open (resolved_status ∷ ss) = refl
all-is_open (na ∷ ss) = all-is_open ss

is_nil-tracked :
    (ss : List EngineSubStatus)
    → is_nil (tracked ss) ≡ (not (any is_open ss) && not (any is_resolved ss))
is_nil-tracked [] = refl
is_nil-tracked (open_status ∷ ss) = refl
is_nil-tracked (resolved_status ∷ ss) = ground arith
is_nil-tracked (na ∷ ss) = is_nil-tracked ss

overall_of-tests :
    (c : List EngineSubStatus)
    → overall_of c ≡ (
        if is_nil c
        then overall_resolved
        else if all is_resolved c
        then overall_resolved
        else if all is_open c
        then overall_open
        else overall_mixed)
overall_of-tests [] = refl
overall_of-tests (s ∷ c) = refl

any-map :
    (p : EngineSubStatus → Bool) (b : Dict EngineProjectStatus) (ids : List FunctionId)
    → any p (map (status_at b) ids) ≡ any (λ id. p (status_at b id)) ids
any-map p b [] = refl
any-map p b (id ∷ ids) = ap (λ r. p (status_at b id) || r) (any-map p b ids)

abbrev pub some_open : ProjectStatusesV2 → Bool
some_open s = any (λ id. is_open (status_at s.by_engine id)) function_ids

abbrev pub some_resolved : ProjectStatusesV2 → Bool
some_resolved s = any (λ id. is_resolved (status_at s.by_engine id)) function_ids

-- The aggregate counts the open findings of the functions whose status is open, and its overall status
-- is resolved if no function is open, open if one is and none is resolved, and mixed otherwise.
pub recompute_aggregate_lem :
    (s : ProjectStatusesV2)
    → ((recompute_aggregate s).aggregate.total_open ≡ sum_by (open_at s.by_engine) function_ids)
      × ((recompute_aggregate s).aggregate.overall_status ≡ (
          if some_open s
          then if some_resolved s then overall_mixed else overall_open
          else overall_resolved))
unfolding recompute_aggregate
recompute_aggregate_lem s =
    let b = s.by_engine in
    let ss = map (status_at b) function_ids in
    ground (
      arith,
      consider_lem b function_ids 0 [],
      overall_of-tests (tracked ss),
      all-is_resolved ss,
      all-is_open ss,
      is_nil-tracked ss,
      any-map is_open b function_ids,
      any-map is_resolved b function_ids,
    )

-- `globalResolvedFromStatuses` is true exactly when some function is resolved and none is open; then
-- the recomputed overall status is resolved too.
pub global_resolved_lem :
    (s : ProjectStatusesV2)
    → (global_resolved_from_statuses s ≡ (not (some_open s) && some_resolved s))
      × (global_resolved_from_statuses s ≡ true
          → (recompute_aggregate s).aggregate.overall_status ≡ overall_resolved)
unfolding global_resolved_from_statuses
global_resolved_lem s =
    let b = s.by_engine in
    let ss = map (status_at b) function_ids in
    (value, λ h. ground (arith, value, (recompute_aggregate_lem s).1))
  where
    value : global_resolved_from_statuses s ≡ (not (some_open s) && some_resolved s)
    value = ground (
      arith,
      all-is_resolved (map (status_at s.by_engine) function_ids),
      is_nil-tracked (map (status_at s.by_engine) function_ids),
      any-map is_open s.by_engine function_ids,
      any-map is_resolved s.by_engine function_ids,
    )

recompute-by_engine : (s : ProjectStatusesV2) → (recompute_aggregate s).by_engine ≡ s.by_engine
unfolding recompute_aggregate
recompute-by_engine s = refl

recompute_again :
    (s : ProjectStatusesV2) → recompute_aggregate (recompute_aggregate s) ≡ recompute_aggregate s
unfolding recompute_aggregate
recompute_again s = refl

pub patch_engine_status-rows :
    (s : ProjectStatusesV2) (id : FunctionId) (patch : EngineStatusPatch)
    → (row_of (patch_engine_status s id patch).by_engine id
        ≡ apply_patch (row_of s.by_engine id) patch)
      × ((j : FunctionId)
          → j ≢ id
          → row_of (patch_engine_status s id patch).by_engine j ≡ row_of s.by_engine j)
unfolding patch_engine_status recompute_aggregate
patch_engine_status-rows s id patch =
    let row = apply_patch (row_of s.by_engine id) patch in
    (
      ground (
        arith,
        lookup-insert (function_name id) (function_name id) row s.by_engine,
        eq_iff (function_name id) (function_name id),
      ),
      λ j d. ground (
        arith,
        lookup-insert (function_name id) (function_name j) row s.by_engine,
        eq_iff (function_name id) (function_name j),
        function_name-injective id j,
      ),
    )

-- What a field is after a patch: the value given, or what it was.
abbrev pub PatchedBy : {A : Type 0} → Option A → A → A → Type 0
PatchedBy none before after = after ≡ before
PatchedBy (some given) before after = after ≡ given

PatchedBy-get_or : {A : Type 0} → (o : Option A) (before : A) → PatchedBy o before (get_or o before)
PatchedBy-get_or none before = refl
PatchedBy-get_or (some given) before = refl

-- Each of the four fields of a row, patched on its own.
abbrev pub IsPatched : EngineStatusPatch → EngineProjectStatus → EngineProjectStatus → Type 0
IsPatched patch before after =
    PatchedBy patch.open_count before.open_count after.open_count
    × PatchedBy patch.status before.status after.status
    × PatchedBy patch.last_seen_run_id before.last_seen_run_id after.last_seen_run_id
    × PatchedBy patch.resolved_at before.resolved_at after.resolved_at

apply_patch-IsPatched :
    (row : EngineProjectStatus) (patch : EngineStatusPatch)
    → IsPatched patch row (apply_patch row patch)
apply_patch-IsPatched row patch = (
  PatchedBy-get_or patch.open_count row.open_count,
  PatchedBy-get_or patch.status row.status,
  PatchedBy-get_or patch.last_seen_run_id row.last_seen_run_id,
  PatchedBy-get_or patch.resolved_at row.resolved_at,
)

-- A patch of one function sets each of the four fields of that function's row, the open count, the
-- status, the last run and the time of resolution, to the given value, and keeps a field that is not
-- given; it leaves every other function's row and the legacy projects as they were, and afterwards the
-- total counts the open findings of the patched rows.
pub patch_engine_status_lem :
    (s : ProjectStatusesV2) (id : FunctionId) (patch : EngineStatusPatch)
    → IsPatched patch (row_of s.by_engine id) (row_of (patch_engine_status s id patch).by_engine id)
      × ((j : FunctionId)
          → j ≢ id
          → row_of (patch_engine_status s id patch).by_engine j ≡ row_of s.by_engine j)
      × ((patch_engine_status s id patch).legacy_projects ≡ s.legacy_projects)
      × ((patch_engine_status s id patch).aggregate.total_open
          ≡ sum_by (open_at (patch_engine_status s id patch).by_engine) function_ids)
unfolding patch_engine_status recompute_aggregate
patch_engine_status_lem s id patch =
    let rows = patch_engine_status-rows s id patch in
    let inserted =
      insert (function_name id) (apply_patch (row_of s.by_engine id) patch) s.by_engine in
    (
      subst (IsPatched patch (row_of s.by_engine id)) (sym rows.0)
          (apply_patch-IsPatched (row_of s.by_engine id) patch),
      rows.1,
      refl,
      (recompute_aggregate_lem (record s { by_engine = inserted })).0,
    )
