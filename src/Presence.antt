-- ===== src/Presence.antt =====
-- apps/api/src/realtime/presence.registry.ts: who is looking at which process. The two maps are explicit
-- state, and the time of an operation is an argument.
pub mod Tracking
pub mod Members
mod Tests
use ses.Base.{
  String, Bool, true, false, Option, none, some, List, [], ◌∷◌, map, str_eq, is_empty, get_or,
  is_some, if◌then◌else◌,
}
use ses.Base.Dict.{Dict, lookup, insert}

pub record PresenceInfo : Type 0 where
  pub user_id : String
  pub user_code : String
  pub display_name : String
  pub email : String
  pub socket_id : String
  pub tab : Option String
  pub focus_code : Option String
  pub connected_at : String
  pub last_heartbeat : String

abbrev pub Bucket : Type 0
Bucket = Dict PresenceInfo

pub record PresenceRegistry : Type 0 where
  pub by_process : Dict Bucket
  pub socket_to_process : Dict String

-- `map.delete(key)`.
unfoldable pub delete {ℓ} : {V : Type ℓ} → String → Dict V → Dict V
delete key [] = []
delete key ((here, value) ∷ rest) =
    let later = delete key rest in if str_eq here key then later else (here, value) ∷ later

abbrev pub bucket_of : PresenceRegistry → String → Bucket
bucket_of r process_code = get_or (lookup process_code r.by_process) []

-- `Array.from(bucket.values())`.
abbrev pub values_of : Bucket → List PresenceInfo
values_of bucket = map (λ e. e.1) bucket

unfoldable pub join :
    String → PresenceInfo → PresenceRegistry → PresenceRegistry × List PresenceInfo
unfolding lookup insert
join process_code info r =
    let bucket = insert info.socket_id info (bucket_of r process_code) in
    (
      record {
        by_process = insert process_code bucket r.by_process;
        socket_to_process = insert info.socket_id process_code r.socket_to_process;
      },
      values_of bucket,
    )

-- `this.socketToProcess.get(socketId)`, where the empty text is falsy.
abbrev pub non_empty : Option String → Option String
non_empty none = none
non_empty (some s) = if is_empty s then none else some s

unfoldable pub located : PresenceRegistry → String → Option String
unfolding lookup
located r socket_id = non_empty (lookup socket_id r.socket_to_process)

abbrev pub is_nil : Bucket → Bool
is_nil [] = true
is_nil (e ∷ es) = false

-- The map of processes after a bucket has changed: a bucket without members is deleted.
abbrev pub store_bucket : String → Bucket → Dict Bucket → Dict Bucket
store_bucket process_code bucket by_process =
    if is_nil bucket then delete process_code by_process else insert process_code bucket by_process

abbrev pub with_process : String → Option PresenceInfo → Option (String × PresenceInfo)
with_process process_code none = none
with_process process_code (some info) = some (process_code, info)

-- `leave` where the socket is in a process, from the bucket of that process.
unfoldable pub leave_bucket :
    String
    → String
    → PresenceRegistry
    → Option Bucket
    → PresenceRegistry × Option (String × PresenceInfo)
unfolding lookup insert delete
leave_bucket socket_id process_code r none =
    (record r { socket_to_process = delete socket_id r.socket_to_process }, none)
leave_bucket socket_id process_code r (some bucket) = (
  record {
    by_process = store_bucket process_code (delete socket_id bucket) r.by_process;
    socket_to_process = delete socket_id r.socket_to_process;
  },
  with_process process_code (lookup socket_id bucket),
)

unfoldable pub leave_process :
    String → String → PresenceRegistry → PresenceRegistry × Option (String × PresenceInfo)
unfolding leave_bucket
leave_process socket_id process_code r =
    leave_bucket socket_id process_code r (lookup process_code r.by_process)

unfoldable pub leave_in :
    String → PresenceRegistry → Option String → PresenceRegistry × Option (String × PresenceInfo)
unfolding leave_process
leave_in socket_id r none = (r, none)
leave_in socket_id r (some process_code) = leave_process socket_id process_code r

unfoldable pub leave : String → PresenceRegistry → PresenceRegistry × Option (String × PresenceInfo)
unfolding located leave_in
leave socket_id r = leave_in socket_id r (located r socket_id)

-- `Partial<Pick<PresenceInfo, 'tab' | 'focusCode'>>`: `none` is a field that is not given.
pub record PresencePatch : Type 0 where
  pub tab : Option (Option String)
  pub focus_code : Option (Option String)

abbrev pub moved : String → PresencePatch → PresenceInfo → PresenceInfo
moved now patch current = record current {
  tab = get_or patch.tab current.tab;
  focus_code = get_or patch.focus_code current.focus_code;
  last_heartbeat = now;
}

-- The information of a socket in its process, and the change of it.
abbrev pub current_of : PresenceRegistry → String → String → Option PresenceInfo
current_of r process_code socket_id = lookup socket_id (bucket_of r process_code)

unfoldable pub set_info : String → String → PresenceInfo → PresenceRegistry → PresenceRegistry
unfolding lookup insert
set_info process_code socket_id info r = record r {
  by_process = insert process_code (insert socket_id info (bucket_of r process_code)) r.by_process;
}

unfoldable pub change_at :
    (PresenceInfo → PresenceInfo)
    → String
    → String
    → PresenceRegistry
    → Option PresenceInfo
    → PresenceRegistry × Option PresenceInfo
unfolding set_info
change_at f process_code socket_id r none = (r, none)
change_at f process_code socket_id r (some current) =
    (set_info process_code socket_id (f current) r, some (f current))

unfoldable pub change_in :
    (PresenceInfo → PresenceInfo)
    → String
    → PresenceRegistry
    → Option String
    → PresenceRegistry × Option PresenceInfo
unfolding lookup change_at
change_in f socket_id r none = (r, none)
change_in f socket_id r (some process_code) =
    change_at f process_code socket_id r (current_of r process_code socket_id)

unfoldable pub change :
    (PresenceInfo → PresenceInfo)
    → String
    → PresenceRegistry
    → PresenceRegistry × Option PresenceInfo
unfolding located change_in
change f socket_id r = change_in f socket_id r (located r socket_id)

unfoldable pub move :
    String → String → PresencePatch → PresenceRegistry → PresenceRegistry × Option PresenceInfo
unfolding change
move now socket_id patch r = change (moved now patch) socket_id r

unfoldable pub heartbeat : String → String → PresenceRegistry → PresenceRegistry
unfolding change
heartbeat now socket_id r =
    (change (λ current. record current { last_heartbeat = now }) socket_id r).0

unfoldable pub snapshot : String → PresenceRegistry → List PresenceInfo
unfolding lookup
snapshot process_code r = values_of (bucket_of r process_code)
