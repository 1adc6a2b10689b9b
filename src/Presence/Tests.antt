-- ===== src/Presence/Tests.antt =====
-- A socket that joins, moves and leaves, and one that joins twice.
use ses.Base.{◌≡◌, refl, String, none, some, length}
use ses.Base.Dict.{lookup}
use ses.Presence.{PresenceInfo, PresenceRegistry, current_of, join, located, leave, snapshot}
use ses.Presence.Members.{
  join_to, move_of, step, empty_registry, Reached, start, next, IsTracked, Reached-IsTracked,
  leave-stays,
}

abbrev info_of : String → PresenceInfo
info_of socket_id = record {
  user_id = "u1";
  user_code = "USR-1";
  display_name = "Ann";
  email = "ann@x.y";
  socket_id = socket_id;
  tab = none;
  focus_code = none;
  connected_at = "t0";
  last_heartbeat = "t0";
}

abbrev joined : PresenceRegistry
joined = step empty_registry (join_to "PRC-1" (info_of "s1"))

abbrev moved_on : PresenceRegistry
moved_on = step joined (move_of "t1" "s1" (record { tab = some (some "board"); focus_code = none }))

joined-Reached : Reached joined
unfolding step located lookup
joined-Reached =
    next empty_registry (join_to "PRC-1" (info_of "s1")) start (refl, λ q e. absurd (cc e))

moved_on-Reached : Reached moved_on
moved_on-Reached =
    next joined (move_of "t1" "s1" (record { tab = some (some "board"); focus_code = none }))
      joined-Reached tt

members : length (snapshot "PRC-1" moved_on) ≡ 1
unfolding snapshot step
members = refl

Reached-IsTracked_example : IsTracked moved_on
Reached-IsTracked_example = Reached-IsTracked moved_on moved_on-Reached

leave-stays_example :
    current_of
      (leave "s1" (join "PRC-2" (info_of "s1") (join "PRC-1" (info_of "s1") empty_registry).0).0).0
      "PRC-1"
      "s1"
    ≡ some (info_of "s1")
leave-stays_example =
    leave-stays empty_registry "PRC-1" "PRC-2" (info_of "s1") (info_of "s1") refl refl refl
