-- ===== src/Presence/Members.antt =====
-- Runs of the registry: who is a member of a process, and what a disconnect leaves.
use ses.Base.{
  ◌≡◌, refl, sym, ap, ◌∙◌, String, Bool, false, Option, none, some, [], str_eq, is_empty, is_some,
  arith, eq_iff, Bool-cases, inl, inr,
}
use ses.Base.Dict.{lookup}
use ses.Presence.{
  PresenceInfo, PresenceRegistry, current_of, located, join, leave, leave_in, leave_process,
  PresencePatch, move, heartbeat, change,
}
use ses.Presence.Tracking.{
  join-current_of, join-located, leave_process-current_of, leave_process-located, change-current_of,
  change-located,
}

-- What the clients ask for.
pub data Request : Type 0 where
  join_to : String → PresenceInfo → Request
  leave_of : String → Request
  move_of : String → String → PresencePatch → Request
  beat_of : String → String → Request

unfoldable pub step : PresenceRegistry → Request → PresenceRegistry
unfolding join leave move heartbeat
step r (join_to process_code info) = (join process_code info r).0
step r (leave_of socket_id) = (leave socket_id r).0
step r (move_of now socket_id patch) = (move now socket_id patch r).0
step r (beat_of now socket_id) = heartbeat now socket_id r

-- A join that names a process, by a socket that is in no other process.
abbrev pub IsAllowed : PresenceRegistry → Request → Type 0
IsAllowed r (join_to process_code info) =
    (is_empty process_code ≡ false)
    × ((q : String) → located r info.socket_id ≡ some q → q ≡ process_code)
IsAllowed r _ = Unit

abbrev pub empty_registry : PresenceRegistry
empty_registry = record { by_process = []; socket_to_process = [] }

-- The registries that runs of allowed requests reach.
pub data Reached : PresenceRegistry → Type 0 where
  start : Reached empty_registry
  next : (r : PresenceRegistry) (q : Request) → Reached r → IsAllowed r q → Reached (step r q)

abbrev pub is_at : String → Option String → Bool
is_at process_code none = false
is_at process_code (some q) = str_eq q process_code

-- A socket is a member of a process exactly if it is noted for that process.
abbrev pub IsTracked : PresenceRegistry → Type 0
IsTracked r =
    (process_code socket_id : String)
    → is_some (current_of r process_code socket_id) ≡ is_at process_code (located r socket_id)

some_at :
    (p q : String) (here : Option String)
    → ((x : String) → here ≡ some x → x ≡ p)
    → str_eq p q ≡ false
    → is_at q here ≡ false
some_at p q none h d = refl
some_at p q (some x) h d = ground (arith, ap (λ y. str_eq y q) (h x refl))

join-IsTracked :
    (p : String) (info : PresenceInfo) (r : PresenceRegistry)
    → IsAllowed r (join_to p info)
    → IsTracked r
    → IsTracked (join p info r).0
join-IsTracked p info r (named, alone) h q t = elim (Bool-cases (str_eq info.socket_id t)) [
  | inl same ↦ ground (
    arith,
    join-current_of p q t info r,
    join-located p t info r named,
    (eq_iff info.socket_id t).0 same,
    ap (λ x. is_some (current_of r q x)) ((eq_iff info.socket_id t).0 same),
    h q info.socket_id,
    some_at p q (located r info.socket_id) alone,
  )
  | inr other ↦ ground (arith, join-current_of p q t info r, join-located p t info r named, h q t)
]

leave_process-IsTracked :
    (s p : String) (r : PresenceRegistry)
    → located r s ≡ some p
    → IsTracked r
    → IsTracked (leave_process s p r).0
leave_process-IsTracked s p r e h q t = elim (Bool-cases (str_eq s t)) [
  | inl same ↦ ground (
    arith,
    leave_process-current_of s p q t r,
    leave_process-located s p t r,
    ap (λ x. is_some (current_of r q x)) ((eq_iff s t).0 same),
    h q s,
    ap (λ x. is_at q x) e,
  )
  | inr other ↦
      ground (arith, leave_process-current_of s p q t r, leave_process-located s p t r, h q t)
]

leave_in-IsTracked :
    (s : String) (r : PresenceRegistry) (found : Option String)
    → located r s ≡ found
    → IsTracked r
    → IsTracked (leave_in s r found).0
unfolding leave_in
leave_in-IsTracked s r none e h = h
leave_in-IsTracked s r (some p) e h = leave_process-IsTracked s p r e h

leave-IsTracked : (s : String) (r : PresenceRegistry) → IsTracked r → IsTracked (leave s r).0
unfolding leave
leave-IsTracked s r h = leave_in-IsTracked s r (located r s) refl h

change-IsTracked :
    (f : PresenceInfo → PresenceInfo) (s : String) (r : PresenceRegistry)
    → IsTracked r
    → IsTracked (change f s r).0
change-IsTracked f s r h q t =
    change-current_of f s q t r ∙ h q t ∙ ap (is_at q) (sym (change-located f s t r))

step-IsTracked :
    (r : PresenceRegistry) (q : Request) → IsAllowed r q → IsTracked r → IsTracked (step r q)
unfolding step move heartbeat
step-IsTracked r (join_to p info) allowed h = join-IsTracked p info r allowed h
step-IsTracked r (leave_of s) allowed h = leave-IsTracked s r h
step-IsTracked r (move_of now s patch) allowed h = change-IsTracked _ s r h
step-IsTracked r (beat_of now s) allowed h = change-IsTracked _ s r h

-- In every registry that joins by sockets of no other process, moves, heartbeats and leaves reach from
-- the empty one, a socket is a member of a process exactly if the registry has it noted for that process,
-- so of one process at most.
pub Reached-IsTracked : (r : PresenceRegistry) → Reached r → IsTracked r
unfolding located lookup
Reached-IsTracked _ start = λ p s. refl
Reached-IsTracked _ (next r q before allowed) =
    step-IsTracked r q allowed (Reached-IsTracked r before)

leave_in-located :
    (s : String) (r : PresenceRegistry) (found : Option String)
    → located r s ≡ found
    → located (leave_in s r found).0 s ≡ none
unfolding leave_in
leave_in-located s r none e = e
leave_in-located s r (some p) e = ground (arith, leave_process-located s p s r, eq_iff s s)

leave_in-current_of :
    (s p q : String) (r : PresenceRegistry)
    → located r s ≡ some q
    → str_eq p q ≡ false
    → current_of (leave_in s r (located r s)).0 p s ≡ current_of r p s
unfolding leave_in
leave_in-current_of s p q r e other =
    ap (λ found. current_of (leave_in s r found).0 p s) e
    ∙ ground (arith, leave_process-current_of s q p s r, eq_iff p q, eq_iff q p)

-- After the requests above, nothing is left of a socket in any process once it has left.
pub leave-gone :
    (r : PresenceRegistry)
    → Reached r
    → (s p : String) → is_some (current_of (leave s r).0 p s) ≡ false
unfolding leave
leave-gone r reached s p = ground (
  arith,
  leave-IsTracked s r (Reached-IsTracked r reached) p s,
  ap (is_at p) (leave_in-located s r (located r s) refl),
)

-- If a socket joins a second process without leaving the first, its disconnect leaves it in the first:
-- the information of its first join stays there.
pub leave-stays :
    (r : PresenceRegistry) (p q : String) (info later : PresenceInfo)
    → is_empty q ≡ false
    → str_eq p q ≡ false
    → later.socket_id ≡ info.socket_id
    → current_of (leave info.socket_id (join q later (join p info r).0).0).0 p info.socket_id
      ≡ some info
unfolding leave
leave-stays r p q info later named other same =
    let s = info.socket_id in
    let first = (join p info r).0 in
    let second = (join q later first).0 in
    let at_q = join-located q s later first named in
    leave_in-current_of s p q second (ground (arith, at_q, eq_iff later.socket_id s)) other
    ∙ ground (
      arith,
      join-current_of q p s later first,
      join-current_of p p s info r,
      eq_iff p q,
      eq_iff q p,
      eq_iff p p,
      eq_iff s s,
    )
