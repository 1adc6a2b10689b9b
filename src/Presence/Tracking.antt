-- ===== src/Presence/Tracking.antt =====
-- Which sockets the registry has in which process, operation by operation.
use ses.Base.{
  ◌≡◌, refl, ap, String, false, ◌&&◌, Option, none, some, [], ◌∷◌, str_eq, is_empty, get_or,
  is_some, arith, eq_iff, if◌then◌else◌, Bool-cases, inl, inr,
}
use ses.Base.Dict.{Dict, lookup, insert, lookup-insert}
use ses.Presence.{
  PresenceInfo, Bucket, PresenceRegistry, delete, join, located, leave_process, current_of,
  set_info, store_bucket, leave_bucket, change_at, change_in, non_empty, change,
}

lookup-delete {ℓ} :
    {V : Type ℓ} (key asked : String) (entries : Dict V)
    → lookup asked (delete key entries) ≡ (if str_eq key asked then none else lookup asked entries)
unfolding lookup delete
lookup-delete key asked [] = ground arith
lookup-delete key asked ((here, old) ∷ rest) =
    ground
      (arith, lookup-delete key asked rest, eq_iff here asked, eq_iff here key, eq_iff key asked)

abbrev find_in : Dict Bucket → String → String → Option PresenceInfo
find_in buckets q t = lookup t (get_or (lookup q buckets) [])

find_in-insert :
    (p q t : String) (bucket : Bucket) (buckets : Dict Bucket)
    → find_in (insert p bucket buckets) q t
      ≡ (if str_eq p q then lookup t bucket else find_in buckets q t)
find_in-insert p q t bucket buckets = ground (arith, lookup-insert p q bucket buckets)

find_in-delete :
    (p q t : String) (buckets : Dict Bucket)
    → find_in (delete p buckets) q t ≡ (if str_eq p q then none else find_in buckets q t)
unfolding lookup
find_in-delete p q t buckets = ground (arith, lookup-delete p q buckets)

find_in-store_bucket :
    (p q t : String) (bucket : Bucket) (buckets : Dict Bucket)
    → find_in (store_bucket p bucket buckets) q t
      ≡ (if str_eq p q then lookup t bucket else find_in buckets q t)
unfolding lookup
find_in-store_bucket p q t [] buckets = find_in-delete p q t buckets
find_in-store_bucket p q t (e ∷ es) buckets = find_in-insert p q t (e ∷ es) buckets

-- A write of one socket's information in one process.
find_in-write :
    (p q s t : String) (info : PresenceInfo) (buckets : Dict Bucket)
    → find_in (insert p (insert s info (get_or (lookup p buckets) [])) buckets) q t
      ≡ (if str_eq p q && str_eq s t then some info else find_in buckets q t)
find_in-write p q s t info buckets =
    let bucket = get_or (lookup p buckets) [] in
    elim (Bool-cases (str_eq p q)) [
      | inl e ↦ ground (
        arith,
        find_in-insert p q t (insert s info bucket) buckets,
        lookup-insert s t info bucket,
        ap (λ x. find_in buckets x t) ((eq_iff p q).0 e),
      )
      | inr e ↦ ground (arith, find_in-insert p q t (insert s info bucket) buckets)
    ]

-- After a join the socket is in the process, and every other place is as before.
pub join-current_of :
    (p q t : String) (info : PresenceInfo) (r : PresenceRegistry)
    → current_of (join p info r).0 q t
      ≡ (if str_eq p q && str_eq info.socket_id t then some info else current_of r q t)
unfolding join
join-current_of p q t info r = find_in-write p q info.socket_id t info r.by_process

pub join-located :
    (p t : String) (info : PresenceInfo) (r : PresenceRegistry)
    → is_empty p ≡ false
    → located (join p info r).0 t ≡ (if str_eq info.socket_id t then some p else located r t)
unfolding join located
join-located p t info r h = ground (arith, lookup-insert info.socket_id t p r.socket_to_process)

leave_bucket-current_of :
    (s p q t : String) (r : PresenceRegistry) (found : Option Bucket)
    → lookup p r.by_process ≡ found
    → current_of (leave_bucket s p r found).0 q t
      ≡ (if str_eq p q && str_eq s t then none else current_of r q t)
unfolding leave_bucket lookup
leave_bucket-current_of s p q t r none e = elim (Bool-cases (str_eq p q)) [
  | inl same ↦ ground (arith, e, ap (λ x. current_of r x t) ((eq_iff p q).0 same))
  | inr other ↦ ground arith
]
leave_bucket-current_of s p q t r (some bucket) e = elim (Bool-cases (str_eq p q)) [
  | inl same ↦ ground (
    arith,
    e,
    find_in-store_bucket p q t (delete s bucket) r.by_process,
    lookup-delete s t bucket,
    ap (λ x. current_of r x t) ((eq_iff p q).0 same),
  )
  | inr other ↦ ground (arith, find_in-store_bucket p q t (delete s bucket) r.by_process)
]

leave_bucket-sockets :
    (s p : String) (r : PresenceRegistry) (found : Option Bucket)
    → (leave_bucket s p r found).0.socket_to_process ≡ delete s r.socket_to_process
unfolding leave_bucket
leave_bucket-sockets s p r none = refl
leave_bucket-sockets s p r (some bucket) = refl

-- After a socket has left, it is gone from its process, and every other place is as before.
pub leave_process-current_of :
    (s p q t : String) (r : PresenceRegistry)
    → current_of (leave_process s p r).0 q t
      ≡ (if str_eq p q && str_eq s t then none else current_of r q t)
unfolding leave_process
leave_process-current_of s p q t r = leave_bucket-current_of s p q t r (lookup p r.by_process) refl

pub leave_process-located :
    (s p t : String) (r : PresenceRegistry)
    → located (leave_process s p r).0 t ≡ (if str_eq s t then none else located r t)
unfolding leave_process located
leave_process-located s p t r = ground (
  arith,
  leave_bucket-sockets s p r (lookup p r.by_process),
  lookup-delete s t r.socket_to_process,
)

change_at-current_of :
    (f : PresenceInfo → PresenceInfo) (p s q t : String) (r : PresenceRegistry)
    (found : Option PresenceInfo)
    → current_of r p s ≡ found
    → is_some (current_of (change_at f p s r found).0 q t) ≡ is_some (current_of r q t)
unfolding change_at set_info
change_at-current_of f p s q t r none e = refl
change_at-current_of f p s q t r (some current) e = elim (Bool-cases (str_eq p q && str_eq s t)) [
  | inl same ↦ ground (
    arith,
    e,
    find_in-write p q s t (f current) r.by_process,
    eq_iff p q,
    eq_iff s t,
    ap (λ x. current_of r x t) ((eq_iff p q).0 (ground arith)),
    ap (λ x. current_of r p x) ((eq_iff s t).0 (ground arith)),
  )
  | inr other ↦ ground (arith, find_in-write p q s t (f current) r.by_process)
]

change_in-current_of :
    (f : PresenceInfo → PresenceInfo) (s q t : String) (r : PresenceRegistry)
    (found : Option String)
    → is_some (current_of (change_in f s r found).0 q t) ≡ is_some (current_of r q t)
unfolding change_in
change_in-current_of f s q t r none = refl
change_in-current_of f s q t r (some p) = change_at-current_of f p s q t r (current_of r p s) refl

change_at-sockets :
    (f : PresenceInfo → PresenceInfo) (p s : String) (r : PresenceRegistry)
    (found : Option PresenceInfo)
    → (change_at f p s r found).0.socket_to_process ≡ r.socket_to_process
unfolding change_at set_info
change_at-sockets f p s r none = refl
change_at-sockets f p s r (some current) = refl

change_in-sockets :
    (f : PresenceInfo → PresenceInfo) (s : String) (r : PresenceRegistry) (found : Option String)
    → (change_in f s r found).0.socket_to_process ≡ r.socket_to_process
unfolding change_in
change_in-sockets f s r none = refl
change_in-sockets f s r (some p) = change_at-sockets f p s r (current_of r p s)

-- A change of the information of a socket moves nobody.
pub change-current_of :
    (f : PresenceInfo → PresenceInfo) (s q t : String) (r : PresenceRegistry)
    → is_some (current_of (change f s r).0 q t) ≡ is_some (current_of r q t)
unfolding change
change-current_of f s q t r = change_in-current_of f s q t r (located r s)

pub change-located :
    (f : PresenceInfo → PresenceInfo) (s t : String) (r : PresenceRegistry)
    → located (change f s r).0 t ≡ located r t
unfolding change located
change-located f s t r =
    ap (λ sockets. non_empty (lookup t sockets)) (change_in-sockets f s r (located r s))
