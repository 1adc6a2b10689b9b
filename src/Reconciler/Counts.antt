-- ===== src/Reconciler/Counts.antt =====
-- The findings of a run counted by manager, and the managers that have an entry.
use ses.Base.{
  ℕ, ◌+◌, ◌≡◌, refl, ap, ◌∙◌, String, Bool, true, false, not, ◌&&◌, ◌||◌, Option, none, some, List,
  [], ◌∷◌, ◌++◌, map, filter, length, sum_by, str_eq, contains, arith, All, eq_iff, if◌then◌else◌,
}
use ses.Base.Dict.{Dict, lookup, insert, lookup-insert, NodupKeys, insert-NodupKeys}
use ses.Base.Sets.{Distinct, contains-append}
use ses.Js.{Host}
use ses.Reconciler.{
  RunIssue, ObservedManager, TrackedRow, issue_key, counted, observe, new_row, in_process, keys_of,
  ensure_tracking_entries_exist, observed_count,
}

abbrev names {ℓ} : {A : Type ℓ} → Dict A → List String
names d = map (λ e. e.0) d

contains-names-insert {ℓ} :
    {A : Type ℓ} (k j : String) (v : A) (d : Dict A)
    → contains (names (insert k v d)) j ≡ (contains (names d) j || str_eq k j)
unfolding insert
contains-names-insert k j v [] = ground arith
contains-names-insert k j v ((here, old) ∷ d) =
    ground (arith, eq_iff here k, eq_iff k j, eq_iff here j, contains-names-insert k j v d)

sum_zero {ℓ} : {A : Type ℓ} (xs : List A) → sum_by (λ x. 0) xs ≡ 0
sum_zero [] = refl
sum_zero (x ∷ xs) = omega (arith, sum_zero xs)

one_if : Bool → ℕ
one_if b = if b then 1 else 0

sum-missing :
    (key : String) (keys : List String)
    → contains keys key ≡ false
    → sum_by (λ k. one_if (str_eq key k)) keys ≡ 0
unfolding one_if
sum-missing key [] h = refl
sum-missing key (k ∷ keys) h = ground (arith, eq_iff key k, eq_iff k key, sum-missing key keys)

sum-found :
    (key : String) (keys : List String)
    → contains keys key ≡ true
    → Distinct keys
    → sum_by (λ k. one_if (str_eq key k)) keys ≡ 1
unfolding one_if
sum-found key [] h d = absurd (cc h)
sum-found key (k ∷ keys) h d = ground (
  arith,
  eq_iff key k,
  eq_iff k key,
  sum-missing k keys d.0,
  sum-missing key keys,
  sum-found key keys,
)

sum_split :
    (p : String → Bool) (f : String → ℕ) (keys : List String)
    → sum_by (λ k. one_if (p k) + f k) keys ≡ sum_by (λ k. one_if (p k)) keys + sum_by f keys
sum_split p f [] = refl
sum_split p f (k ∷ keys) = omega (arith, sum_split p f keys)

sum_by_ext :
    (f g : String → ℕ)
    → ((k : String) → f k ≡ g k)
    → (keys : List String) → sum_by f keys ≡ sum_by g keys
sum_by_ext f g h [] = refl
sum_by_ext f g h (k ∷ keys) = omega (arith, h k, sum_by_ext f g h keys)

module _ (host : Host) where
  -- The number of findings of a manager.
  abbrev pub findings_of : String → List RunIssue → ℕ
  findings_of key issues = length (filter (λ iss. str_eq (issue_key host iss) key) issues)

  observed_count-counted :
      (prior : Option ObservedManager) (iss : RunIssue)
      → observed_count (some (counted host prior iss)) ≡ observed_count prior + 1
  observed_count-counted none iss = refl
  observed_count-counted (some prior) iss = refl

  observe-count :
      (issues : List RunIssue) (d : Dict ObservedManager) (key : String)
      → observed_count (lookup key (observe host issues d))
        ≡ observed_count (lookup key d) + findings_of key issues
  unfolding observe
  observe-count [] d key = omega arith
  observe-count (iss ∷ issues) d key =
      let here = issue_key host iss in
      let now = counted host (lookup here d) iss in
      ground (
        arith,
        eq_iff here key,
        lookup-insert here key now d,
        observed_count-counted (lookup here d) iss,
        observe-count issues (insert here now d) key,
      )

  pub observe-findings_of :
      (issues : List RunIssue) (key : String)
      → observed_count (lookup key (observe host issues [])) ≡ findings_of key issues
  unfolding lookup
  observe-findings_of issues key = omega (arith, observe-count issues [] key)

  observe-NodupKeys :
      (issues : List RunIssue) (d : Dict ObservedManager)
      → NodupKeys d
      → NodupKeys (observe host issues d)
  unfolding observe
  observe-NodupKeys [] d h = h
  observe-NodupKeys (iss ∷ issues) d h = observe-NodupKeys issues _ (insert-NodupKeys _ _ d h)

  observe-keeps :
      (issues : List RunIssue) (d : Dict ObservedManager) (key : String)
      → contains (names d) key ≡ true
      → contains (names (observe host issues d)) key ≡ true
  unfolding observe
  observe-keeps [] d key h = h
  observe-keeps (iss ∷ issues) d key h =
      let here = issue_key host iss in
      observe-keeps issues _ key
        (ground (arith, contains-names-insert here key (counted host (lookup here d) iss) d))

  -- The manager of every finding is one of the keys.
  abbrev pub AreKeys : List String → List RunIssue → Type 0
  AreKeys keys issues = All (λ iss. contains keys (issue_key host iss) ≡ true) issues

  observe-AreKeys :
      (issues : List RunIssue) (d : Dict ObservedManager)
      → AreKeys (names (observe host issues d)) issues
  unfolding observe
  observe-AreKeys [] d = tt
  observe-AreKeys (iss ∷ issues) d =
      let here = issue_key host iss in
      let now = counted host (lookup here d) iss in
      (
        observe-keeps issues (insert here now d) here
            (ground (arith, contains-names-insert here here now d, eq_iff here here)),
        observe-AreKeys issues (insert here now d),
      )

  findings_of_cons :
      (iss : RunIssue) (issues : List RunIssue) (k : String)
      → findings_of k (iss ∷ issues) ≡ one_if (str_eq (issue_key host iss) k) + findings_of k issues
  unfolding one_if
  findings_of_cons iss issues k = ground arith

  -- Keys without duplicates that hold every manager share the findings out among themselves.
  pub sum-findings_of :
      (keys : List String) (issues : List RunIssue)
      → Distinct keys
      → AreKeys keys issues
      → sum_by (λ k. findings_of k issues) keys ≡ length issues
  sum-findings_of keys [] d h = sum_zero keys
  sum-findings_of keys (iss ∷ issues) d h = omega (
    arith,
    sum_by_ext _ _ (findings_of_cons iss issues) keys,
    sum_split (λ k. str_eq (issue_key host iss) k) (λ k. findings_of k issues) keys,
    sum-found (issue_key host iss) keys h.0 d,
    sum-findings_of keys issues d h.1,
  )

abbrev pub rows_in : String → List TrackedRow → List TrackedRow
rows_in process_id table = filter (in_process process_id) table

keys-append :
    (process_id : String) (xs ys : List TrackedRow)
    → keys_of process_id (xs ++ ys) ≡ keys_of process_id xs ++ keys_of process_id ys
keys-append process_id [] ys = refl
keys-append process_id (x ∷ xs) ys = ground (arith, keys-append process_id xs ys)

abbrev is_new : List String → String × ObservedManager → Bool
is_new keys m = not (contains keys m.0)

keys-new_rows :
    (process_id : String) (ms : Dict ObservedManager)
    → keys_of process_id (map (new_row process_id) ms) ≡ names ms
keys-new_rows process_id [] = refl
keys-new_rows process_id (m ∷ ms) =
    ground (arith, eq_iff process_id process_id, keys-new_rows process_id ms)

keys_of-ensure :
    (process_id : String) (observed : Dict ObservedManager) (table : List TrackedRow)
    → keys_of process_id (ensure_tracking_entries_exist process_id observed table)
      ≡ keys_of process_id table ++ names (filter (is_new (keys_of process_id table)) observed)
unfolding ensure_tracking_entries_exist
keys_of-ensure process_id observed table =
    let fresh = filter (is_new (keys_of process_id table)) observed in
    keys-append process_id table (map (new_row process_id) fresh)
    ∙ ap (λ ks. keys_of process_id table ++ ks) (keys-new_rows process_id fresh)

contains-fresh :
    (keys : List String) (d : Dict ObservedManager) (key : String)
    → contains (names (filter (is_new keys) d)) key
      ≡ (contains (names d) key && not (contains keys key))
contains-fresh keys [] key = refl
contains-fresh keys ((here, m) ∷ d) key = ground (arith, eq_iff here key, contains-fresh keys d key)

fresh-Distinct :
    (keys : List String) (d : Dict ObservedManager)
    → NodupKeys d
    → Distinct (names (filter (is_new keys) d))
fresh-Distinct keys [] h = tt
fresh-Distinct keys ((here, m) ∷ d) h =
    ground (arith, contains-fresh keys d here, fresh-Distinct keys d h.1)

join-Distinct :
    (all_keys keys : List String) (d : Dict ObservedManager)
    → Distinct keys
    → ((key : String) → contains keys key ≡ true → contains all_keys key ≡ true)
    → Distinct (names (filter (is_new all_keys) d))
    → Distinct (keys ++ names (filter (is_new all_keys) d))
join-Distinct all_keys [] d h within fresh = fresh
join-Distinct all_keys (key ∷ keys) d h within fresh = (
  ground (
    arith,
    within key (ground (arith, eq_iff key key)),
    h.0,
    contains-append keys (names (filter (is_new all_keys) d)) key,
    contains-fresh all_keys d key,
  ),
  join-Distinct all_keys keys d h.1 (λ k e. within k (ground arith)) fresh,
)

All-keys :
    (host : Host) (keys keys' : List String) (issues : List RunIssue)
    → ((k : String) → contains keys k ≡ true → contains keys' k ≡ true)
    → AreKeys host keys issues
    → AreKeys host keys' issues
All-keys host keys keys' [] h k = tt
All-keys host keys keys' (iss ∷ issues) h k = (h _ k.0, All-keys host keys keys' issues h k.1)

-- After the entries of new managers are made, the process has an entry for the manager of every
-- finding, and no two entries of one manager.
pub ensure_lem :
    (host : Host) (process_id : String) (issues : List RunIssue) (table : List TrackedRow)
    → Distinct (keys_of process_id table)
    → let keys =
        keys_of process_id
          (ensure_tracking_entries_exist process_id (observe host issues []) table) in
      Distinct keys × AreKeys host keys issues
ensure_lem host process_id issues table h =
    let old = keys_of process_id table in
    let observed = observe host issues [] in
    let fresh = names (filter (is_new old) observed) in
    rw (keys_of-ensure process_id observed table) (
      join-Distinct old old observed h (λ k e. e)
          (fresh-Distinct old observed (observe-NodupKeys host issues [] tt)),
      All-keys host (names observed) (old ++ fresh) issues
          (λ k e. ground (arith, contains-append old fresh k, contains-fresh old observed k))
          (observe-AreKeys host issues []),
    )
