-- ===== src/Escalation/Levels/Counting.antt =====
-- The stored set of a pair holds exactly the hashes of the records that flag the pair, each once,
-- and the level is its size.
use ses.Base.{
  ℕ, ◌≡◌, refl, ap, ◌∙◌, String, Bool, false, not, ◌&&◌, ◌||◌, Option, none, some, List, [], ◌∷◌,
  arith, str_eq, eq_iff, is_empty, get_or, contains, any, length, if◌then◌else◌, max, Bool-cases,
  ◌≢◌, inl, inr,
}
use ses.Base.Dict.{
  Dict, lookup, insert, lookup-insert, NodupKeys, insert-NodupKeys, lookup_of_not-key,
}
use ses.Base.Sets.{add, contains-add, Distinct, add-Distinct, length-add}
use ses.Escalation.Levels.{
  OccurrenceRecord, occurrence_pair_key, note, note_all, size_all, compute_occurrence_levels,
  level_for,
}

-- The set that is stored for a composite key.
abbrev pub hashes_at : String → Dict (List String) → List String
hashes_at k m = get_or (lookup k m) []

-- A record flags the composite key `k` in the upload with hash `h`.
abbrev pub flags_key : String → String → Option OccurrenceRecord → Bool
flags_key k h none = false
flags_key k h (some rec) =
    not (is_empty rec.manager_key || is_empty rec.issue_key)
    && str_eq (occurrence_pair_key rec.manager_key rec.issue_key) k
    && str_eq (get_or rec.findings_hash "") h

pub hashes_at-insert :
    (k j : String) (v : List String) (m : Dict (List String))
    → hashes_at j (insert k v m) ≡ (if str_eq k j then v else hashes_at j m)
hashes_at-insert k j v m = ground (arith, lookup-insert k j v m)

contains-hashes_at-note :
    (k h : String) (m : Dict (List String)) (r : Option OccurrenceRecord)
    → contains (hashes_at k (note m r)) h ≡ (contains (hashes_at k m) h || flags_key k h r)
unfolding note
contains-hashes_at-note k h m none = ground arith
contains-hashes_at-note k h m (some r) =
    let key = occurrence_pair_key r.manager_key r.issue_key in
    let hash = get_or r.findings_hash "" in
    ground (
      arith,
      hashes_at-insert key k (add hash (hashes_at key m)) m,
      contains-add hash h (hashes_at key m),
      eq_iff key k,
    )

pub contains-hashes_at :
    (k h : String) (m : Dict (List String)) (rs : List (Option OccurrenceRecord))
    → contains (hashes_at k (note_all m rs)) h
      ≡ (contains (hashes_at k m) h || any (flags_key k h) rs)
unfolding note_all
contains-hashes_at k h m [] = ground arith
contains-hashes_at k h m (r ∷ rs) =
    ground (arith, contains-hashes_at k h (note m r) rs, contains-hashes_at-note k h m r)

-- What holds of the map between two records.
pub record Inv (m : Dict (List String)) : Type 0 where
  pub keys : NodupKeys m
  pub distinct : (k : String) → Distinct (hashes_at k m)
  pub filled : (k : String) → lookup k m ≢ some []

note-Inv : (m : Dict (List String)) (r : Option OccurrenceRecord) → Inv m → Inv (note m r)
unfolding note
note-Inv m none v = v
note-Inv m (some r) v = elim (Bool-cases (is_empty r.manager_key || is_empty r.issue_key)) [
  | inl skip ↦ rw skip v
  | inr use_it ↦ rw use_it (record {
    keys = insert-NodupKeys key added m v.keys;
    distinct = λ k. ground (
      arith,
      hashes_at-insert key k added m,
      add-Distinct hash (hashes_at key m) (v.distinct key),
      v.distinct k,
    );
    filled = λ k. ground (
      arith,
      lookup-insert key k added m,
      v.filled k,
      length-add hash (hashes_at key m),
      v.filled key,
    );
  })
]
  where
    key : String
    key = occurrence_pair_key r.manager_key r.issue_key

    hash : String
    hash = get_or r.findings_hash ""

    added : List String
    added = add hash (hashes_at key m)

note_all-Inv :
    (m : Dict (List String)) (rs : List (Option OccurrenceRecord)) → Inv m → Inv (note_all m rs)
unfolding note_all
note_all-Inv m [] v = v
note_all-Inv m (r ∷ rs) v = note_all-Inv (note m r) rs (note-Inv m r v)

nil-Inv : Inv []
unfolding lookup
nil-Inv = record { keys = tt; distinct = λ k. tt; filled = λ k. cc }

pub compute-Inv : (rs : List (Option OccurrenceRecord)) → Inv (note_all [] rs)
compute-Inv rs = note_all-Inv [] rs nil-Inv

abbrev size_of : Option ℕ → Option (List String) → Option ℕ
size_of old none = old
size_of old (some hashes) = some (length hashes)

lookup-size_all :
    (k : String) (levels : Dict ℕ) (m : Dict (List String))
    → NodupKeys m
    → lookup k (size_all levels m) ≡ size_of (lookup k levels) (lookup k m)
unfolding size_all lookup
lookup-size_all k levels [] v = refl
lookup-size_all k levels ((j, hashes) ∷ m) v = ground (
  arith,
  lookup-size_all k (insert j (length hashes) levels) m v.1,
  lookup-insert j k (length hashes) levels,
  lookup_of_not-key j m v.0,
  eq_iff j k,
)

get_or-size_of :
    (o : Option (List String))
    → o ≢ some []
    → get_or (size_of none o) 1 ≡ max 1 (length (get_or o []))
get_or-size_of none n = refl
get_or-size_of (some []) n = absurd (n refl)
get_or-size_of (some (h ∷ hs)) n = omega arith

lookup-nil : (k : String) → lookup {V = ℕ} k [] ≡ none
unfolding lookup
lookup-nil k = refl

-- The level of a pair is the size of its stored set, and 1 where nothing is stored.
pub level_for-size :
    (rs : List (Option OccurrenceRecord)) (m i : String)
    → is_empty m ≡ false
    → is_empty i ≡ false
    → level_for rs m (some i)
      ≡ max 1 (length (hashes_at (occurrence_pair_key m i) (note_all [] rs)))
unfolding level_for compute_occurrence_levels
level_for-size rs m i hm hi =
    let key = occurrence_pair_key m i in
    let inv = compute-Inv rs in
    let stored = note_all [] rs in
    rw (hm, hi)
      (ap (λ o. get_or o 1)
          (lookup-size_all key [] stored inv.keys
            ∙ ap (λ o. size_of o (lookup key stored)) (lookup-nil key))
        ∙ get_or-size_of (lookup key stored) (inv.filled key))
