-- ===== src/Escalation/Levels/Growth.antt =====
-- How one more record changes the levels.
use ses.Base.{
  ◌+◌, ◌≤◌, ◌≡◌, refl, sym, ap, ◌∙◌, String, true, false, ◌||◌, Option, none, some, List, [], ◌∷◌,
  ◌++◌, arith, eq_iff, is_empty, get_or, contains, any, length, max, Bool-cases, Option-cases, All,
  ◌≢◌, ◌⊎◌, inl, inr,
}
use ses.Base.Dict.{Dict, lookup, insert_same}
use ses.Base.Sets.{add, length-add}
use ses.Escalation.Levels.{
  OccurrenceRecord, occurrence_pair_key, note, note_all, compute_occurrence_levels, level_for,
  size_all,
}
use ses.Escalation.Levels.Pairs.{NoNul, occurrence_pair_key-injective}
use ses.Escalation.Levels.Counting.{
  hashes_at, flags_key, contains-hashes_at, level_for-size, hashes_at-insert,
}
use ses.Escalation.Levels.Uploads.{flags, HasPlainManager, any-flags}

note_skip :
    (m : Dict (List String)) (rec : OccurrenceRecord)
    → (is_empty rec.manager_key || is_empty rec.issue_key) ≡ true
    → note m (some rec) ≡ m
unfolding note
note_skip m rec h = rw h

note_all-append :
    (m : Dict (List String)) (rs : List (Option OccurrenceRecord)) (r : Option OccurrenceRecord)
    → note_all m (rs ++ r ∷ []) ≡ note (note_all m rs) r
unfolding note_all
note_all-append m [] r = refl
note_all-append m (x ∷ rs) r = note_all-append (note m x) rs r

lookup_of_contains :
    (k h : String) (m : Dict (List String))
    → contains (hashes_at k m) h ≡ true
    → lookup k m ≡ some (hashes_at k m)
lookup_of_contains k h m c = elim (Option-cases (lookup k m)) [
  | inl e ↦ absurd (ground arith)
  | inr (v, e) ↦ rw e refl
]

note_again :
    (m : Dict (List String)) (rec : OccurrenceRecord)
    → contains
        (hashes_at (occurrence_pair_key rec.manager_key rec.issue_key) m)
        (get_or rec.findings_hash "")
      ≡ true
    → note m (some rec) ≡ m
unfolding note add
note_again m rec c =
    let key = occurrence_pair_key rec.manager_key rec.issue_key in
    let hash = get_or rec.findings_hash "" in
    ground (arith, lookup_of_contains key hash m c, insert_same key (hashes_at key m) m)

flags_key_of-flags :
    (rec : OccurrenceRecord) (h : String) (rs : List (Option OccurrenceRecord))
    → is_empty rec.manager_key ≡ false
    → is_empty rec.issue_key ≡ false
    → any (flags rec.manager_key rec.issue_key h) rs ≡ true
    → any (flags_key (occurrence_pair_key rec.manager_key rec.issue_key) h) rs ≡ true
flags_key_of-flags rec h [] hm hi a = absurd (cc)
flags_key_of-flags rec h (none ∷ rs) hm hi a = flags_key_of-flags rec h rs hm hi a
flags_key_of-flags rec h (some r ∷ rs) hm hi a = ground (
  arith,
  flags_key_of-flags rec h rs hm hi,
  eq_iff r.manager_key rec.manager_key,
  eq_iff r.issue_key rec.issue_key,
  eq_iff (occurrence_pair_key r.manager_key r.issue_key)
      (occurrence_pair_key rec.manager_key rec.issue_key),
)

-- Recording once more a manager, issue and hash that an earlier record has changes no level: the whole
-- map of levels stays the same.
pub compute_occurrence_levels-again :
    (rs : List (Option OccurrenceRecord)) (rec : OccurrenceRecord)
    → any (flags rec.manager_key rec.issue_key (get_or rec.findings_hash "")) rs ≡ true
    → compute_occurrence_levels (rs ++ some rec ∷ []) ≡ compute_occurrence_levels rs
unfolding compute_occurrence_levels
compute_occurrence_levels-again rs rec a =
    ap (size_all []) (note_all-append [] rs (some rec) ∙ same)
  where
    same : note (note_all [] rs) (some rec) ≡ note_all [] rs
    same = elim (Bool-cases (is_empty rec.manager_key || is_empty rec.issue_key)) [
      | inl skip ↦ ground (arith, note_skip (note_all [] rs) rec)
      | inr use_it ↦ note_again (note_all [] rs) rec (
          ground (
            arith,
            contains-hashes_at (occurrence_pair_key rec.manager_key rec.issue_key)
                (get_or rec.findings_hash "") [] rs,
            flags_key_of-flags rec (get_or rec.findings_hash "") rs (ground arith) (ground arith) a,
          ))
    ]

length_of_contains : (xs : List String) (h : String) → contains xs h ≡ true → 1 ≤ length xs
length_of_contains [] h c = absurd (cc)
length_of_contains (x ∷ xs) h c = omega arith

stored-flags :
    (m i h : String) (rs : List (Option OccurrenceRecord))
    → NoNul m
    → All HasPlainManager rs
    → is_empty m ≡ false
    → is_empty i ≡ false
    → contains (hashes_at (occurrence_pair_key m i) (note_all [] rs)) h ≡ any (flags m i h) rs
unfolding lookup
stored-flags m i h rs p q hm hi =
    contains-hashes_at (occurrence_pair_key m i) h [] rs ∙ any-flags m i h rs p q hm hi

length-note :
    (mp : Dict (List String)) (rec : OccurrenceRecord)
    → is_empty rec.manager_key ≡ false
    → is_empty rec.issue_key ≡ false
    → contains
        (hashes_at (occurrence_pair_key rec.manager_key rec.issue_key) mp)
        (get_or rec.findings_hash "")
      ≡ false
    → length (hashes_at (occurrence_pair_key rec.manager_key rec.issue_key) (note mp (some rec)))
      ≡ length (hashes_at (occurrence_pair_key rec.manager_key rec.issue_key) mp) + 1
unfolding note
length-note mp rec hm hi c =
    let key = occurrence_pair_key rec.manager_key rec.issue_key in
    let hash = get_or rec.findings_hash "" in
    let old = hashes_at key mp in
    ground (arith, hashes_at-insert key key (add hash old) mp, length-add hash old, eq_iff key key)

-- A record whose hash is new for a pair that is already flagged raises the level of the pair by
-- exactly one (keys nonempty, no NUL character in a manager key).
pub level_for-new_upload :
    (rs : List (Option OccurrenceRecord)) (rec : OccurrenceRecord) (earlier : String)
    → NoNul rec.manager_key
    → All HasPlainManager rs
    → is_empty rec.manager_key ≡ false
    → is_empty rec.issue_key ≡ false
    → any (flags rec.manager_key rec.issue_key earlier) rs ≡ true
    → any (flags rec.manager_key rec.issue_key (get_or rec.findings_hash "")) rs ≡ false
    → level_for (rs ++ some rec ∷ []) rec.manager_key (some rec.issue_key)
      ≡ level_for rs rec.manager_key (some rec.issue_key) + 1
level_for-new_upload rs rec earlier p q hm hi seen fresh =
    let m = rec.manager_key in
    let i = rec.issue_key in
    let hash = get_or rec.findings_hash "" in
    let old = hashes_at (occurrence_pair_key m i) (note_all [] rs) in
    let grown =
      length-note (note_all [] rs) rec hm hi (stored-flags m i hash rs p q hm hi ∙ fresh) in
    rw
      (
        level_for-size (rs ++ some rec ∷ []) m i hm hi,
        level_for-size rs m i hm hi,
        note_all-append [] rs (some rec),
        grown,
      )
      (omega (arith, length_of_contains old earlier (stored-flags m i earlier rs p q hm hi ∙ seen)))

hashes_at-note_other :
    (mp : Dict (List String)) (rec : OccurrenceRecord) (k : String)
    → occurrence_pair_key rec.manager_key rec.issue_key ≢ k
    → hashes_at k (note mp (some rec)) ≡ hashes_at k mp
unfolding note
hashes_at-note_other mp rec k d =
    let key = occurrence_pair_key rec.manager_key rec.issue_key in
    ground (
      arith,
      hashes_at-insert key k (add (get_or rec.findings_hash "") (hashes_at key mp)) mp,
      eq_iff key k,
    )

level_for_of_empty :
    (rs : List (Option OccurrenceRecord)) (m i : String)
    → (is_empty m || is_empty i) ≡ true
    → level_for rs m (some i) ≡ 1
unfolding level_for
level_for_of_empty rs m i h = rw h

-- A record changes no level but that of its own manager and issue (no NUL character in the two manager
-- keys).
pub level_for-other :
    (rs : List (Option OccurrenceRecord)) (rec : OccurrenceRecord) (m i : String)
    → NoNul rec.manager_key
    → NoNul m
    → (rec.manager_key ≢ m) ⊎ (rec.issue_key ≢ i)
    → level_for (rs ++ some rec ∷ []) m (some i) ≡ level_for rs m (some i)
level_for-other rs rec m i p q d = elim (Bool-cases (is_empty m || is_empty i)) [
  | inl e ↦ level_for_of_empty (rs ++ some rec ∷ []) m i e ∙ sym (level_for_of_empty rs m i e)
  | inr e ↦
      level_for-size (rs ++ some rec ∷ []) m i (ground arith) (ground arith)
      ∙ ap (λ hs. max 1 (length hs))
          (ap (hashes_at (occurrence_pair_key m i)) (note_all-append [] rs (some rec))
            ∙ hashes_at-note_other (note_all [] rs) rec (occurrence_pair_key m i) differ)
      ∙ sym (level_for-size rs m i (ground arith) (ground arith))
]
  where
    differ : occurrence_pair_key rec.manager_key rec.issue_key ≢ occurrence_pair_key m i
    differ e =
        let (same_m, same_i) =
          (occurrence_pair_key-injective rec.manager_key m rec.issue_key i p q).0 e in
        elim d [ inl n ↦ n same_m | inr n ↦ n same_i ]
