-- ===== src/Escalation/Levels/Uploads.antt =====
-- What the level of a manager and an issue says about the uploads.
use ses.Base.{
  ◌≡◌, refl, ap, ◌∙◌, String, Bool, false, ◌&&◌, ◌||◌, Option, none, some, List, [], ◌∷◌, arith,
  str_eq, eq_iff, is_empty, get_or, contains, any, length, max, All,
}
use ses.Base.Dict.{lookup}
use ses.Base.Sets.{Distinct}
use ses.Escalation.Levels.{OccurrenceRecord, occurrence_pair_key, note_all, level_for}
use ses.Escalation.Levels.Pairs.{NoNul, occurrence_pair_key-injective}
use ses.Escalation.Levels.Counting.{
  hashes_at, flags_key, contains-hashes_at, compute-Inv, level_for-size,
}

-- The record flags manager `m` for issue `i` in the upload with hash `h`.
abbrev pub flags : String → String → String → Option OccurrenceRecord → Bool
flags m i h none = false
flags m i h (some rec) =
    str_eq rec.manager_key m && str_eq rec.issue_key i && str_eq (get_or rec.findings_hash "") h

-- The manager key of a record holds no NUL character.
abbrev pub HasPlainManager : Option OccurrenceRecord → Type 0
HasPlainManager none = Unit
HasPlainManager (some rec) = NoNul rec.manager_key

flags_key-flags :
    (m i h : String) (r : Option OccurrenceRecord)
    → NoNul m
    → HasPlainManager r
    → is_empty m ≡ false
    → is_empty i ≡ false
    → flags_key (occurrence_pair_key m i) h r ≡ flags m i h r
flags_key-flags m i h none p q hm hi = refl
flags_key-flags m i h (some r) p q hm hi =
    let (inj, back) = occurrence_pair_key-injective r.manager_key m r.issue_key i q p in
    ground (
      arith,
      inj,
      back,
      eq_iff (occurrence_pair_key r.manager_key r.issue_key) (occurrence_pair_key m i),
      eq_iff r.manager_key m,
      eq_iff r.issue_key i,
    )

pub any-flags :
    (m i h : String) (rs : List (Option OccurrenceRecord))
    → NoNul m
    → All HasPlainManager rs
    → is_empty m ≡ false
    → is_empty i ≡ false
    → any (flags_key (occurrence_pair_key m i) h) rs ≡ any (flags m i h) rs
any-flags m i h [] p q hm hi = refl
any-flags m i h (r ∷ rs) p q hm hi =
    ground (arith, flags_key-flags m i h r p q.0 hm hi, any-flags m i h rs p q.1 hm hi)

nil-contains : (k h : String) → contains (hashes_at k []) h ≡ false
unfolding lookup
nil-contains k h = refl

-- For a manager and an issue with nonempty keys, where no manager key holds a NUL character, the level
-- is the number of different hashes of the records that flag this manager for this issue, and 1 if there
-- is no such record: a list without duplicates that holds exactly those hashes has that length.
pub level_for-counts :
    (rs : List (Option OccurrenceRecord)) (m i : String)
    → NoNul m
    → All HasPlainManager rs
    → is_empty m ≡ false
    → is_empty i ≡ false
    → (hashes : List String) × Distinct hashes
      × ((h : String) → contains hashes h ≡ any (flags m i h) rs)
      × (level_for rs m (some i) ≡ max 1 (length hashes))
level_for-counts rs m i p q hm hi =
    let key = occurrence_pair_key m i in
    (
      hashes_at key (note_all [] rs),
      (compute-Inv rs).distinct key,
      λ h.
          contains-hashes_at key h [] rs
          ∙ ap (λ b. b || any (flags_key key h) rs) (nil-contains key h)
          ∙ any-flags m i h rs p q hm hi,
      level_for-size rs m i hm hi,
    )
