-- ===== src/Escalation/Levels.antt =====
-- escalationLevels.ts: how many distinct uploads have flagged a manager for an issue.
-- A record of the input is `none` where the source guards with `!rec`; `findingsHash ?? ''` is read
-- with a default.
pub mod Pairs
pub mod Counting
pub mod Uploads
pub mod Growth
use Prim.Native.String
use ses.Base.{
  ℕ, String, Bool, Option, none, some, List, [], ◌∷◌, ◌||◌, if◌then◌else◌, is_empty, get_or, length,
}
use ses.Base.Dict.{Dict, lookup, insert}
use ses.Base.Sets.{add}

abbrev pub pair_sep : String
pair_sep = "\0"

unfoldable pub occurrence_pair_key : String → String → String
occurrence_pair_key manager_key issue_key = String.◌++◌ manager_key (String.◌++◌ pair_sep issue_key)

pub record OccurrenceRecord : Type 0 where
  pub findings_hash : Option String
  pub manager_key : String
  pub issue_key : String

-- One round of the first loop of `computeOccurrenceLevels`.
unfoldable pub note : Dict (List String) → Option OccurrenceRecord → Dict (List String)
note hashes_by_pair none = hashes_by_pair
note hashes_by_pair (some rec) =
    if is_empty rec.manager_key || is_empty rec.issue_key
    then hashes_by_pair
    else let pair_key = occurrence_pair_key rec.manager_key rec.issue_key in
      let hashes = get_or (lookup pair_key hashes_by_pair) [] in
      insert pair_key (add (get_or rec.findings_hash "") hashes) hashes_by_pair

unfoldable pub note_all : Dict (List String) → List (Option OccurrenceRecord) → Dict (List String)
note_all hashes_by_pair [] = hashes_by_pair
note_all hashes_by_pair (rec ∷ records) = note_all (note hashes_by_pair rec) records

-- The second loop: `levels.set(pairKey, hashes.size)`.
unfoldable pub size_all : Dict ℕ → Dict (List String) → Dict ℕ
size_all levels [] = levels
size_all levels ((pair_key, hashes) ∷ rest) = size_all (insert pair_key (length hashes) levels) rest

unfoldable pub compute_occurrence_levels : List (Option OccurrenceRecord) → Dict ℕ
compute_occurrence_levels records = size_all [] (note_all [] records)

-- `EscalationLevelResolver.levelFor` of a resolver built from `records`; a `null` or `undefined`
-- issue key is `none`.
unfoldable pub level_for : List (Option OccurrenceRecord) → String → Option String → ℕ
level_for records manager_key none = 1
level_for records manager_key (some issue_key) =
    if is_empty manager_key || is_empty issue_key
    then 1
    else get_or
        (lookup (occurrence_pair_key manager_key issue_key) (compute_occurrence_levels records)) 1
