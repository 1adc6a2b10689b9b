-- ===== src/Audit/Compare/Verdicts.antt =====
-- What the comparison of two results says of each issue.
use mathlib.Core.List.{append-nil, append_assoc}
use ses.Base.{
  suc, ◌+◌, ◌≡◌, refl, String, Bool, not, Option, none, some, List, [], ◌∷◌, ◌++◌, filter, is_some,
  str_eq, fun_ext, length, concat_map, arith, if◌then◌else◌, Option-cases, inl, inr, sym, ◌∙◌, ap,
}
use ses.Base.Dict.{Dict, insert, lookup, lookup-insert}
use ses.Js.{Host}
use ses.Audit.Issue.{AuditIssue, AuditResult}
use ses.Audit.Compare.Differences.{differences, diffs_to_lem}
use ses.Audit.Compare.{
  FieldDiff, ChangedIssue, ComparisonResult, SharedIssues, DiffField, key_for, diff_issue, diffs_to,
  map_of, push_shared, split_shared, has_diff, comparison_of, has_key, compare_results,
}

module _ (host : Host) where
  -- The last of the issues with the given key.
  abbrev pub last_with : String → List AuditIssue → Option AuditIssue
  last_with key [] = none
  last_with key (issue ∷ issues) =
      let here = if str_eq (key_for host issue) key then some issue else none in
      elim (last_with key issues) [ none ↦ here | some later ↦ some later ]

  abbrev or_some : Option AuditIssue → Option AuditIssue → Option AuditIssue
  or_some none other = other
  or_some (some issue) other = some issue

  lookup-map_of_entries :
      (key : String) (issues : List AuditIssue) (entries : Dict AuditIssue)
      → lookup key (map_of host issues entries)
        ≡ or_some (last_with key issues) (lookup key entries)
  unfolding map_of
  lookup-map_of_entries key [] entries = refl
  lookup-map_of_entries key (issue ∷ issues) entries = ground (
    arith,
    lookup-map_of_entries key issues (insert (key_for host issue) issue entries),
    lookup-insert (key_for host issue) key issue entries,
  )

  or_some-none : (o : Option AuditIssue) → or_some o none ≡ o
  or_some-none none = refl
  or_some-none (some issue) = refl

  pub lookup-map_of :
      (key : String) (issues : List AuditIssue)
      → lookup key (map_of host issues []) ≡ last_with key issues
  unfolding lookup
  lookup-map_of key issues =
      lookup-map_of_entries key issues [] ∙ or_some-none (last_with key issues)

  -- What an issue adds to the changed and to the unchanged ones, given its differences.
  abbrev pub as_changed : AuditIssue → Option (List FieldDiff) → List ChangedIssue
  as_changed issue (some (d ∷ ds)) = record { issue = issue; diffs = d ∷ ds } ∷ []
  as_changed issue _ = []

  abbrev pub as_unchanged : AuditIssue → Option (List FieldDiff) → List AuditIssue
  as_unchanged issue (some []) = issue ∷ []
  as_unchanged issue _ = []

  abbrev pub as_new : AuditIssue → Option (List FieldDiff) → List AuditIssue
  as_new issue none = issue ∷ []
  as_new issue (some ds) = []

  -- The differences of an issue to the entry of its key.
  abbrev verdict_in : Dict AuditIssue → AuditIssue → Option (List FieldDiff)
  verdict_in entries issue = diffs_to host (lookup (key_for host issue) entries) issue

  push_shared_lem :
      (issue : AuditIssue) (diffs : List FieldDiff) (changed : List ChangedIssue)
      (unchanged : List AuditIssue)
      → push_shared issue (some diffs) (changed, unchanged)
        ≡ some
            (changed ++ as_changed issue (some diffs), unchanged ++ as_unchanged issue (some diffs))
  unfolding push_shared
  push_shared_lem issue [] changed unchanged =
      ap (λ c. some (c, unchanged ++ issue ∷ [])) (sym (append-nil changed))
  push_shared_lem issue (d ∷ ds) changed unchanged =
      ap (λ u. some (changed ++ record { issue = issue; diffs = d ∷ ds } ∷ [], u))
        (sym (append-nil unchanged))

  abbrev added : Dict AuditIssue → List AuditIssue → SharedIssues → SharedIssues
  added entries issues (changed, unchanged) = (
    changed ++ concat_map (λ i. as_changed i (verdict_in entries i)) issues,
    unchanged ++ concat_map (λ i. as_unchanged i (verdict_in entries i)) issues,
  )

  split_shared_lem :
      (entries : Dict AuditIssue) (issues : List AuditIssue) (changed : List ChangedIssue)
      (unchanged : List AuditIssue)
      → split_shared host entries (filter (has_key host entries) issues) (changed, unchanged)
        ≡ some (added entries issues (changed, unchanged))
  unfolding split_shared has_key diffs_to
  split_shared_lem entries [] changed unchanged = rw (append-nil changed, append-nil unchanged) refl
  split_shared_lem entries (issue ∷ issues) changed unchanged =
      elim (Option-cases (lookup (key_for host issue) entries)) [
        | inl e ↦ ground (arith, split_shared_lem entries issues changed unchanged)
        | inr (prev, e) ↦
            let ds = diff_issue host prev issue in
            let more = as_changed issue (some ds) in
            let same = as_unchanged issue (some ds) in
            ground (
              arith,
              push_shared_lem issue ds changed unchanged,
              split_shared_lem entries issues (changed ++ more) (unchanged ++ same),
              append_assoc changed more
                  (concat_map (λ i. as_changed i (verdict_in entries i)) issues),
              append_assoc unchanged same
                  (concat_map (λ i. as_unchanged i (verdict_in entries i)) issues),
            )
      ]

  filter-has_key :
      (entries : Dict AuditIssue) (issues : List AuditIssue)
      → filter (λ i. not (has_key host entries i)) issues
        ≡ concat_map (λ i. as_new i (verdict_in entries i)) issues
  unfolding has_key diffs_to
  filter-has_key entries [] = refl
  filter-has_key entries (issue ∷ issues) = ground (arith, filter-has_key entries issues)

  -- The differences of an issue to the last issue of an earlier result with its key: `none` where there
  -- is no such issue.
  abbrev pub verdict_of : AuditResult → AuditIssue → Option (List FieldDiff)
  verdict_of from issue = differences host (last_with (key_for host issue) from.issues) issue

  abbrev pub is_resolved : AuditResult → AuditIssue → Bool
  is_resolved to issue = not (is_some (last_with (key_for host issue) to.issues))

  abbrev pub expected_changed : AuditResult → AuditResult → List ChangedIssue
  expected_changed from to = concat_map (λ i. as_changed i (verdict_of from i)) to.issues

  abbrev pub expected : AuditResult → AuditResult → ComparisonResult
  expected from to = record {
    new_issues = concat_map (λ i. as_new i (verdict_of from i)) to.issues;
    resolved_issues = filter (is_resolved to) from.issues;
    changed_issues = expected_changed from to;
    unchanged_issues = concat_map (λ i. as_unchanged i (verdict_of from i)) to.issues;
    manager_changes =
        filter (λ c. has_diff DiffField.project_manager c.diffs) (expected_changed from to);
    effort_changes = filter (λ c. has_diff DiffField.effort c.diffs) (expected_changed from to);
    state_changes =
        filter (λ c. has_diff DiffField.project_state c.diffs) (expected_changed from to);
  }

  verdict_in_map : (from : AuditResult) → verdict_in (map_of host from.issues []) ≡ verdict_of from
  verdict_in_map from = fun_ext (λ i.
      ap (λ o. diffs_to host o i) (lookup-map_of (key_for host i) from.issues)
      ∙ diffs_to_lem host (last_with (key_for host i) from.issues) i)

  has_key_map :
      (to : AuditResult)
      → (λ (i : AuditIssue). not (has_key host (map_of host to.issues []) i)) ≡ is_resolved to
  unfolding has_key
  has_key_map to =
      fun_ext (λ i. ap (λ o. not (is_some o)) (lookup-map_of (key_for host i) to.issues))

  abbrev result_of :
      AuditResult
      → AuditResult
      → (AuditIssue → Option (List FieldDiff))
      → (AuditIssue → Bool)
      → Option ComparisonResult
  result_of from to verdict resolved =
      comparison_of (concat_map (λ i. as_new i (verdict i)) to.issues) (filter resolved from.issues)
        (some (
          concat_map (λ i. as_changed i (verdict i)) to.issues,
          concat_map (λ i. as_unchanged i (verdict i)) to.issues,
        ))

  compare_results-by_map :
      (from to : AuditResult)
      → compare_results host from to
        ≡ result_of from to
            (verdict_in (map_of host from.issues []))
            (λ i. not (has_key host (map_of host to.issues []) i))
  unfolding compare_results
  compare_results-by_map from to =
      let entries = map_of host from.issues [] in
      rw (split_shared_lem entries to.issues [] [], filter-has_key entries to.issues) refl

  compare_results-expected :
      (from to : AuditResult) → compare_results host from to ≡ some (expected from to)
  unfolding comparison_of
  compare_results-expected from to =
      compare_results-by_map from to
      ∙ ap (λ v. result_of from to v (λ i. not (has_key host (map_of host to.issues []) i)))
          (verdict_in_map from)
      ∙ ap (λ r. result_of from to (verdict_of from) r) (has_key_map to)

  counts :
      (verdict : AuditIssue → Option (List FieldDiff)) (issues : List AuditIssue)
      → length (concat_map (λ i. as_new i (verdict i)) issues)
          + (length (concat_map (λ i. as_changed i (verdict i)) issues)
              + length (concat_map (λ i. as_unchanged i (verdict i)) issues))
        ≡ length issues
  counts verdict [] = refl
  counts verdict (issue ∷ issues) = by_verdict (verdict issue) (counts verdict issues)
    where
      by_verdict :
          (v : Option (List FieldDiff))
          → length (concat_map (λ i. as_new i (verdict i)) issues)
              + (length (concat_map (λ i. as_changed i (verdict i)) issues)
                  + length (concat_map (λ i. as_unchanged i (verdict i)) issues))
            ≡ length issues
          → length (as_new issue v ++ concat_map (λ i. as_new i (verdict i)) issues)
              + (length (as_changed issue v ++ concat_map (λ i. as_changed i (verdict i)) issues)
                  + length
                      (as_unchanged issue v ++ concat_map (λ i. as_unchanged i (verdict i)) issues))
            ≡ suc (length issues)
      by_verdict none h = omega arith
      by_verdict (some []) h = omega arith
      by_verdict (some (d ∷ ds)) h = omega arith

  -- Comparing two results never fails, and it judges each issue of the later result by the last issue
  -- of the earlier result with the same key: the issue is new if there is none, unchanged if none of
  -- the nine compared fields differs as a text, and changed with exactly the fields that differ, in
  -- order and with both values, otherwise; texts are compared trimmed, a missing one as the empty text.
  -- Each list is in the order of the later result; an issue of the earlier result is resolved if the
  -- later one has none with its key. The new, the changed and the unchanged issues together are as many
  -- as the issues of the later result.
  pub compare_results_lem :
      (from to : AuditResult)
      → (compare_results host from to ≡ some (expected from to))
        × (length (expected from to).new_issues
              + (length (expected from to).changed_issues
                  + length (expected from to).unchanged_issues)
            ≡ length to.issues)
  compare_results_lem from to =
      (compare_results-expected from to, counts (verdict_of from) to.issues)
