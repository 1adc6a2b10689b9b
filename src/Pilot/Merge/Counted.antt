-- ===== src/Pilot/Merge/Counted.antt =====
-- What a merged result counts.

use text.Mathlib.TextLemmas.{append_cancel_left}
use ses.Base.{
  ℕ, ◌+◌, ◌≡◌, refl, ap, ◌∙◌, String, Bool, true, false, not, ◌&&◌, List, [], ◌∷◌, ◌++◌, map, any,
  length, sum_by, contains, str_eq, is_empty, ◌==◌, if◌then◌else◌, arith, eq_iff, All, Bool-cases,
  inl, inr,
}
use ses.Base.Dict.{Dict, insert}
use ses.Base.Sets.{add, contains-add, length-add}
use ses.Js.{Host, show_nat}
use ses.Audit.Issue.{AuditIssue, AuditResult, SheetAuditResult}
use ses.Pilot.Merge.{
  flag_key, collect_flagged, count_distinct_flagged_rows, engine_sheets_by_name, add_ai_sheets,
  recounted, merge_audit_results,
}

abbrev has_row : ℕ → List ℕ → Bool
has_row r rows = any (λ s. s == r) rows

-- The rows of a sheet that have a finding, besides those seen before, each counted once.
abbrev pub rows_flagged : String → List AuditIssue → List ℕ → ℕ
rows_flagged sheet_name [] seen = 0
rows_flagged sheet_name (issue ∷ issues) seen =
    let skipped = rows_flagged sheet_name issues seen in
    let counted = 1 + rows_flagged sheet_name issues (issue.row_index ∷ seen) in
    if str_eq issue.sheet_name sheet_name && not (has_row issue.row_index seen)
    then counted
    else skipped

same_row : (a b : ℕ) → (a == b) ≡ true → a ≡ b
same_row a b e = ground arith

module _ (host : Host) (shown : (a b : ℕ) → show_nat host a ≡ show_nat host b → a ≡ b) where
  flag_key-eq :
      (sheet_name : String) (a b : ℕ)
      → str_eq (flag_key host sheet_name a) (flag_key host sheet_name b) ≡ (a == b)
  unfolding flag_key
  flag_key-eq sheet_name a b = elim (Bool-cases (a == b)) [
    | inl e ↦ ground (
      arith,
      eq_iff (flag_key host sheet_name a) (flag_key host sheet_name b),
      ap (flag_key host sheet_name) (same_row a b e),
    )
    | inr e ↦ elim (Bool-cases (str_eq (flag_key host sheet_name a) (flag_key host sheet_name b))) [
      | inl e' ↦
          let row = shown a b (
            append_cancel_left "::" _ _ (
              append_cancel_left sheet_name _ _
                ((eq_iff (flag_key host sheet_name a) (flag_key host sheet_name b)).0 e'))) in
          ground (arith, row)
      | inr e' ↦ ground arith
    ]
  ]

  -- The keys are those of the rows seen.
  abbrev AreKeysOf : String → List String → List ℕ → Type 0
  AreKeysOf sheet_name keys seen =
      (r : ℕ) → contains keys (flag_key host sheet_name r) ≡ has_row r seen

  add-AreKeysOf :
      (sheet_name : String) (r : ℕ) (keys : List String) (seen : List ℕ)
      → AreKeysOf sheet_name keys seen
      → AreKeysOf sheet_name (add (flag_key host sheet_name r) keys) (r ∷ seen)
  add-AreKeysOf sheet_name r keys seen h t = ground (
    arith,
    contains-add (flag_key host sheet_name r) (flag_key host sheet_name t) keys,
    flag_key-eq sheet_name r t,
    h t,
  )

  seen-AreKeysOf :
      (sheet_name : String) (r : ℕ) (keys : List String) (seen : List ℕ)
      → has_row r seen ≡ true
      → AreKeysOf sheet_name keys (r ∷ seen)
      → AreKeysOf sheet_name keys seen
  seen-AreKeysOf sheet_name r keys seen e h t = elim (Bool-cases (r == t)) [
    | inl same ↦ ground (arith, h t, e, ap (λ x. has_row x seen) (same_row r t same))
    | inr other ↦ ground (arith, h t)
  ]

  length-collect_flagged :
      (sheet_name : String) (issues : List AuditIssue) (keys : List String) (seen : List ℕ)
      → is_empty sheet_name ≡ false
      → AreKeysOf sheet_name keys seen
      → length (collect_flagged host sheet_name issues keys)
        ≡ length keys + rows_flagged sheet_name issues seen
  unfolding collect_flagged
  length-collect_flagged sheet_name [] keys seen named h = omega arith
  length-collect_flagged sheet_name (issue ∷ issues) keys seen named h =
      let r = issue.row_index in
      let key = flag_key host sheet_name r in
      elim (Bool-cases (str_eq issue.sheet_name sheet_name)) [
        | inr other ↦ rw (named, other) (length-collect_flagged sheet_name issues keys seen named h)
        | inl same ↦
            let here = (eq_iff issue.sheet_name sheet_name).0 same in
            let added = add-AreKeysOf sheet_name r keys seen h in
            rw (named, same)
              (ap
                  (λ x.
                    length (collect_flagged host sheet_name issues (add (flag_key host x r) keys)))
                  here
                ∙ elim (Bool-cases (has_row r seen)) [
                  | inl old ↦ ground (
                    arith,
                    length-collect_flagged sheet_name issues (add key keys) seen named
                        (seen-AreKeysOf sheet_name r (add key keys) seen old added),
                    length-add key keys,
                    h r,
                  )
                  | inr fresh ↦ ground (
                    arith,
                    length-collect_flagged sheet_name issues (add key keys) (r ∷ seen) named added,
                    length-add key keys,
                    h r,
                  )
                ])
      ]

  count_distinct_flagged_rows_lem :
      (issues : List AuditIssue) (sheet_name : String)
      → is_empty sheet_name ≡ false
      → count_distinct_flagged_rows host issues sheet_name ≡ rows_flagged sheet_name issues []
  unfolding count_distinct_flagged_rows
  count_distinct_flagged_rows_lem issues sheet_name named =
      omega (arith, length-collect_flagged sheet_name issues [] [] named (λ r. refl))

  -- Every sheet of the dictionary has a name.
  abbrev IsNamed : SheetAuditResult → Type 0
  IsNamed sheet = is_empty sheet.sheet_name ≡ false

  insert-IsNamed :
      (key : String) (sheet : SheetAuditResult) (by_name : Dict SheetAuditResult)
      → IsNamed sheet
      → All (λ e. IsNamed e.1) by_name
      → All (λ e. IsNamed e.1) (insert key sheet by_name)
  unfolding insert
  insert-IsNamed key sheet [] n h = (n, tt)
  insert-IsNamed key sheet ((here, old) ∷ by_name) n h = elim (Bool-cases (str_eq here key)) [
    | inl e ↦ rw e (n, h.1)
    | inr e ↦ rw e (h.0, insert-IsNamed key sheet by_name n h.1)
  ]

  engine_sheets_by_name-IsNamed :
      (sheets : List SheetAuditResult) (by_name : Dict SheetAuditResult)
      → All IsNamed sheets
      → All (λ e. IsNamed e.1) by_name
      → All (λ e. IsNamed e.1) (engine_sheets_by_name sheets by_name)
  unfolding engine_sheets_by_name
  engine_sheets_by_name-IsNamed [] by_name n h = h
  engine_sheets_by_name-IsNamed (sheet ∷ sheets) by_name n h =
      engine_sheets_by_name-IsNamed sheets (insert sheet.sheet_name sheet by_name) n.1
        (insert-IsNamed sheet.sheet_name sheet by_name n.0 h)

  add_ai_sheets-IsNamed :
      (sheets : List SheetAuditResult) (by_name : Dict SheetAuditResult)
      → All IsNamed sheets
      → All (λ e. IsNamed e.1) by_name
      → All (λ e. IsNamed e.1) (add_ai_sheets sheets by_name)
  unfolding add_ai_sheets
  add_ai_sheets-IsNamed [] by_name n h = h
  add_ai_sheets-IsNamed (ai ∷ sheets) by_name n h =
      elim (Bool-cases (contains (map (λ e. e.0) by_name) ai.sheet_name)) [
        | inl e ↦ rw e (add_ai_sheets-IsNamed sheets by_name n.1 h)
        | inr e ↦
            rw e (add_ai_sheets-IsNamed sheets _ n.1 (insert-IsNamed ai.sheet_name _ by_name n.0 h))
      ]

  -- A sheet of the merged result counts each of its rows that has a finding once.
  abbrev pub IsCounted : List AuditIssue → SheetAuditResult → Type 0
  IsCounted issues sheet = sheet.flagged_count ≡ rows_flagged sheet.sheet_name issues []

  recounted-IsCounted :
      (issues : List AuditIssue) (by_name : Dict SheetAuditResult)
      → All (λ e. IsNamed e.1) by_name
      → All (IsCounted issues) (map (λ e. recounted host issues e.1) by_name)
  unfolding count_distinct_flagged_rows
  recounted-IsCounted issues [] h = tt
  recounted-IsCounted issues (e ∷ by_name) h = (
    count_distinct_flagged_rows_lem issues e.1.sheet_name h.0,
    recounted-IsCounted issues by_name h.1,
  )

  -- If different counters have different texts and every sheet has a name, the merged result has the
  -- findings of both results, and each of its sheets counts every row with a finding once, whether the
  -- engine, a proposed rule or both found it; the total adds the sheets up.
  pub merge_audit_results-IsCounted :
      (engine ai : AuditResult)
      → All IsNamed engine.sheets
      → All IsNamed ai.sheets
      → let merged = merge_audit_results host engine ai in
        (merged.issues ≡ engine.issues ++ ai.issues)
        × All (IsCounted merged.issues) merged.sheets
        × (merged.flagged_rows ≡ sum_by (λ s. s.flagged_count) merged.sheets)
  unfolding merge_audit_results
  merge_audit_results-IsCounted engine ai h k = (
    refl,
    recounted-IsCounted (engine.issues ++ ai.issues) _
        (add_ai_sheets-IsNamed ai.sheets _ k (engine_sheets_by_name-IsNamed engine.sheets [] h tt)),
    refl,
  )
