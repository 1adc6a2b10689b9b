-- ===== src/Engine/OverPlanning/Worst.antt =====
-- What a run of the over-planning engine reports: the rows in which some month exceeds the threshold,
-- each with its largest month.
use ses.Base.{
  ℕ, zero, suc, ◌≡◌, refl, sym, ◌∙◌, String, Bool, true, false, ◌||◌, ◌⊎◌, inl, inr, Option, none,
  some, List, [], ◌∷◌, get_or, if◌then◌else◌, any, arith, get_elem?, Bool-cases,
}
use ses.Js.{Host, Number, Value, gt}
use ses.Js.Order.{is_nan, gt_irrefl, gt_trans, gt_cotrans, gt_not_nan}
use ses.Workbook.{SheetInfo, WorkbookFile, EvaluatedRow}
use ses.Audit.Issue.{AuditIssue, AuditOptions}
use ses.Engine.Loop.{raw_rows}
use ses.Engine.Columns.{ColumnInfo}
use ses.Engine.ZeroCell.{raw_cell}
use ses.Engine.PdColumns.{detect_pd_columns}
use ses.Engine.OverPlanning.{parse_pd_raw, month_pd_high_rule, pd_issue, replaces, worst_of}

module _ (host : Host) (rows : List (List Value)) (row_index : ℕ) where
  abbrev pub pd_of : ColumnInfo → Option Number
  pd_of col = parse_pd_raw host (raw_cell rows row_index col.col_index)

  -- The column's PD in the row is a number above `limit`.
  abbrev pub exceeds : Number → ColumnInfo → Bool
  exceeds limit col = replaces (pd_of col) limit

  taken-any :
      (pd : Option Number) (worst limit : Number)
      → is_nan worst ≡ false
      → gt (if replaces pd worst then get_or pd worst else worst) limit
        ≡ gt worst limit || replaces pd limit
  taken-any none worst limit n = ground arith
  taken-any (some pd) worst limit n = elim (Bool-cases (gt pd worst)) [
    | inl e ↦ ground (arith, gt_trans pd worst limit e, Bool-cases (gt worst limit))
    | inr e ↦ ground (arith, gt_cotrans pd worst limit n e, Bool-cases (gt pd limit))
  ]

  taken-not_nan :
      (pd : Option Number) (worst : Number)
      → is_nan worst ≡ false
      → is_nan (if replaces pd worst then get_or pd worst else worst) ≡ false
  taken-not_nan none worst n = n
  taken-not_nan (some pd) worst n = ground (arith, gt_not_nan pd worst)

  -- The largest PD is above a limit exactly when some column's is.
  pub worst_of-any :
      (cols : List ColumnInfo) (worst : Number) (label : String) (limit : Number)
      → is_nan worst ≡ false
      → gt (worst_of host rows row_index cols worst label).0 limit
        ≡ gt worst limit || any (exceeds limit) cols
  unfolding worst_of
  worst_of-any [] worst label limit n = ground arith
  worst_of-any (col ∷ cols) worst label limit n = ground (
    arith,
    worst_of-any cols _ (if replaces (pd_of col) worst then col.label else label) limit
        (taken-not_nan (pd_of col) worst n),
    taken-any (pd_of col) worst limit n,
  )

  -- Some column has that PD and that label.
  abbrev pub IsAttained : List ColumnInfo → Number × String → Type 0
  IsAttained cols (pd, label) =
      (i : ℕ) × (col : ColumnInfo) × (get_elem? cols i ≡ some col)
      × (pd_of col ≡ some pd)
      × (col.label ≡ label)

  IsAttained-later :
      (col : ColumnInfo) (cols : List ColumnInfo) (found : Number × String)
      → IsAttained cols found
      → IsAttained (col ∷ cols) found
  IsAttained-later col cols found (i, c, at, pd, label) = (suc i, c, at, pd, label)

  -- The result of the loop from a given start is that start, or attained.
  abbrev StartOrAttained : List ColumnInfo → Number → String → Type 0
  StartOrAttained cols worst label =
      (worst_of host rows row_index cols worst label ≡ (worst, label))
      ⊎ IsAttained cols (worst_of host rows row_index cols worst label)

  worst_of-keep :
      (col : ColumnInfo) (cols : List ColumnInfo) (worst : Number) (label : String)
      → replaces (pd_of col) worst ≡ false
      → worst_of host rows row_index (col ∷ cols) worst label
        ≡ worst_of host rows row_index cols worst label
  unfolding worst_of
  worst_of-keep col cols worst label e = rw e refl

  worst_of-take :
      (col : ColumnInfo) (cols : List ColumnInfo) (worst : Number) (label : String) (pd : Number)
      → pd_of col ≡ some pd
      → gt pd worst ≡ true
      → worst_of host rows row_index (col ∷ cols) worst label
        ≡ worst_of host rows row_index cols pd col.label
  unfolding worst_of
  worst_of-take col cols worst label pd e g = rw (e, g) refl

  StartOrAttained-step :
      (col : ColumnInfo) (cols : List ColumnInfo) (worst : Number) (label : String)
      → StartOrAttained cols worst label
      → ((pd : Number) → StartOrAttained cols pd col.label)
      → StartOrAttained (col ∷ cols) worst label
  StartOrAttained-step col cols worst label before after = step (pd_of col) refl
    where
      kept : replaces (pd_of col) worst ≡ false → StartOrAttained (col ∷ cols) worst label
      kept e =
          rw (worst_of-keep col cols worst label e)
            (elim before [ inl h ↦ inl h | inr h ↦ inr (IsAttained-later col cols _ h) ])

      step : (pd : Option Number) → pd_of col ≡ pd → StartOrAttained (col ∷ cols) worst label
      step none e = kept (rw e refl)
      step (some pd) e = elim (Bool-cases (gt pd worst)) [
        | inr g ↦ kept (rw (e, g) refl)
        | inl g ↦ rw (worst_of-take col cols worst label pd e g) (
            inr (elim (after pd) [
              | inl h ↦ rw h (zero, col, refl, e, refl)
              | inr h ↦ IsAttained-later col cols _ h
            ]))
      ]

  worst_of-attained :
      (cols : List ColumnInfo) (worst : Number) (label : String) → StartOrAttained cols worst label
  unfolding worst_of
  worst_of-attained [] worst label = inl refl
  worst_of-attained (col ∷ cols) worst label =
      StartOrAttained-step col cols worst label (worst_of-attained cols worst label)
        (λ pd. worst_of-attained cols pd col.label)

  -- From the start of the loop, the PD that a row's columns give is one that no column exceeds, and it
  -- is the PD of a column with the label found, unless the loop's start is left as it was.
  pub worst_of_lem :
      (cols : List ColumnInfo)
      → (any (exceeds (worst_of host rows row_index cols Number.neg_infinity "").0) cols ≡ false)
        × ((worst_of host rows row_index cols Number.neg_infinity "" ≡ (Number.neg_infinity, ""))
            ⊎ IsAttained cols (worst_of host rows row_index cols Number.neg_infinity ""))
  worst_of_lem cols =
      let found = worst_of host rows row_index cols Number.neg_infinity "" in
      (
        sym (worst_of-any cols Number.neg_infinity "" found.0 refl) ∙ gt_irrefl found.0,
        worst_of-attained cols Number.neg_infinity "",
      )

module _ (host : Host) (file : WorkbookFile) (options : AuditOptions) where
  abbrev worst_in : List (List Value) → List ColumnInfo → EvaluatedRow → Number × String
  worst_in rows cols r = worst_of host rows r.row_index cols Number.neg_infinity ""

  abbrev finding_of :
      Number → List (List Value) → List ColumnInfo → SheetInfo → EvaluatedRow → Option AuditIssue
  finding_of limit rows cols sheet r =
      let found = worst_in rows cols r in
      if any (exceeds host rows r.row_index limit) cols
      then some (pd_issue host file limit options month_pd_high_rule sheet.name r found.0 found.1)
      else none

  -- The finding of a row: one, exactly when some PD column of the sheet has a number above the
  -- threshold in it, with the largest of those numbers and its column's label.
  abbrev pub pd_finding : Number → SheetInfo → EvaluatedRow → Option AuditIssue
  pd_finding limit sheet r =
      let rows = raw_rows file sheet in finding_of limit rows (detect_pd_columns host rows) sheet r
