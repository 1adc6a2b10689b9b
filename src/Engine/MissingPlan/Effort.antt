-- ===== src/Engine/MissingPlan/Effort.antt =====
-- What a run of the missing-plan engine reports.
use ses.Base.{
  ◌≡◌, ◌∙◌, refl, ap, String, Bool, true, false, not, ◌||◌, Option, none, some, List, ◌&&◌,
  if◌then◌else◌, Bool-cases, inl, inr, is_empty,
}
use ses.Js.{Host, Number, Value, undefined, null, number, text, other, boolean, is_finite, is_zero}
use ses.Workbook.Rows.{read_cell, cell_text}
use ses.Workbook.{SheetInfo, WorkbookFile, EvaluatedRow}
use ses.Audit.Issue.{AuditIssue, AuditOptions}
use ses.Audit.Policy.{AuditPolicy}
use ses.Engine.Build.{find_rule}
use ses.Engine.Loop.Runs.{IsReport, pushes, run_engine-IsReport}
use ses.Engine.MissingPlan.{
  effort_of, read_effort_value, mp_effort_aliases, mp_effort_zero_rule_code,
  mp_effort_missing_rule_code, effort_zero_rule, effort_missing_rule, effort_issue, push_issue,
  audit_effort, audit_row, zero_effort_on, missing_effort_on, run_missing_plan,
}

module _ (host : Host) (file : WorkbookFile) (options : AuditOptions) where
  abbrev pub absent_issue : SheetInfo → EvaluatedRow → AuditIssue
  absent_issue sheet r =
      effort_issue host file options effort_missing_rule sheet.name r none
        mp_effort_missing_rule_code
        "Effort (H) is absent — no planned effort recorded for this project." "missing"

  abbrev pub zero_issue : SheetInfo → EvaluatedRow → Number → AuditIssue
  zero_issue sheet r n =
      effort_issue host file options effort_zero_rule sheet.name r (some n) mp_effort_zero_rule_code
        "Effort (H) is 0 — no planned effort recorded for this project." "= 0"

  abbrev finding_of : Bool → Bool → SheetInfo → EvaluatedRow → Option Number → Option AuditIssue
  finding_of zero_on missing_on sheet r none =
      if missing_on then some (absent_issue sheet r) else none
  finding_of zero_on missing_on sheet r (some n) =
      if is_zero n && zero_on then some (zero_issue sheet r n) else none

  -- The number that a cell holds: the number of a number cell, and of any other cell what its trimmed
  -- text reads as.
  abbrev pub number_in : Value → Number
  number_in (number n) = n
  number_in v = host.parse_number (cell_text host v)

  -- A cell without an effort: there is none, or it is blank, or what it holds is no finite number.
  abbrev pub lacks_effort : Value → Bool
  lacks_effort undefined = true
  lacks_effort null = true
  lacks_effort (number n) = not (is_finite n)
  lacks_effort v = is_empty (cell_text host v) || not (is_finite (number_in v))

  -- Only a policy turns a check off.
  abbrev pub missing_wanted : Option AuditPolicy → Bool
  missing_wanted none = true
  missing_wanted (some p) = p.missing_effort_enabled

  abbrev pub zero_wanted : Option AuditPolicy → Bool
  zero_wanted none = true
  zero_wanted (some p) = p.zero_effort_enabled

  -- The finding of a row under a policy, from the cell of its effort.
  abbrev pub finding_from :
      Option AuditPolicy → SheetInfo → EvaluatedRow → Value → Option AuditIssue
  finding_from policy sheet r v =
      if lacks_effort v
      then if missing_wanted policy then some (absent_issue sheet r) else none
      else if is_zero (number_in v)
      then if zero_wanted policy then some (zero_issue sheet r (number_in v)) else none
      else none

  abbrev pub effort_finding : Option AuditPolicy → SheetInfo → EvaluatedRow → Option AuditIssue
  effort_finding policy sheet r = finding_from policy sheet r (read_cell r.row mp_effort_aliases)

  finding_of-by :
      (policy : Option AuditPolicy) (sheet : SheetInfo) (r : EvaluatedRow) (lacks : Bool)
      (n : Number) (o : Option Number)
      → o ≡ (if lacks then none else some n)
      → finding_of (zero_effort_on policy) (missing_effort_on policy) sheet r o ≡ (
          if lacks
          then if missing_wanted policy then some (absent_issue sheet r) else none
          else if is_zero n
          then if zero_wanted policy then some (zero_issue sheet r n) else none
          else none)
  finding_of-by none sheet r true n o e = rw e refl
  finding_of-by (some p) sheet r true n o e = rw e refl
  finding_of-by none sheet r false n o e =
      rw e (elim (Bool-cases (is_zero n)) [ inl z ↦ rw z refl | inr z ↦ rw z refl ])
  finding_of-by (some p) sheet r false n o e =
      rw e (elim (Bool-cases (is_zero n)) [ inl z ↦ rw z refl | inr z ↦ rw z refl ])

  parsed :
      (t : String)
      → (if is_empty t
          then none
          else if is_finite (host.parse_number t)
          then some (host.parse_number t)
          else none)
        ≡ (if is_empty t || not (is_finite (host.parse_number t))
            then none
            else some (host.parse_number t))
  parsed t = by_tests (is_empty t) (is_finite (host.parse_number t))
    where
      by_tests :
          (b f : Bool)
          → (if b then none else if f then some (host.parse_number t) else none)
            ≡ (if b || not f then none else some (host.parse_number t))
      by_tests true f = refl
      by_tests false true = refl
      by_tests false false = refl

  effort_of_lem :
      (v : Value) → effort_of host v ≡ (if lacks_effort v then none else some (number_in v))
  effort_of_lem undefined = refl
  effort_of_lem null = refl
  effort_of_lem (number n) = elim (Bool-cases (is_finite n)) [
    | inl e ↦ rw e refl
    | inr e ↦ rw e refl
  ]
  effort_of_lem (text s) = parsed (cell_text host (text s))
  effort_of_lem (other s) = parsed (cell_text host (other s))
  effort_of_lem (boolean b) = parsed (cell_text host (boolean b))

  effort_finding_lem :
      (policy : Option AuditPolicy) (sheet : SheetInfo) (r : EvaluatedRow)
      → finding_of
          (zero_effort_on policy)
          (missing_effort_on policy)
          sheet
          r
          (read_effort_value host r.row mp_effort_aliases)
        ≡ effort_finding policy sheet r
  unfolding read_effort_value
  effort_finding_lem policy sheet r =
      let v = read_cell r.row mp_effort_aliases in
      finding_of-by policy sheet r (lacks_effort v) (number_in v) (effort_of host v)
        (effort_of_lem v)

  audit_effort_lem :
      (zero_on missing_on : Bool) (sheet : SheetInfo) (effort : Option Number) (r : EvaluatedRow)
      (issues : List AuditIssue)
      → audit_effort host file options zero_on missing_on sheet effort r issues
        ≡ pushes (finding_of zero_on missing_on sheet r effort) issues
  unfolding audit_effort push_issue find_rule
  audit_effort_lem zero_on true sheet none r issues = refl
  audit_effort_lem zero_on false sheet none r issues = refl
  audit_effort_lem zero_on missing_on sheet (some n) r issues =
      elim (Bool-cases (is_zero n && zero_on)) [ inl e ↦ rw e refl | inr e ↦ rw e refl ]

  -- A run of the missing-plan engine under a policy reports, over the rows of the valid and selected
  -- sheets in order, one finding for each row whose effort cell is absent, blank or no finite number,
  -- if the policy does not turn that check off, one for each row whose cell holds zero, if it does not
  -- turn that one off, and no other; without a policy both checks are on. Each sheet's result and the
  -- totals count the rows and the findings, and no more rows are flagged than scanned.
  pub run_missing_plan-IsReport :
      (policy : Option AuditPolicy)
      → IsReport host file (effort_finding policy) (run_missing_plan host file policy options)
  unfolding run_missing_plan audit_row
  run_missing_plan-IsReport policy =
      run_engine-IsReport host file _ (effort_finding policy) (λ sheet r issues.
        audit_effort_lem (zero_effort_on policy) (missing_effort_on policy) sheet
          (read_effort_value host r.row mp_effort_aliases) r issues
        ∙ ap (λ found. pushes found issues) (effort_finding_lem policy sheet r))
