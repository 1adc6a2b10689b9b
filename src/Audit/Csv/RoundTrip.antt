-- ===== src/Audit/Csv/RoundTrip.antt =====
-- Reading the exported text back.
use mathlib.Core.Path.{ap₂}
use Prim.Native.Char.{Char, code}
use Prim.Native.String
use Prim.Native.String.{[] as nil, ◌∷◌ as cons}
use package.text.Mathlib.TextLemmas.{append-nil, append_assoc, nil-append, cons-append}
use mathlib.Core.List.{append-nil as append-[], append_assoc as list_assoc}
use ses.Base.{
  ◌≡◌, refl, sym, ap, ◌∙◌, String, Option, none, some, List, [], ◌∷◌, ◌++◌, map, ◌==◌, drop,
  if◌then◌else◌, arith, get_or,
}
use ses.Js.{Host, Value, text, to_text}
use ses.Js.Words.{join}
use ses.Audit.Issue.{AuditIssue, IssueCategory}
use ses.Audit.Compare.{severity_text, category_text}
use ses.Audit.Csv.{
  double_quotes, escape, category_or_blank, csv_header, csv_cells, csv_row, build_issues_csv,
}

-- Where a reader of quoted values stands: before a value, in one, or behind a quote in one.
data Place : Type 0 where
  before inside behind : Place

-- A reader of comma-separated values in which every value is quoted (RFC 4180): the values of the row
-- so far and the rows so far are `row` and `rows`, the characters of the value so far are `cell`.
read_from : Place → String → List String → List (List String) → String → Option (List (List String))
read_from Place.before cell row rows String.[] = none
read_from Place.inside cell row rows String.[] = none
read_from Place.behind cell row rows String.[] = some (rows ++ (row ++ cell ∷ []) ∷ [])
read_from Place.before cell row rows (String.◌∷◌ c s) =
    let rest = read_from Place.inside "" row rows s in if code c == b'"' then rest else none
read_from Place.inside cell row rows (String.◌∷◌ c s) =
    let quoted = read_from Place.behind cell row rows s in
    let plain = read_from Place.inside (String.◌++◌ cell (String.◌∷◌ c String.[])) row rows s in
    if code c == b'"' then quoted else plain
read_from Place.behind cell row rows (String.◌∷◌ c s) =
    let doubled = read_from Place.inside (String.◌++◌ cell (String.◌∷◌ c String.[])) row rows s in
    let next_cell = read_from Place.before "" (row ++ cell ∷ []) rows s in
    let next_row = read_from Place.before "" [] (rows ++ (row ++ cell ∷ []) ∷ []) s in
    if code c == b'"'
    then doubled
    else if code c == b','
    then next_cell
    else if code c == b'\n'
    then next_row
    else none

pub read_csv : String → Option (List (List String))
unfolding read_from
read_csv s = read_from Place.before "" [] [] s

-- Inside a value the reader takes a doubled text back to the text.
read_from-double_quotes :
    (t cell : String) (row : List String) (rows : List (List String)) (s : String)
    → read_from Place.inside cell row rows (String.◌++◌ (double_quotes t) s)
      ≡ read_from Place.inside (String.◌++◌ cell t) row rows s
unfolding read_from double_quotes
read_from-double_quotes String.[] cell row rows s =
    ap (λ t. read_from Place.inside cell row rows t) (nil-append s)
    ∙ ap (λ c. read_from Place.inside c row rows s) (sym (append-nil cell))
read_from-double_quotes (String.◌∷◌ c t) cell row rows s =
    let more = String.◌++◌ cell (String.◌∷◌ c String.[]) in
    ground (
      arith,
      cons-append c (double_quotes t) s,
      cons-append c (String.◌∷◌ c (double_quotes t)) s,
      cons-append c t s,
      append_assoc cell (String.◌∷◌ c String.[]) t,
      cons-append c String.[] t,
      nil-append t,
      read_from-double_quotes t more row rows s,
    )

separated :
    (t : String) (c : Char) (u s : String)
    → String.◌++◌ (String.◌++◌ t (String.◌++◌ (String.◌∷◌ c String.[]) u)) s
      ≡ String.◌++◌ t (String.◌∷◌ c (String.◌++◌ u s))
separated t c u s =
    rw (append_assoc t _ s, cons-append c String.[] u, nil-append u, cons-append c u s) refl

module _ (host : Host) where
  escape-append :
      (v : Value) (s : String)
      → String.◌++◌ (escape host v) s
        ≡ String.◌∷◌ "\"" (String.◌++◌ (double_quotes (to_text host v)) (String.◌∷◌ "\"" s))
  unfolding escape
  escape-append v s =
      let t = double_quotes (to_text host v) in
      rw
        (
          cons-append "\"" "" (String.◌++◌ t "\""),
          nil-append (String.◌++◌ t "\""),
          cons-append "\"" (String.◌++◌ t "\"") s,
          append_assoc t "\"" s,
          cons-append "\"" "" s,
          nil-append s,
        )
        refl

  -- A value is read up to its closing quote.
  read_from-escape :
      (v : Value) (row : List String) (rows : List (List String)) (s : String)
      → read_from Place.before "" row rows (String.◌++◌ (escape host v) s)
        ≡ read_from Place.behind (to_text host v) row rows s
  unfolding read_from
  read_from-escape v row rows s =
      let t = to_text host v in
      ap (λ u. read_from Place.before "" row rows u) (escape-append v s)
      ∙ read_from-double_quotes t "" row rows (String.◌∷◌ "\"" s)
      ∙ ap (λ c. read_from Place.inside c row rows (String.◌∷◌ "\"" s)) (nil-append t)

  abbrev last_of : Value → List Value → Value
  last_of v [] = v
  last_of v (w ∷ vs) = last_of w vs

  abbrev all_but_last : Value → List Value → List Value
  all_but_last v [] = []
  all_but_last v (w ∷ vs) = v ∷ all_but_last w vs

  texts : List Value → List String
  texts = map (to_text host)

  texts-last :
      (v : Value) (vs : List Value)
      → texts (all_but_last v vs) ++ to_text host (last_of v vs) ∷ [] ≡ texts (v ∷ vs)
  unfolding texts
  texts-last v [] = refl
  texts-last v (w ∷ vs) = ap (λ ts. to_text host v ∷ ts) (texts-last w vs)

  read_from-row :
      (v : Value) (vs : List Value) (row : List String) (rows : List (List String)) (s : String)
      → read_from Place.before "" row rows (String.◌++◌ (csv_row host (v ∷ vs)) s)
        ≡ read_from Place.behind
            (to_text host (last_of v vs))
            (row ++ texts (all_but_last v vs))
            rows
            s
  unfolding csv_row texts join read_from
  read_from-row v [] row rows s =
      read_from-escape v row rows s
      ∙ ap (λ r. read_from Place.behind (to_text host v) r rows s) (sym (append-[] row))
  read_from-row v (w ∷ vs) row rows s =
      let t = to_text host v in
      let later = csv_row host (w ∷ vs) in
      ap (λ u. read_from Place.before "" row rows u) (separated (escape host v) "," later s)
      ∙ read_from-escape v row rows (String.◌∷◌ "," (String.◌++◌ later s))
      ∙ read_from-row w vs (row ++ t ∷ []) rows s
      ∙ ap (λ r. read_from Place.behind (to_text host (last_of w vs)) r rows s)
          (list_assoc row (t ∷ []) (texts (all_but_last w vs)))

  -- The rows behind the first one.
  read_from-rows :
      (v : Value) (vs : List Value) (issues : List AuditIssue) (rows : List (List String))
      → read_from Place.before "" [] rows
          (join "\n" (csv_row host (v ∷ vs) ∷ map (csv_row host) (map csv_cells issues)))
        ≡ some (rows ++ texts (v ∷ vs) ∷ map texts (map csv_cells issues))
  unfolding join read_from
  read_from-rows v vs [] rows =
      ap (λ u. read_from Place.before "" [] rows u) (sym (append-nil (csv_row host (v ∷ vs))))
      ∙ read_from-row v vs [] rows ""
      ∙ ap (λ r. some (rows ++ r ∷ [])) (texts-last v vs)
  read_from-rows v vs (issue ∷ issues) rows =
      let cells = csv_cells issue in
      let later = join "\n" (csv_row host cells ∷ map (csv_row host) (map csv_cells issues)) in
      let rest = texts cells ∷ map texts (map csv_cells issues) in
      ap (λ u. read_from Place.before "" [] rows (String.◌++◌ (csv_row host (v ∷ vs)) u))
        (cons-append "\n" String.[] later ∙ ap (λ u. String.◌∷◌ "\n" u) (nil-append later))
      ∙ read_from-row v vs [] rows (String.◌∷◌ "\n" later)
      ∙ ap (λ r. read_from Place.before "" [] (rows ++ r ∷ []) later) (texts-last v vs)
      ∙ read_from-rows _ _ issues (rows ++ texts (v ∷ vs) ∷ [])
      ∙ ap some (list_assoc rows (texts (v ∷ vs) ∷ []) rest)

  -- The eleven texts of a finding, with what stands for a field that is missing.
  abbrev pub row_texts : AuditIssue → List String
  row_texts issue =
      severity_text issue.severity
      ∷ issue.project_no
      ∷ issue.project_name
      ∷ issue.project_manager
      ∷ issue.sheet_name
      ∷ issue.project_state
      ∷ host.show_number issue.effort
      ∷ get_or issue.rule_name issue.audit_status
      ∷ elim issue.category [ none ↦ "" | some c ↦ category_text c ]
      ∷ get_or issue.reason issue.notes
      ∷ get_or issue.recommended_action ""
      ∷ []

  category_lem :
      (o : Option IssueCategory)
      → category_or_blank o ≡ elim o [ none ↦ "" | some c ↦ category_text c ]
  category_lem none = refl
  category_lem (some c) = refl

  texts-csv_cells : (issue : AuditIssue) → texts (csv_cells issue) ≡ row_texts issue
  unfolding texts
  texts-csv_cells issue = rw (category_lem issue.category) refl

  texts-issues :
      (issues : List AuditIssue) → map texts (map csv_cells issues) ≡ map row_texts issues
  texts-issues [] = refl
  texts-issues (issue ∷ issues) = ap₂ (λ t ts. t ∷ ts) (texts-csv_cells issue) (texts-issues issues)

  -- A reader of comma-separated values gets from the export, for any number of findings and whatever
  -- their texts hold, the header of eleven texts and then one row of eleven texts for each finding, in
  -- order: its severity, project number, project name, manager, sheet, state, effort, rule name (or
  -- audit status), category (or nothing), reason (or notes) and recommended action (or nothing), where
  -- what stands in brackets is given for a field that is missing.
  pub read_csv-build_issues_csv :
      (issues : List AuditIssue)
      → read_csv (build_issues_csv host issues)
        ≡ some (
            ("Severity" ∷ "Project No" ∷ "Project Name" ∷ "Manager" ∷ "Sheet" ∷ "State" ∷ "Effort"
              ∷ "Rule" ∷ "Category" ∷ "Reason" ∷ "Recommended Action" ∷ [])
            ∷ map row_texts issues)
  unfolding read_csv build_issues_csv texts
  read_csv-build_issues_csv issues =
      read_from-rows (text "Severity") (drop 1 csv_header) issues []
      ∙ ap (λ rows. some (map (to_text host) csv_header ∷ rows)) (texts-issues issues)
