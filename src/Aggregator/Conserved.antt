-- ===== src/Aggregator/Conserved.antt =====
-- No finding is lost or counted twice.
use ses.Base.{
  ℕ, ◌+◌, ◌≡◌, refl, sym, ap, ◌∙◌, String, Bool, false, ◌||◌, Option, none, some, List, [], ◌∷◌,
  map, filter, length, sum_by, contains, str_eq, get_or, is_some, if◌then◌else◌, arith, eq_iff,
  Bool-cases, inl, inr,
}
use ses.Base.Dict.{Dict, lookup, insert, lookup-insert}
use ses.Js.{Host}
use ses.Project.Functions.{FunctionId, function_name, function_ids}
use ses.Aggregator.{
  AggregatorIssueRow, AggregatorTrackingRow, AggBucket, ManagerRow, empty_bucket, count_at,
  issue_manager, issue_manager_key, counted_bucket, group_issues, add_idle, manager_row,
  manager_rows, insert_row, sort_rows, issue_count, is_open_row, aggregate_escalations,
  tracking_by_key, tracking_by_name, consumed_ids, summarize, EscalationsPayload,
}

one_if : Bool → ℕ
one_if b = if b then 1 else 0

sum_split {ℓ} :
    {A : Type ℓ} (f g : A → ℕ) (xs : List A)
    → sum_by (λ x. f x + g x) xs ≡ sum_by f xs + sum_by g xs
sum_split f g [] = refl
sum_split f g (x ∷ xs) = omega (arith, sum_split f g xs)

sum_ext {ℓ} :
    {A : Type ℓ} (f g : A → ℕ) → ((x : A) → f x ≡ g x) → (xs : List A) → sum_by f xs ≡ sum_by g xs
sum_ext f g h [] = refl
sum_ext f g h (x ∷ xs) = omega (arith, h x, sum_ext f g h xs)

-- A number read from the buckets, which an insertion changes by the bucket that it puts and the one that
-- it replaces.
module _ (f : AggBucket → ℕ) where
  total : Dict AggBucket → ℕ
  total d = sum_by (λ e. f e.1) d

  before : Option AggBucket → ℕ
  before none = 0
  before (some b) = f b

  total-insert :
      (key : String) (b : AggBucket) (d : Dict AggBucket)
      → total (insert key b d) + before (lookup key d) ≡ total d + f b
  unfolding total insert lookup before
  total-insert key b [] = omega arith
  total-insert key b ((here, old) ∷ d) = elim (Bool-cases (str_eq here key)) [
    | inl e ↦ rw e (omega arith)
    | inr e ↦ rw e (omega (arith, total-insert key b d))
  ]

  before-get_or :
      (found : Option AggBucket) (name : String)
      → f (empty_bucket name) ≡ 0
      → before found ≡ f (get_or found (empty_bucket name))
  unfolding before
  before-get_or none name e = sym e
  before-get_or (some b) name e = refl

  module _ (host : Host) (w : AggregatorIssueRow → ℕ)
      (of_empty : (name : String) → f (empty_bucket name) ≡ 0)
      (of_counted : (row : AggregatorIssueRow) (b : AggBucket)
        → f (counted_bucket host row b) ≡ f b + w row) where
    total-group_issues :
        (issues : List AggregatorIssueRow) (d : Dict AggBucket)
        → total (group_issues host issues d) ≡ total d + sum_by w issues
    unfolding group_issues
    total-group_issues [] d = omega arith
    total-group_issues (row ∷ issues) d =
        let key = issue_manager_key host row in
        let cur = get_or (lookup key d) (empty_bucket (issue_manager host row)) in
        omega (
          arith,
          total-group_issues issues (insert key (counted_bucket host row cur) d),
          total-insert key (counted_bucket host row cur) d,
          before-get_or (lookup key d) (issue_manager host row) (of_empty (issue_manager host row)),
          of_counted row cur,
        )

    before-missing : (found : Option AggBucket) → is_some found ≡ false → before found ≡ 0
    unfolding before
    before-missing none e = refl
    before-missing (some b) e = absurd (cc e)

    total-add_idle :
        (consumed : List String) (tracking : List AggregatorTrackingRow) (d : Dict AggBucket)
        → total (add_idle host consumed tracking d) ≡ total d
    unfolding add_idle
    total-add_idle consumed [] d = refl
    total-add_idle consumed (t ∷ tracking) d =
        elim (Bool-cases (is_some (lookup t.manager_key d) || contains consumed t.id)) [
          | inl e ↦ rw e (total-add_idle consumed tracking d)
          | inr e ↦
              let b = empty_bucket t.manager_name in
              rw e (
                omega (
                  arith,
                  total-add_idle consumed tracking (insert t.manager_key b d),
                  total-insert t.manager_key b d,
                  before-missing (lookup t.manager_key d) (ground arith),
                  of_empty t.manager_name,
                ))
        ]

  total-manager_rows :
      (host : Host) (g : ManagerRow → ℕ) (issues : List AggregatorIssueRow)
      (by_key by_name : Dict AggregatorTrackingRow)
      → ((tr : Option AggregatorTrackingRow) (key : String) (b : AggBucket)
          → g (manager_row host issues tr key b) ≡ f b)
      → (d : Dict AggBucket) → sum_by g (manager_rows host issues by_key by_name d) ≡ total d
  unfolding manager_rows total
  total-manager_rows host g issues by_key by_name h [] = refl
  total-manager_rows host g issues by_key by_name h ((key, b) ∷ d) =
      omega (arith, h _ key b, total-manager_rows host g issues by_key by_name h d)

sum-insert_row :
    (g : ManagerRow → ℕ) (after : String → String → Bool) (row : ManagerRow)
    (rows : List ManagerRow)
    → sum_by g (insert_row after row rows) ≡ g row + sum_by g rows
unfolding insert_row
sum-insert_row g after row [] = refl
sum-insert_row g after row (other ∷ rows) =
    elim (Bool-cases (after row.manager_name other.manager_name)) [
      | inl e ↦ rw e (omega (arith, sum-insert_row g after row rows))
      | inr e ↦ rw e refl
    ]

sum-sort_rows :
    (g : ManagerRow → ℕ) (after : String → String → Bool) (rows : List ManagerRow)
    → sum_by g (sort_rows after rows) ≡ sum_by g rows
unfolding sort_rows
sum-sort_rows g after [] = refl
sum-sort_rows g after (row ∷ rows) =
    omega (arith, sum-insert_row g after row (sort_rows after rows), sum-sort_rows g after rows)

count_at-insert :
    (e id : FunctionId) (counts : Dict ℕ)
    → count_at (insert (function_name e) (count_at counts e + 1) counts) id
      ≡ count_at counts id + one_if (str_eq (function_name e) (function_name id))
unfolding one_if
count_at-insert e id counts = elim (Bool-cases (str_eq (function_name e) (function_name id))) [
  | inl same ↦ ground (
    arith,
    lookup-insert (function_name e) (function_name id) (count_at counts e + 1) counts,
    ap (λ n. get_or (lookup n counts) 0) ((eq_iff (function_name e) (function_name id)).0 same),
  )
  | inr other ↦
      ground
        (arith, lookup-insert (function_name e) (function_name id) (count_at counts e + 1) counts)
]

one_function :
    (e : FunctionId)
    → sum_by (λ id. one_if (str_eq (function_name e) (function_name id))) function_ids ≡ 1
unfolding one_if
one_function FunctionId.master_data = refl
one_function FunctionId.over_planning = refl
one_function FunctionId.missing_plan = refl
one_function FunctionId.function_rate = refl
one_function FunctionId.internal_cost_rate = refl
one_function FunctionId.opportunities = refl

abbrev bucket_total : AggBucket → ℕ
bucket_total b = sum_by (count_at b.counts_by_engine) function_ids

bucket_total-insert :
    (e : FunctionId) (counts : Dict ℕ)
    → sum_by (count_at (insert (function_name e) (count_at counts e + 1) counts)) function_ids
      ≡ sum_by (count_at counts) function_ids + 1
bucket_total-insert e counts =
    sum_ext _ _ (λ id. count_at-insert e id counts) function_ids
    ∙ sum_split (count_at counts) (λ id. one_if (str_eq (function_name e) (function_name id)))
        function_ids
    ∙ ap (λ n. sum_by (count_at counts) function_ids + n) (one_function e)

-- The findings of an engine.
abbrev pub engine_issues : List AggregatorIssueRow → FunctionId → ℕ
engine_issues issues id =
    length (filter (λ row. str_eq (function_name row.engine_id) (function_name id)) issues)

sum-one_if :
    (id : FunctionId) (issues : List AggregatorIssueRow)
    → sum_by (λ row. one_if (str_eq (function_name row.engine_id) (function_name id))) issues
      ≡ engine_issues issues id
unfolding one_if
sum-one_if id [] = refl
sum-one_if id (row ∷ issues) = ground (arith, sum-one_if id issues)

sum-ones : (issues : List AggregatorIssueRow) → sum_by (λ row. 1) issues ≡ length issues
sum-ones [] = refl
sum-ones (row ∷ issues) = omega (arith, sum-ones issues)

-- Rows with findings are open or resolved.
split_open :
    (rows : List ManagerRow)
    → sum_by (λ r. r.total_issues) (filter is_open_row rows)
        + sum_by (λ r. r.total_issues) (filter (λ r. r.is_resolved) rows)
      ≡ sum_by (λ r. r.total_issues) rows
split_open [] = refl
split_open (r ∷ rows) = ground (arith, split_open rows)

module _ (host : Host) (after : String → String → Bool) (process_id : String)
    (issues : List AggregatorIssueRow) (tracking : List AggregatorTrackingRow) (now : ℕ) where
  abbrev pub payload : EscalationsPayload
  payload = aggregate_escalations host after process_id issues tracking now

  sum-rows :
      (f : AggBucket → ℕ) (g : ManagerRow → ℕ) (w : AggregatorIssueRow → ℕ)
      → ((name : String) → f (empty_bucket name) ≡ 0)
      → ((row : AggregatorIssueRow) (b : AggBucket) → f (counted_bucket host row b) ≡ f b + w row)
      → ((tr : Option AggregatorTrackingRow) (key : String) (b : AggBucket)
          → g (manager_row host issues tr key b) ≡ f b)
      → sum_by g payload.rows ≡ sum_by w issues
  unfolding aggregate_escalations total
  sum-rows f g w of_empty of_counted of_row =
      let by_name = tracking_by_name host tracking [] in
      let found = group_issues host issues [] in
      let consumed = consumed_ids host by_name found [] in
      let by_key = tracking_by_key host tracking [] in
      sum-sort_rows g after _
      ∙ total-manager_rows f host g issues by_key by_name of_row
          (add_idle host consumed tracking found)
      ∙ total-add_idle f host w of_empty of_counted consumed tracking found
      ∙ total-group_issues f host w of_empty of_counted issues []
      ∙ omega arith

  engine_total : (id : FunctionId) → issue_count payload.rows id ≡ engine_issues issues id
  unfolding manager_row lookup
  engine_total id =
      sum-rows (λ b. count_at b.counts_by_engine id) (λ r. count_at r.counts_by_engine id)
        (λ row. one_if (str_eq (function_name row.engine_id) (function_name id))) (λ name. refl)
        (λ row b. count_at-insert row.engine_id id b.counts_by_engine) (λ tr key b. refl)
      ∙ sum-one_if id issues

  all_total : sum_by (λ r. r.total_issues) payload.rows ≡ length issues
  unfolding manager_row lookup
  all_total =
      sum-rows bucket_total (λ r. r.total_issues) (λ row. 1) (λ name. refl)
        (λ row b. bucket_total-insert row.engine_id b.counts_by_engine) (λ tr key b. refl)
      ∙ sum-ones issues

  map_ext {ℓ} :
      {A : Type ℓ} (f g : FunctionId → A)
      → ((id : FunctionId) → f id ≡ g id)
      → (ids : List FunctionId) → map f ids ≡ map g ids
  map_ext f g h [] = refl
  map_ext f g h (id ∷ ids) = rw (h id, map_ext f g h ids) refl

  -- No finding is lost or counted twice: the summary counts for each engine the findings of that engine,
  -- and the open findings and those of the managers who are resolved are all findings together, whatever
  -- the tracking entries and the order of names.
  pub aggregate_escalations-conserved :
      (payload.summary.per_engine_issue_counts
        ≡ map (λ id. (id, engine_issues issues id)) function_ids)
      × (payload.summary.total_open_findings
            + sum_by (λ r. r.total_issues) (filter (λ r. r.is_resolved) payload.rows)
          ≡ length issues)
  unfolding aggregate_escalations summarize
  aggregate_escalations-conserved = (
    map_ext _ _ (λ id. ap (λ n. (id, n)) (engine_total id)) function_ids,
    split_open payload.rows ∙ all_total,
  )
