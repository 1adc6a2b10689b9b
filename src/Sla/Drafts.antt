-- ===== src/Sla/Drafts.antt =====
-- The drafts that the engine queues for an entry.
use mathlib.Core.Path.{subst}
use ses.Base.{
  ℕ, ◌+◌, ◌≡◌, ◌≤◌, refl, sym, ap, ◌∙◌, zero, suc, String, Bool, true, false, ◌&&◌, ◌||◌, Option,
  none, some, List, [], ◌∷◌, ◌++◌, filter, any, length, str_eq, ltb, if◌then◌else◌, arith,
  Bool-cases, inl, inr, eq_iff,
}
use ses.Js.{Host}
use ses.Sla.{
  SlaHost, SlaStore, SlaEntry, SlaEvent, Draft, draft_name, find_many, is_queued_for,
  already_queued, queue_draft, is_waiting, handle_draft, handle_found, handle_entry, handle_all,
  enforce, is_due, order_by_due, find_sla_entry, stage_to_queue,
}

-- The event is a draft of the given level for the given entry.
abbrev pub is_draft : String → Draft → SlaEvent → Bool
is_draft id draft event = is_queued_for id event && str_eq event.payload_stage (draft_name draft)

abbrev pub count_drafts : String → Draft → List SlaEvent → ℕ
count_drafts id draft events = length (filter (is_draft id draft) events)

-- At most one draft of each level is queued for the entry, and nothing else of that kind.
pub record IsOnce (id : String) (events : List SlaEvent) : Type 0 where
  pub total :
      length (filter (is_queued_for id) events)
      ≡ count_drafts id Draft.l1 events + count_drafts id Draft.l2 events
  pub first : count_drafts id Draft.l1 events ≤ 1
  pub second : count_drafts id Draft.l2 events ≤ 1

filter-none {ℓ} :
    {A : Type ℓ} (p : A → Bool) (xs : List A) → length (filter p xs) ≤ 0 → filter p xs ≡ []
filter-none p [] h = refl
filter-none p (x ∷ xs) h = ground (arith, filter-none p xs)

-- A limit that is large enough takes all rows.
find_many-filter {ℓ} :
    {A : Type ℓ} (p : A → Bool) (n : ℕ) (xs : List A)
    → length (filter p xs) ≤ n
    → find_many p n xs ≡ filter p xs
unfolding find_many
find_many-filter p zero xs h = sym (filter-none p xs h)
find_many-filter p (suc n) [] h = refl
find_many-filter p (suc n) (x ∷ xs) h = elim (Bool-cases (p x)) [
  | inl e ↦ ground (arith, find_many-filter p n xs)
  | inr e ↦ ground (arith, find_many-filter p (suc n) xs)
]

any-filter {ℓ} :
    {A : Type ℓ} (p q : A → Bool) (xs : List A)
    → any q (filter p xs) ≡ ltb 0 (length (filter (λ x. p x && q x) xs))
any-filter p q [] = refl
any-filter p q (x ∷ xs) = ground (arith, any-filter p q xs)

-- While the entry has at most one draft of each level, the limit of twenty rows loses none.
already_queued_lem :
    (id : String) (draft : Draft) (events : List SlaEvent)
    → IsOnce id events
    → already_queued id draft events ≡ ltb 0 (count_drafts id draft events)
unfolding already_queued
already_queued_lem id draft events h =
    ap (λ es. any (λ e. str_eq e.payload_stage (draft_name draft)) es)
      (find_many-filter (is_queued_for id) 20 events (omega (arith, h.total, h.first, h.second)))
    ∙ any-filter (is_queued_for id) _ events

count-append {ℓ} :
    {A : Type ℓ} (p : A → Bool) (xs : List A) (x : A)
    → length (filter p (xs ++ x ∷ [])) ≡ length (filter p xs) + (if p x then 1 else 0)
count-append p [] x = ground arith
count-append p (y ∷ xs) x = ground (arith, count-append p xs x)

-- The counts after a draft is appended: nothing of the kind for another entry, one more for this one.
appended-other :
    (id : String) (event : SlaEvent) (events : List SlaEvent)
    → is_queued_for id event ≡ false
    → IsOnce id events
    → IsOnce id (events ++ event ∷ [])
appended-other id event events other h =
    let q = count-append (is_queued_for id) events event in
    let a = count-append (is_draft id Draft.l1) events event in
    let b = count-append (is_draft id Draft.l2) events event in
    record {
      total = ground (arith, q, a, b, other, h.total);
      first = ground (arith, a, other, h.first);
      second = ground (arith, b, other, h.second);
    }

appended-first :
    (id : String) (event : SlaEvent) (events : List SlaEvent)
    → is_queued_for id event ≡ true
    → str_eq event.payload_stage "L1" ≡ true
    → str_eq event.payload_stage "L2" ≡ false
    → count_drafts id Draft.l1 events ≡ 0
    → IsOnce id events
    → IsOnce id (events ++ event ∷ [])
appended-first id event events own is_l1 not_l2 zero_before h =
    let q = count-append (is_queued_for id) events event in
    let a = count-append (is_draft id Draft.l1) events event in
    let b = count-append (is_draft id Draft.l2) events event in
    record {
      total = ground (arith, q, a, b, own, is_l1, not_l2, h.total);
      first = ground (arith, a, own, is_l1, zero_before);
      second = ground (arith, b, own, not_l2, h.second);
    }

appended-second :
    (id : String) (event : SlaEvent) (events : List SlaEvent)
    → is_queued_for id event ≡ true
    → str_eq event.payload_stage "L1" ≡ false
    → str_eq event.payload_stage "L2" ≡ true
    → count_drafts id Draft.l2 events ≡ 0
    → IsOnce id events
    → IsOnce id (events ++ event ∷ [])
appended-second id event events own not_l1 is_l2 zero_before h =
    let q = count-append (is_queued_for id) events event in
    let a = count-append (is_draft id Draft.l1) events event in
    let b = count-append (is_draft id Draft.l2) events event in
    record {
      total = ground (arith, q, a, b, own, not_l1, is_l2, h.total);
      first = ground (arith, a, own, not_l1, h.first);
      second = ground (arith, b, own, is_l2, zero_before);
    }

not_queued-zero :
    (id entry_id : String) (draft : Draft) (events : List SlaEvent)
    → str_eq entry_id id ≡ true
    → IsOnce id events
    → already_queued entry_id draft events ≡ false
    → count_drafts id draft events ≡ 0
not_queued-zero id entry_id draft events same h new =
    let e = (eq_iff entry_id id).0 same in
    let fresh =
      sym (already_queued_lem id draft events h)
      ∙ ap (λ i. already_queued i draft events) (sym e)
      ∙ new in
    ground (arith, fresh)

queue_draft-IsOnce :
    (id : String) (entry : SlaEntry) (draft : Draft) (s : SlaStore)
    → IsOnce id s.events
    → already_queued entry.id draft s.events ≡ false
    → IsOnce id (queue_draft entry draft s).events
unfolding queue_draft is_queued_for
queue_draft-IsOnce id entry draft s h new = elim (Bool-cases (str_eq entry.id id)) [
  | inl same ↦ own draft same (not_queued-zero id entry.id draft s.events same h new)
  | inr other ↦ appended-other id _ s.events (ap (λ b. b && true) other) h
]
  where
    own :
        (d : Draft)
        → str_eq entry.id id ≡ true
        → count_drafts id d s.events ≡ 0
        → IsOnce id (queue_draft entry d s).events
    own Draft.l1 same z = appended-first id _ s.events (ap (λ b. b && true) same) refl refl z h
    own Draft.l2 same z = appended-second id _ s.events (ap (λ b. b && true) same) refl refl z h

no_events-IsOnce : (id : String) → IsOnce id []
no_events-IsOnce id = record { total = refl; first = omega arith; second = omega arith }

-- What happens between two runs: the engine runs at a time, or other services change the entries.
pub data SlaStep : Type 0 where
  run : ℕ → SlaStep
  change : List SlaEntry → SlaStep

module _ (sla : SlaHost) (host : Host) where
  handle_draft-IsOnce :
      (now : ℕ) (id : String) (entry : SlaEntry) (due : Option ℕ) (draft : Option Draft)
      (s : SlaStore)
      → IsOnce id s.events
      → IsOnce id (handle_draft sla host now entry due draft s).events
  unfolding handle_draft
  handle_draft-IsOnce now id entry none draft s h = h
  handle_draft-IsOnce now id entry (some due) none s h = h
  handle_draft-IsOnce now id entry (some due) (some draft) s h =
      guarded (is_waiting sla host now entry due draft) (already_queued entry.id draft s.events)
        refl
    where
      guarded :
          (waiting queued : Bool)
          → already_queued entry.id draft s.events ≡ queued
          → IsOnce id (if waiting || queued then s else queue_draft entry draft s).events
      guarded true queued e = h
      guarded false true e = h
      guarded false false e = queue_draft-IsOnce id entry draft s h e

  handle_found-IsOnce :
      (now : ℕ) (id : String) (entry : Option SlaEntry) (s : SlaStore)
      → IsOnce id s.events
      → IsOnce id (handle_found sla host now entry s).events
  handle_found-IsOnce now id none s h = h
  handle_found-IsOnce now id (some entry) s h =
      handle_draft-IsOnce now id entry entry.sla_due_at (stage_to_queue entry.stage) s h

  handle_all-IsOnce :
      (now : ℕ) (id : String) (entries : List SlaEntry) (s : SlaStore)
      → IsOnce id s.events
      → IsOnce id (handle_all sla host now entries s).events
  unfolding handle_all handle_entry
  handle_all-IsOnce now id [] s h = h
  handle_all-IsOnce now id (entry ∷ entries) s h =
      handle_all-IsOnce now id entries (handle_entry sla host now entry.id s)
        (handle_found-IsOnce now id (find_sla_entry entry.id s.entries) s h)

  abbrev pub take_step : SlaStep → SlaStore → SlaStore
  take_step (run now) s = enforce sla host now s
  take_step (change entries) s = record s { entries = entries }

  abbrev pub take_steps : List SlaStep → SlaStore → SlaStore
  take_steps [] s = s
  take_steps (step ∷ steps) s = take_steps steps (take_step step s)

  take_step-IsOnce :
      (id : String) (step : SlaStep) (s : SlaStore)
      → IsOnce id s.events
      → IsOnce id (take_step step s).events
  unfolding enforce
  take_step-IsOnce id (run now) s h =
      handle_all-IsOnce now id
        (find_many (λ e. true) 500 (order_by_due [] (filter (is_due now) s.entries))) s h
  take_step-IsOnce id (change entries) s h = h

  take_steps-IsOnce :
      (id : String) (steps : List SlaStep) (s : SlaStore)
      → IsOnce id s.events
      → IsOnce id (take_steps steps s).events
  take_steps-IsOnce id [] s h = h
  take_steps-IsOnce id (step ∷ steps) s h =
      take_steps-IsOnce id steps (take_step step s) (take_step-IsOnce id step s h)

  -- From a store without events, whatever the order of runs of the engine at any times and of changes
  -- of the entries by other services, at most one draft of each level is queued for an entry, so that
  -- at most two such events are there and the look-up of the first twenty of them misses none.
  pub take_steps-once :
      (id : String) (steps : List SlaStep) (s : SlaStore)
      → s.events ≡ []
      → (count_drafts id Draft.l1 (take_steps steps s).events ≤ 1)
        × (count_drafts id Draft.l2 (take_steps steps s).events ≤ 1)
        × (find_many (is_queued_for id) 20 (take_steps steps s).events
            ≡ filter (is_queued_for id) (take_steps steps s).events)
  take_steps-once id steps s e =
      let events = (take_steps steps s).events in
      let h = take_steps-IsOnce id steps s (subst (IsOnce id) (sym e) (no_events-IsOnce id)) in
      (
        h.first,
        h.second,
        find_many-filter (is_queued_for id) 20 events (omega (arith, h.total, h.first, h.second)),
      )
