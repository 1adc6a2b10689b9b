-- ===== src/Escalation/Tracking/Columns.antt =====
-- How the column of an entry follows its stage and its counters.
use ses.Base.{ℕ, ◌≤◌, ◌≡◌, refl, String, true, false, arith, ◌↔◌, List}
use ses.Escalation.Stages.{
  EscalationStage, new, drafted, sent, awaiting_response, responded, no_response, escalated_l1,
  escalated_l2, resolved, stage_name, TransitionSlice,
}
use ses.Escalation.Stages.Invariant.{Inv, Run, Run-Inv, default_slice, default_slice-Inv}
use ses.Escalation.Tracking.{
  PipelineKey, not_contacted, notified, escalated, resolved_column, TrackingEntry, by_counters,
  by_stage, by_legacy, pipeline_key,
}

-- The entry that carries the slice of a transition.
abbrev pub with_slice : TrackingEntry → TransitionSlice → TrackingEntry
with_slice entry s = record entry {
  stage = stage_name s.stage;
  escalation_level = s.escalation_level;
  is_resolved = s.is_resolved;
}

-- The column of a stage; for `NEW` and `DRAFTED` that of the counters.
abbrev pub column_of : EscalationStage → PipelineKey → PipelineKey
column_of new counted = counted
column_of drafted counted = counted
column_of sent counted = notified
column_of awaiting_response counted = notified
column_of responded counted = notified
column_of no_response counted = escalated
column_of escalated_l1 counted = escalated
column_of escalated_l2 counted = escalated
column_of resolved counted = resolved_column

column_of_stage :
    (entry : TrackingEntry) (st : EscalationStage)
    → entry.stage ≡ stage_name st
    → entry.is_resolved ≡ false
    → pipeline_key entry ≡ column_of st (by_counters entry)
unfolding pipeline_key by_stage by_legacy
column_of_stage entry new e r = rw (r, e)
column_of_stage entry drafted e r = rw (r, e)
column_of_stage entry sent e r = rw (r, e)
column_of_stage entry awaiting_response e r = rw (r, e)
column_of_stage entry responded e r = rw (r, e)
column_of_stage entry no_response e r = rw (r, e)
column_of_stage entry escalated_l1 e r = rw (r, e)
column_of_stage entry escalated_l2 e r = rw (r, e)
column_of_stage entry resolved e r = rw (r, e)

column_of_resolved :
    (entry : TrackingEntry) → entry.is_resolved ≡ true → pipeline_key entry ≡ resolved_column
unfolding pipeline_key
column_of_resolved entry r = rw r

-- After any run of transitions from the default slice, the entry stands in the column of its stage, and
-- while it is NEW or DRAFTED in that of its counters; so it stands in the resolved column exactly when
-- its stage is RESOLVED.
pub pipeline_key-Run :
    (entry : TrackingEntry) {s : TransitionSlice} {tos : List EscalationStage}
    → Run default_slice tos s
    → (pipeline_key (with_slice entry s) ≡ column_of s.stage (by_counters entry))
      × ((pipeline_key (with_slice entry s) ≡ resolved_column) ↔ (s.stage ≡ resolved))
unfolding by_counters
pipeline_key-Run entry {s} r = (column, ground (arith, column))
  where
    inv : Inv s
    inv = Run-Inv r default_slice-Inv

    column :
        pipeline_key (with_slice entry s) ≡ column_of s.stage (by_counters (with_slice entry s))
    column = ground (
      arith,
      inv.flagged,
      column_of_stage (with_slice entry s) s.stage refl,
      column_of_resolved (with_slice entry s),
    )

abbrev pub rank : PipelineKey → ℕ
rank not_contacted = 0
rank notified = 1
rank escalated = 2
rank resolved_column = 3

by_stage_mono :
    (st : String) (x y : PipelineKey)
    → rank x ≤ rank y
    → rank (by_stage st x) ≤ rank (by_stage st y)
unfolding by_stage
by_stage_mono st x y h = ground arith

by_legacy_mono :
    (st : String) (x y : PipelineKey)
    → rank x ≤ rank y
    → rank (by_legacy st x) ≤ rank (by_legacy st y)
unfolding by_legacy
by_legacy_mono st x y h = ground arith

by_counters_mono :
    (a b : TrackingEntry)
    → a.outlook_count ≤ b.outlook_count
    → a.teams_count ≤ b.teams_count
    → rank (by_counters a) ≤ rank (by_counters b)
unfolding by_counters
by_counters_mono a b o t = ground arith

-- More messages never move an entry back: if only the counters grow, the column stays or moves towards
-- `escalated`.
pub pipeline_key_mono :
    (a b : TrackingEntry)
    → a.stage ≡ b.stage
    → a.is_resolved ≡ b.is_resolved
    → a.outlook_count ≤ b.outlook_count
    → a.teams_count ≤ b.teams_count
    → rank (pipeline_key a) ≤ rank (pipeline_key b)
unfolding pipeline_key
pipeline_key_mono a b s r o t =
    let x = by_counters a in
    let y = by_counters b in
    let counted = by_counters_mono a b o t in
    let staged = by_stage_mono a.stage x y counted in
    ground (arith, by_legacy_mono a.stage (by_stage a.stage x) (by_stage a.stage y) staged)
