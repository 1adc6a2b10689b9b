-- ===== src/Escalation/Tests.antt =====
-- The theorems about escalation at concrete inputs, and runs of the definitions.
use mathlib.Core.List.{Memᴰ}
use ses.Base.{
  ◌+◌, ◌≤◌, ◌≡◌, refl, String, true, false, Option, none, some, List, [], ◌∷◌, ◌++◌, arith, max,
  ◌↔◌, length, contains, any,
}
use ses.Base.Result.{ok, throw}
use ses.Base.Sets.{Distinct, add}
use ses.Base.Dict.{lookup, insert}
use ses.Escalation.Stages.{
  EscalationStage, drafted, sent, awaiting_response, escalated_l1, escalated_l2, resolved,
  TransitionActor, TransitionSlice, EventPayload, transition, can_transition, legal,
  is_escalation_stage, assert_transition, all_stage_pairs,
}
use ses.Escalation.Stages.Invariant.{
  Inv, Run, done, move, default_slice, default_slice-Inv, Run-Inv, level_two-needs_both,
}
use ses.Escalation.Stages.Reach.{transition-ok_iff, resolved-reachable}
use ses.Escalation.Levels.{
  OccurrenceRecord, occurrence_pair_key, compute_occurrence_levels, level_for, note_all, note,
  size_all,
}
use ses.Escalation.Levels.Uploads.{flags, level_for-counts}
use ses.Escalation.Levels.Growth.{compute_occurrence_levels-again, level_for-new_upload}
use ses.Escalation.Tracking.{
  TrackingEntry, resolved_column, pipeline_key, make_default_tracking_entry, by_counters, by_legacy,
  by_stage, not_contacted,
}
use ses.Escalation.Tracking.Columns.{
  with_slice, column_of, rank, pipeline_key-Run, pipeline_key_mono,
}

abbrev ann : TransitionActor
ann = record { id = "u1"; email = "ann@x.org"; display_name = "Ann" }

abbrev to_l2 : List EscalationStage
to_l2 = sent ∷ awaiting_response ∷ escalated_l1 ∷ escalated_l2 ∷ []

abbrev at_l2 : TransitionSlice
at_l2 = record { stage = escalated_l2; escalation_level = 2; is_resolved = false }

Run-to_l2 : Run default_slice to_l2 at_l2
unfolding transition can_transition
Run-to_l2 =
    move ann "r" "s" _ refl
      (move ann "r" "s" _ refl (move ann "r" "s" _ refl (move ann "r" "s" _ refl done)))

stage_texts :
    (is_escalation_stage "SENT" ≡ true)
    × (is_escalation_stage "Sent" ≡ false)
    × (length all_stage_pairs ≡ 81)
    × (assert_transition drafted resolved
        ≡ throw "Illegal escalation transition DRAFTED -> RESOLVED")
unfolding is_escalation_stage all_stage_pairs assert_transition can_transition
stage_texts = (refl, refl, refl, refl)

Run-Inv_example : Inv at_l2
Run-Inv_example = Run-Inv Run-to_l2 default_slice-Inv

level_two-needs_both_example : Memᴰ escalated_l1 to_l2 × Memᴰ escalated_l2 to_l2
level_two-needs_both_example = level_two-needs_both Run-to_l2 refl

transition-ok_iff_example :
    ((r : TransitionSlice × EventPayload) × (transition at_l2 sent ann "r" "s" ≡ ok r))
    ↔ Memᴰ sent (legal escalated_l2)
transition-ok_iff_example = transition-ok_iff at_l2 sent ann "r" "s"

resolved-reachable_example :
    (tos : List EscalationStage) × (t : TransitionSlice) × (length tos ≤ 2)
    × Run at_l2 tos t
    × (t.stage ≡ resolved)
    × (t.is_resolved ≡ true)
    × (t.escalation_level ≡ 0)
resolved-reachable_example =
    resolved-reachable at_l2 ann "r" "s" (Run-Inv Run-to_l2 default_slice-Inv)

abbrev rec : String → String → String → OccurrenceRecord
rec h m i = record { findings_hash = some h; manager_key = m; issue_key = i }

abbrev uploads : List (Option OccurrenceRecord)
uploads =
    some (rec "h1" "ann" "K") ∷ none ∷ some (rec "h1" "ann" "K") ∷ some (rec "h2" "bob" "K") ∷ []

levels_run :
    (level_for uploads "ann" (some "K") ≡ 1)
    × (level_for (uploads ++ some (rec "h2" "ann" "K") ∷ []) "ann" (some "K") ≡ 2)
unfolding level_for compute_occurrence_levels note_all note size_all lookup insert add
    occurrence_pair_key
levels_run = (refl, refl)

level_for-counts_example :
    (hashes : List String) × Distinct hashes
    × ((h : String) → contains hashes h ≡ any (flags "ann" "K" h) uploads)
    × (level_for uploads "ann" (some "K") ≡ max 1 (length hashes))
level_for-counts_example = level_for-counts uploads "ann" "K" (omega arith) (omega arith) refl refl

compute_occurrence_levels-again_example :
    compute_occurrence_levels (uploads ++ some (rec "h2" "bob" "K") ∷ [])
    ≡ compute_occurrence_levels uploads
compute_occurrence_levels-again_example =
    compute_occurrence_levels-again uploads (rec "h2" "bob" "K") refl

level_for-new_upload_example :
    level_for (uploads ++ some (rec "h2" "ann" "K") ∷ []) "ann" (some "K")
    ≡ level_for uploads "ann" (some "K") + 1
level_for-new_upload_example =
    level_for-new_upload uploads (rec "h2" "ann" "K") "h1" (omega arith) (omega arith) refl refl
      refl refl

abbrev entry : TrackingEntry
entry = record {
  key = "p:ann";
  process_id = "p";
  manager_name = "Ann";
  manager_email = "ann";
  flagged_project_count = 3;
  outlook_count = 1;
  teams_count = 0;
  last_contact_at = none;
  stage = "DRAFTED";
  escalation_level = 0;
  is_resolved = false;
  history = [];
  project_statuses = (make_default_tracking_entry "p" "Ann" "ann" 3).project_statuses;
}

default_column : pipeline_key (make_default_tracking_entry "p" "Ann" "ann" 3) ≡ not_contacted
unfolding make_default_tracking_entry pipeline_key by_legacy by_stage by_counters
default_column = refl

pipeline_key-Run_example :
    (pipeline_key (with_slice entry at_l2) ≡ column_of escalated_l2 (by_counters entry))
    × ((pipeline_key (with_slice entry at_l2) ≡ resolved_column) ↔ (escalated_l2 ≡ resolved))
pipeline_key-Run_example = pipeline_key-Run entry Run-to_l2

pipeline_key_mono_example :
    rank (pipeline_key entry) ≤ rank (pipeline_key (record entry { outlook_count = 2 }))
pipeline_key_mono_example =
    pipeline_key_mono entry (record entry { outlook_count = 2 }) refl refl (omega arith)
      (omega arith)
