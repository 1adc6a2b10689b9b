-- ===== src/Escalation/Stages/Invariant.antt =====
-- What holds of an entry's slice along any run of `transition`.
use ses.Base.{◌≤◌, ◌≡◌, sym, ◌∙◌, String, true, false, List, [], ◌∷◌, arith, ◌⊎◌, inl, inr, ◌≢◌}
use ses.Base.Result.{ok}
use ses.Escalation.Stages.{
  EscalationStage, new, drafted, escalated_l1, escalated_l2, resolved, TransitionActor,
  TransitionSlice, EventPayload, transition, can_transition,
}
use mathlib.Core.List.{Memᴰ}

pub record Inv (s : TransitionSlice) : Type 0 where
  pub flagged :
      ((s.is_resolved ≡ true) × (s.stage ≡ resolved))
      ⊎ ((s.is_resolved ≡ false) × (s.stage ≢ resolved))
  pub capped : s.escalation_level ≤ 2
  pub resolved_zero : s.stage ≡ resolved → s.escalation_level ≡ 0
  pub fresh_zero : (s.stage ≡ new) ⊎ (s.stage ≡ drafted) → s.escalation_level ≡ 0
  pub l1_pos : s.stage ≡ escalated_l1 → 1 ≤ s.escalation_level
  pub l2_two : s.stage ≡ escalated_l2 → s.escalation_level ≡ 2

-- The slice of an entry that `makeDefaultTrackingEntry` has made.
abbrev pub default_slice : TransitionSlice
default_slice = record { stage = new; escalation_level = 0; is_resolved = false }

pub default_slice-Inv : Inv default_slice
default_slice-Inv = ground arith

-- A sequence of accepted transitions, with the stages that they ask for.
pub data Run : TransitionSlice → List EscalationStage → TransitionSlice → Type 0 where
  done : {s : TransitionSlice} → Run s [] s
  move :
      {s t u : TransitionSlice} {to : EscalationStage} {tos : List EscalationStage}
      (actor : TransitionActor) (reason source : String) (p : EventPayload)
      → transition s to actor reason source ≡ ok (t, p)
      → Run t tos u
      → Run s (to ∷ tos) u

module _ (s : TransitionSlice) (to : EscalationStage) (actor : TransitionActor)
    (reason source : String) (t : TransitionSlice) (p : EventPayload)
    (e : transition s to actor reason source ≡ ok (t, p)) where
  transition-Inv : Inv s → Inv t
  unfolding transition can_transition
  transition-Inv h = ground arith

  transition-level :
      t.stage ≢ resolved → s.escalation_level ≤ 2 → s.escalation_level ≤ t.escalation_level
  unfolding transition can_transition
  transition-level n c = ground arith

  resolved-stuck : s.stage ≡ resolved → ⊥
  unfolding transition can_transition
  resolved-stuck r = ground arith

  transition-stage : t.stage ≡ to
  unfolding transition can_transition
  transition-stage = ground arith

  l2-from_l1 : to ≡ escalated_l2 → s.stage ≡ escalated_l1
  unfolding transition can_transition
  l2-from_l1 q = ground arith

  level-two : t.escalation_level ≡ 2 → (s.escalation_level ≡ 2) ⊎ (to ≡ escalated_l2)
  unfolding transition can_transition
  level-two q = ground arith

-- Every run of transitions keeps the invariant.
pub Run-Inv : {s t : TransitionSlice} {tos : List EscalationStage} → Run s tos t → Inv s → Inv t
Run-Inv done h = h
Run-Inv (move {s} {t} {to} actor reason source p e r) h =
    Run-Inv r (transition-Inv s to actor reason source t p e h)

Run-of_resolved :
    {s t : TransitionSlice} {tos : List EscalationStage}
    → Run s tos t
    → s.stage ≡ resolved
    → t.stage ≡ resolved
Run-of_resolved done q = q
Run-of_resolved (move {s} {t} {to} actor reason source p e r) q =
    absurd (resolved-stuck s to actor reason source t p e q)

-- Along a run from a slice that satisfies the invariant, the escalation level never falls unless
-- the run ends in `RESOLVED`.
pub Run-level :
    {s u : TransitionSlice} {tos : List EscalationStage}
    → Run s tos u
    → Inv s
    → u.stage ≢ resolved
    → s.escalation_level ≤ u.escalation_level
Run-level done h n = omega arith
Run-level (move {s} {t} {to} actor reason source p e r) h n = omega (
  arith,
  transition-level s to actor reason source t p e (λ q. n (Run-of_resolved r q)) h.capped,
  Run-level r (transition-Inv s to actor reason source t p e h) n,
)

asked-l2 :
    {s u : TransitionSlice} {tos : List EscalationStage}
    → Run s tos u
    → u.escalation_level ≡ 2
    → (s.escalation_level ≡ 2) ⊎ Memᴰ escalated_l2 tos
asked-l2 done q = inl q
asked-l2 (move {s} {t} {to} actor reason source p e r) q = elim (asked-l2 r q) [
  | inl two ↦ elim (level-two s to actor reason source t p e two) [
    | inl before ↦ inl before
    | inr now ↦ inr (Memᴰ.head (sym now))
  ]
  | inr later ↦ inr (Memᴰ.tail later)
]

asked-l1 :
    {s u : TransitionSlice} {tos : List EscalationStage}
    → Run s tos u
    → Memᴰ escalated_l2 tos
    → (s.stage ≡ escalated_l1) ⊎ Memᴰ escalated_l1 tos
asked-l1 done m = elim m [ ]
asked-l1 (move {s} {t} {to} actor reason source p e r) (Memᴰ.head q) =
    inl (l2-from_l1 s to actor reason source t p e (sym q))
asked-l1 (move {s} {t} {to} actor reason source p e r) (Memᴰ.tail m) = elim (asked-l1 r m) [
  | inl q ↦ inr (Memᴰ.head (sym q ∙ transition-stage s to actor reason source t p e))
  | inr later ↦ inr (Memᴰ.tail later)
]

-- An entry that starts from the default slice has escalation level 2 only if its transitions asked
-- for `ESCALATED_L1` and for `ESCALATED_L2`.
pub level_two-needs_both :
    {u : TransitionSlice} {tos : List EscalationStage}
    → Run default_slice tos u
    → u.escalation_level ≡ 2
    → Memᴰ escalated_l1 tos × Memᴰ escalated_l2 tos
level_two-needs_both r q = elim (asked-l2 r q) [
  | inl two ↦ absurd (omega arith)
  | inr m ↦ elim (asked-l1 r m) [ inl q ↦ absurd (cc) | inr m' ↦ (m', m) ]
]
