-- ===== src/Escalation/Stages/Reach.antt =====
-- Which transitions are accepted, and that every entry can be resolved.
use mathlib.Core.List.{Memᴰ}
use ses.Base.{
  ◌≤◌, ◌≡◌, refl, String, true, List, [], ◌∷◌, arith, ◌⊎◌, inl, inr, length, ◌↔◌, any, Bool-cases,
}
use ses.Base.Result.{ok}
use ses.Escalation.Stages.{
  EscalationStage, drafted, sent, resolved, TransitionActor, TransitionSlice, EventPayload,
  transition, legal, next_slice, event_payload, can_transition, stage_eq,
}
use ses.Escalation.Stages.Invariant.{Run, done, move, Inv}

mem_of-any :
    (to : EscalationStage) (ls : List EscalationStage) → any (stage_eq to) ls ≡ true → Memᴰ to ls
mem_of-any to (l ∷ ls) h = elim (Bool-cases (stage_eq to l)) [
  | inl same ↦ Memᴰ.head (ground arith)
  | inr other ↦ Memᴰ.tail (mem_of-any to ls (ground arith))
]
mem_of-any to [] h = absurd (cc)

any_of-mem :
    (to : EscalationStage) (ls : List EscalationStage) → Memᴰ to ls → any (stage_eq to) ls ≡ true
any_of-mem to [] m = elim m [ ]
any_of-mem to (l ∷ ls) (Memᴰ.head q) = ground arith
any_of-mem to (l ∷ ls) (Memᴰ.tail m) = ground (arith, any_of-mem to ls m)

can_transition-any : (a b : EscalationStage) → can_transition a b ≡ any (stage_eq b) (legal a)
unfolding can_transition
can_transition-any a b = ground arith

-- `canTransition` accepts exactly the pairs of the table: its `from === to` guard never decides,
-- since no stage is listed under itself.
pub can_transition_iff :
    (from to : EscalationStage) → (can_transition from to ≡ true) ↔ Memᴰ to (legal from)
can_transition_iff from to = (
  λ h. mem_of-any to (legal from) (rw (can_transition-any from to) at h),
  λ m. rw (can_transition-any from to) (any_of-mem to (legal from) m),
)

-- `transition` returns a slice and an event exactly for the pairs of the table, and throws for every
-- other pair.
pub transition-ok_iff :
    (s : TransitionSlice) (to : EscalationStage) (actor : TransitionActor) (reason source : String)
    → ((r : TransitionSlice × EventPayload) × (transition s to actor reason source ≡ ok r))
      ↔ Memᴰ to (legal s.stage)
unfolding transition
transition-ok_iff s to actor reason source = (
  λ (r, e). (can_transition_iff s.stage to).0 (ground arith),
  λ m. (
    (next_slice s to, event_payload s to actor reason source),
    rw ((can_transition_iff s.stage to).1 m) refl,
  ),
)

next_ok :
    (s : TransitionSlice) (to : EscalationStage) (actor : TransitionActor) (reason source : String)
    → can_transition s.stage to ≡ true
    → transition s to actor reason source
      ≡ ok (next_slice s to, event_payload s to actor reason source)
unfolding transition
next_ok s to actor reason source h = rw h

stage_options :
    (st : EscalationStage)
    → (st ≡ resolved)
      ⊎ (((st ≡ drafted) × (can_transition drafted sent ≡ true))
          ⊎ (can_transition st resolved ≡ true))
unfolding can_transition
stage_options st = ground arith

-- From any stage, `RESOLVED` is at most two accepted transitions away, whoever the actor is; from a
-- slice that satisfies the invariant, the slice at the end carries the resolved flag and level 0.
pub resolved-reachable :
    (s : TransitionSlice) (actor : TransitionActor) (reason source : String)
    → Inv s
    → (tos : List EscalationStage) × (t : TransitionSlice) × (length tos ≤ 2)
      × Run s tos t
      × (t.stage ≡ resolved)
      × (t.is_resolved ≡ true)
      × (t.escalation_level ≡ 0)
resolved-reachable s actor reason source h = elim (stage_options s.stage) [
  | inl r ↦ ([], s, omega arith, done, r, ground arith, ground arith)
  | inr (inl (d, c)) ↦ (
    sent ∷ resolved ∷ [],
    next_slice (next_slice s sent) resolved,
    omega arith,
    move actor reason source _ (next_ok s sent actor reason source (rw d c)) (
        move actor reason source _
          (next_ok (next_slice s sent) resolved actor reason source (unfold can_transition in refl))
          done),
    refl,
    refl,
    refl,
  )
  | inr (inr c) ↦ (
    resolved ∷ [],
    next_slice s resolved,
    omega arith,
    move actor reason source _ (next_ok s resolved actor reason source c) done,
    refl,
    refl,
    refl,
  )
]
