-- ===== src/StageService/Reversal.antt =====
-- What verification and its reversal do to a tracking entry.
use ses.Base.{
  ◌+◌, ◌≡◌, refl, ap, String, true, false, Option, none, some, length, length-append, arith,
}
use ses.Base.Result.{ok}
use ses.Escalation.Stages.{EscalationStage, can_transition}
use ses.StageService.{
  SessionUser, Store, Fresh, StageReply, record_change, verified_row, reverted_row, verify_at,
  verify, revert_at, revert_verification,
}

no_way_on : (to : EscalationStage) → can_transition EscalationStage.resolved to ≡ false
unfolding can_transition
no_way_on to = ground arith

module _ (fresh : Fresh) (user : SessionUser) (s : Store) where
  -- The first verification of an entry resolves it, names the verifier and the time, and adds one to
  -- its version, one event, one log entry and one message.
  pub verify_lem :
      s.entry.verified_at ≡ none
      → (((verify fresh user s).1.entry ≡ verified_row fresh user s.entry)
          × (length (verify fresh user s).1.events ≡ length s.events + 1)
          × (length (verify fresh user s).1.activity ≡ length s.activity + 1)
          × (length (verify fresh user s).1.sent ≡ length s.sent + 1))
  unfolding verify verify_at record_change
  verify_lem h =
      rw h (refl, length-append s.events _, length-append s.activity _, length-append s.sent _)

  -- Once an entry is verified, another verification by any user changes nothing: the first one stays.
  pub verify-again :
      (fresh' : Fresh) (user' : SessionUser)
      → (verify fresh' user' (verify fresh user s).1).1 ≡ (verify fresh user s).1
  unfolding verify verify_at record_change verified_row
  verify-again fresh' user' = go s.entry.verified_at refl
    where
      go :
          (o : Option String)
          → s.entry.verified_at ≡ o
          → (verify_at fresh' user'
              (verify_at fresh user s o).1
              (verify_at fresh user s o).1.entry.verified_at).1
            ≡ (verify_at fresh user s o).1
      go none e = refl
      go (some at) e = ap (λ v. (verify_at fresh' user' s v).1) e

  -- After an entry is verified and an admin reverts that, the entry is unresolved and unverified but
  -- still in the stage RESOLVED, from which no transition is legal; its version has grown by two.
  pub revert_verification-verify :
      (fresh' : Fresh) (admin : SessionUser) (to : EscalationStage)
      → s.entry.verified_at ≡ none
      → admin.is_admin ≡ true
      → ((reply : StageReply) × (after : Store) × (revert_verification fresh' admin
              (verify fresh user s).1
            ≡ ok (reply, after))
          × (after.entry.is_resolved ≡ false)
          × (after.entry.verified_at ≡ none)
          × (after.entry.stage ≡ EscalationStage.resolved)
          × (can_transition after.entry.stage to ≡ false)
          × (after.entry.row_version ≡ s.entry.row_version + 2))
  unfolding verify verify_at revert_verification revert_at record_change verified_row reverted_row
      can_transition
  revert_verification-verify fresh' admin to h a =
      let found = revert_at fresh' admin (verify_at fresh user s none).1 (some fresh.now) in
      rw (h, a) (found.0, found.1, refl, refl, refl, refl, no_way_on to, omega arith)
