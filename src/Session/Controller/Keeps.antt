-- ===== src/Session/Controller/Keeps.antt =====
-- src/local_recall/session/safety.py: what the steps of the controller leave as it is.
use local_recall.Common.{
  ℕ, ◌≡◌, refl, Bool, true, false, Bool-cases, not, inl, inr, ◌∙◌, ◌∷◌, some, if◌then◌else◌, arith,
}
use local_recall.Lifecycle.State.{TransitionReason, session_locked}
use local_recall.Policy.Engine.{PolicyEngine, set_session_locked}
use local_recall.Session.{
  IdleState, idle, active, idle_unknown, IdleObservation, IdleResumeBehavior, active_grace, manual,
  lifecycle_rejected,
}
use local_recall.Session.Controller.{
  SinkAnswer, sink_raises, sink_answers, Outside, SessionSafetyController, lock_policy, reject,
  settle, update_on_active, apply_lifecycle, emit_audit, grace_blocked, idle_blocked,
  update_resume_latches, latch,
}

pub set_session_locked-locked :
    (value : Bool) (p : PolicyEngine) → (set_session_locked value p).session_locked ≡ value
unfolding set_session_locked
set_session_locked-locked value p = ground arith

lock_policy-lock :
    {S : Type 0} (value : Bool) (c : SessionSafetyController S)
    → (lock_policy value c).lock ≡ c.lock
unfolding lock_policy
lock_policy-lock value c = refl

pub lock_policy-locked :
    {S : Type 0} (value : Bool) (c : SessionSafetyController S)
    → (lock_policy value c).policy.session_locked ≡ value
unfolding lock_policy
lock_policy-locked value c = set_session_locked-locked value c.policy

module _ {S : Type 0} where
  -- The lock that was seen stays, and a locked policy stays locked.
  abbrev pub Keeps : SessionSafetyController S → SessionSafetyController S → Type 0
  Keeps c d = (d.lock ≡ c.lock) × (c.policy.session_locked ≡ true → d.policy.session_locked ≡ true)

  pub Keeps-trans : (c d e : SessionSafetyController S) → Keeps c d → Keeps d e → Keeps c e
  Keeps-trans c d e (a, f) (b, g) = (b ∙ a, λ h. g (f h))

  pub either-Keeps :
      (test : Bool) (c d e : SessionSafetyController S)
      → Keeps c d
      → Keeps c e
      → Keeps c (if test then d else e)
  either-Keeps true c d e k l = k
  either-Keeps false c d e k l = l

  reject-Keeps : (c : SessionSafetyController S) → Keeps c (reject c)
  unfolding reject lock_policy
  reject-Keeps c = (refl, λ h. set_session_locked-locked true c.policy)

  settle-Keeps :
      (blocked : Bool) (reason : TransitionReason) (answer : SinkAnswer)
      (c : SessionSafetyController S)
      → Keeps c (settle blocked reason answer c)
  unfolding settle
  settle-Keeps blocked reason sink_raises c = reject-Keeps c
  settle-Keeps blocked reason (sink_answers false g) c =
      reject-Keeps (record c { last_generation = g })
  settle-Keeps blocked reason (sink_answers true g) c = (refl, λ h. h)

  -- A block of a locked session is noted, whatever the lifecycle answers.
  settle-locked :
      (answer : SinkAnswer) (c : SessionSafetyController S)
      → let d = settle true session_locked answer c in
        (d.blocked ≡ true) × (d.block_reason ≡ some session_locked)
  unfolding settle reject
  settle-locked sink_raises c = (refl, refl)
  settle-locked (sink_answers false g) c = (refl, refl)
  settle-locked (sink_answers true g) c = (refl, refl)

  update_on_active-Keeps :
      (previous : IdleState) (behavior : IdleResumeBehavior) (clock : ℕ × S)
      (c : SessionSafetyController S)
      → Keeps c (update_on_active previous behavior clock c)
  unfolding update_on_active
  update_on_active-Keeps idle manual clock c = (refl, λ h. h)
  update_on_active-Keeps idle active_grace clock c = (refl, λ h. h)
  update_on_active-Keeps _ _ clock c = (refl, λ h. h)

module _ {S : Type 0} (outside : Outside S) where
  pub apply_lifecycle-Keeps :
      (blocked : Bool) (reason : TransitionReason) (c : SessionSafetyController S)
      → Keeps c (apply_lifecycle outside blocked reason c)
  unfolding apply_lifecycle
  apply_lifecycle-Keeps blocked reason c =
      settle-Keeps blocked reason (outside.apply blocked reason c.outside).0 (record c {
        outside = (outside.apply blocked reason c.outside).1;
        requests = (blocked, reason) ∷ c.requests;
      })

  pub apply_lifecycle-locked :
      (c : SessionSafetyController S)
      → let d = apply_lifecycle outside true session_locked c in
        (d.blocked ≡ true) × (d.block_reason ≡ some session_locked)
  unfolding apply_lifecycle
  apply_lifecycle-locked c =
      settle-locked (outside.apply true session_locked c.outside).0 (record c {
        outside = (outside.apply true session_locked c.outside).1;
        requests = (true, session_locked) ∷ c.requests;
      })

  pub emit_audit-Keeps : (c : SessionSafetyController S) → Keeps c (emit_audit outside c)
  unfolding emit_audit
  emit_audit-Keeps c = elim (Bool-cases (not c.has_audit)) [
    | inl e ↦ rw (emit_audit, e) (refl, λ h. h)
    | inr e ↦ elim (Bool-cases (outside.emit c.outside).0) [
      | inl f ↦ rw (emit_audit, e, f) (refl, λ h. h)
      | inr f ↦
          rw (emit_audit, e, f)
            (let d : SessionSafetyController S = lock_policy true (record c {
              outside = (outside.emit c.outside).1;
              last_failure = lifecycle_rejected;
            }) in
              let (a, k) = apply_lifecycle-Keeps true session_locked d in
              (rw a (lock_policy-lock true _), λ h. k (lock_policy-locked true _)))
    ]
  ]

  pub idle_blocked-Keeps :
      (c : SessionSafetyController S)
      → let d = (idle_blocked outside c).1 in (d.lock ≡ c.lock) × (d.policy ≡ c.policy)
  unfolding idle_blocked grace_blocked
  idle_blocked-Keeps c = ground arith

  latch-Keeps :
      (current previous : IdleState) (c : SessionSafetyController S)
      → Keeps c (latch outside current previous c)
  unfolding latch
  latch-Keeps idle previous c = (refl, λ h. h)
  latch-Keeps idle_unknown previous c = (ground arith, λ h. ground arith)
  latch-Keeps active previous c =
      update_on_active-Keeps previous c.settings.resume_behavior (outside.monotonic_ns c.outside)
        (record c { idle_uncertain_latch = false })

  pub update_resume_latches-Keeps :
      (previous current : IdleObservation) (c : SessionSafetyController S)
      → Keeps c (update_resume_latches outside previous current c)
  unfolding update_resume_latches
  update_resume_latches-Keeps previous current c = latch-Keeps current.state previous.state c
