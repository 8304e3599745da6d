-- ===== src/Session/Controller/Safety.antt =====
-- src/local_recall/session/safety.py: a session that is not known to be unlocked.
use local_recall.Common.{
  ℕ, ◌+◌, ◌≡◌, refl, Bool, true, false, Bool-cases, not, ◌&&◌, inl, inr, ◌∙◌, ◌∷◌, [], Option, none,
  some, is_some, ltb, if◌then◌else◌, arith, ap,
}
use local_recall.Lifecycle.State.{TransitionReason, session_locked}
use local_recall.Session.{LockObservation, IdleObservation, is_unlocked, source_conflict}
use local_recall.Session.Controller.{
  Outside, SessionSafetyController, lock_policy, emit_audit, desired_block_reason, reconcile_with,
  reconcile, update_resume_latches, apply_lock, apply_idle, replace_idle_settings,
  acknowledge_idle_resume, expire_lock, refresh, set_lock, is_reason, resolve_idle, Event,
  lock_seen, idle_sources, settings_replaced, resume_acknowledged, refreshed, handle,
}
use local_recall.Session.Controller.Keeps.{
  Keeps, Keeps-trans, either-Keeps, apply_lifecycle-Keeps, apply_lifecycle-locked, emit_audit-Keeps,
  idle_blocked-Keeps, update_resume_latches-Keeps, lock_policy-locked, set_session_locked-locked,
}

is_reason-locked :
    (r : Option TransitionReason) → is_reason r session_locked ≡ true → r ≡ some session_locked
is_reason-locked none e = cc
is_reason-locked (some r) e = ground arith

-- The policy is locked, unless the session is known to be unlocked.
pub record IsHeld {S : Type 0} (c : SessionSafetyController S) : Type 0 where
  pub held : is_unlocked c.lock.state ≡ false → c.policy.session_locked ≡ true

-- And the controller has the capture blocked for the lock.
pub record IsShut {S : Type 0} (c : SessionSafetyController S) : Type 0 where
  pub shut :
      is_unlocked c.lock.state ≡ false
      → (c.policy.session_locked ≡ true)
        × (c.blocked ≡ true)
        × (c.block_reason ≡ some session_locked)

locked-IsHeld :
    {S : Type 0} (c : SessionSafetyController S) → c.policy.session_locked ≡ true → IsHeld c
locked-IsHeld c e = record { held = λ h. e }

pub IsShut-IsHeld : {S : Type 0} (c : SessionSafetyController S) → IsShut c → IsHeld c
IsShut-IsHeld c s = record { held = λ h. (s.shut h).0 }

either-IsHeld :
    {S : Type 0} (test : Bool) (d e : SessionSafetyController S)
    → IsHeld d
    → IsHeld e
    → IsHeld (if test then d else e)
either-IsHeld true d e k l = k
either-IsHeld false d e k l = l

Keeps-IsHeld : {S : Type 0} (c d : SessionSafetyController S) → Keeps c d → IsHeld c → IsHeld d
Keeps-IsHeld c d (a, k) h = record { held = λ shut. k (h.held (rw⁻¹ a shut)) }

set_lock-IsHeld :
    {S : Type 0} (o : LockObservation) (received : ℕ) (c : SessionSafetyController S)
    → IsHeld (set_lock o received c)
unfolding set_lock lock_policy
set_lock-IsHeld o received c = record {
  held = λ shut. set_session_locked-locked (not (is_unlocked o.state)) c.policy ∙ ap not shut;
}

module _ {S : Type 0} (outside : Outside S) where
  reconcile-locked :
      (c : SessionSafetyController S)
      → is_unlocked c.lock.state ≡ false
      → c.policy.session_locked ≡ true
      → let d = reconcile outside c in
        (d.policy.session_locked ≡ true)
        × (d.blocked ≡ true)
        × (d.block_reason ≡ some session_locked)
  unfolding reconcile desired_block_reason reconcile_with
  reconcile-locked c shut held =
      elim (Bool-cases (c.blocked && is_reason c.block_reason session_locked)) [
        | inl e ↦
            let reason = is_reason-locked c.block_reason (ground arith) in
            rw (reconcile, desired_block_reason, shut, reconcile_with, e)
              (held, ground arith, reason)
        | inr e ↦
            let (a, k) = apply_lifecycle-Keeps outside true session_locked c in
            let (b, r) = apply_lifecycle-locked outside c in
            rw (reconcile, desired_block_reason, shut, reconcile_with, e) (k held, b, r)
      ]

  reconcile_with-Keeps :
      (desired : Option TransitionReason) (c : SessionSafetyController S)
      → Keeps c (reconcile_with outside desired c)
  unfolding reconcile_with
  reconcile_with-Keeps (some desired) c =
      either-Keeps _ c c _ (refl, λ h. h) (apply_lifecycle-Keeps outside true desired c)
  reconcile_with-Keeps none c =
      either-Keeps _ c _ _ (refl, λ h. h)
        (either-Keeps c.policy.privacy_mode c c _ (refl, λ h. h)
          (apply_lifecycle-Keeps outside false _ c))

  desired-Keeps : (c : SessionSafetyController S) → Keeps c (desired_block_reason outside c).1
  unfolding desired_block_reason
  desired-Keeps c = elim (Bool-cases (not (is_unlocked c.lock.state))) [
    | inl e ↦ rw e (refl, λ h. h)
    | inr e ↦ let (a, b) = idle_blocked-Keeps outside c in rw e (a, λ h. rw b h)
  ]

  reconcile-Keeps : (c : SessionSafetyController S) → Keeps c (reconcile outside c)
  unfolding reconcile
  reconcile-Keeps c =
      let d = (desired_block_reason outside c).1 in
      Keeps-trans c d (reconcile_with outside (desired_block_reason outside c).0 d)
        (desired-Keeps c) (reconcile_with-Keeps (desired_block_reason outside c).0 d)

  reconcile-IsShut : (c : SessionSafetyController S) → IsHeld c → IsShut (reconcile outside c)
  reconcile-IsShut c h = record {
    shut = λ shut.
        let (a, k) = reconcile-Keeps c in
        let before : is_unlocked c.lock.state ≡ false = rw⁻¹ a shut in
        reconcile-locked c before (h.held before);
  }

  emit_audit-IsHeld : (c : SessionSafetyController S) → IsHeld c → IsHeld (emit_audit outside c)
  emit_audit-IsHeld c h = Keeps-IsHeld c (emit_audit outside c) (emit_audit-Keeps outside c) h

  audited-IsHeld :
      (test : Bool) (c : SessionSafetyController S)
      → IsHeld c
      → IsHeld (if test then c else emit_audit outside c)
  audited-IsHeld test c h = either-IsHeld test c (emit_audit outside c) h (emit_audit-IsHeld c h)

  latches-IsHeld :
      (previous current : IdleObservation) (c : SessionSafetyController S)
      → IsHeld c
      → IsHeld (update_resume_latches outside previous current c)
  latches-IsHeld previous current c h =
      Keeps-IsHeld c (update_resume_latches outside previous current c)
        (update_resume_latches-Keeps outside previous current c) h

  expire_lock-IsHeld : (c : SessionSafetyController S) → IsHeld (expire_lock outside c)
  unfolding expire_lock
  expire_lock-IsHeld c = emit_audit-IsHeld _ (locked-IsHeld _ (lock_policy-locked true _))

  pub handle-IsShut :
      (e : Event) (c : SessionSafetyController S) → IsHeld c → IsShut (handle outside e c)
  unfolding handle apply_lock apply_idle replace_idle_settings acknowledge_idle_resume refresh
  handle-IsShut (lock_seen o) c h = reconcile-IsShut _ (audited-IsHeld _ _ (set_lock-IsHeld _ _ _))
  handle-IsShut (idle_sources l) c h =
      reconcile-IsShut _
        (audited-IsHeld _ _ (latches-IsHeld c.idle_seen _ _ (record { held = h.held })))
  handle-IsShut (settings_replaced settings) c h =
      let d : SessionSafetyController S = record c { settings = settings } in
      let held : IsHeld d = record { held = h.held } in
      let (resolved, s) = resolve_idle outside (c.idle_seen ∷ []) d in
      let e : SessionSafetyController S = record d {
        outside = s;
        idle_seen = resolved.0;
        last_failure = if resolved.1 then source_conflict else c.last_failure;
      } in
      reconcile-IsShut _ (
        either-IsHeld (not (is_some c.idle_seen.idle_seconds)) d
          (update_resume_latches outside c.idle_seen resolved.0 e) held
          (latches-IsHeld c.idle_seen resolved.0 e (record { held = h.held })))
  handle-IsShut resume_acknowledged c h = reconcile-IsShut _ (record { held = h.held })
  handle-IsShut refreshed c h =
      let (now, s) = outside.monotonic_ns c.outside in
      let d : SessionSafetyController S = record c { outside = s } in
      let aged = ltb (c.lock_received_ns + c.lock_state_ttl_ns) now in
      reconcile-IsShut _ (
        either-IsHeld (not (is_unlocked c.lock.state)) c (if aged then expire_lock outside d else d)
          h
          (either-IsHeld aged (expire_lock outside d) d (expire_lock-IsHeld d)
            (record { held = h.held })))
