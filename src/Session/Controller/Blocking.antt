-- ===== src/Session/Controller/Blocking.antt =====
-- src/local_recall/session/safety.py with src/local_recall/policy/engine.py: what a locked session
-- means for the policy and for the lifecycle.
use local_recall.Common.{
  ℕ, zero, suc, ◌≡◌, refl, ◌∙◌, true, false, some, List, [], ◌∷◌, arith, all, ap, not, inl, inr,
  Option-cases,
}
use local_recall.Lifecycle.State.{session_locked}
use local_recall.Policy.{PolicyOperation, PolicyPhase, PolicyEvaluationContext, Library}
use local_recall.Policy.Engine.{PolicyEngine, snapshot}
use local_recall.Policy.Evaluate.{evaluate}
use local_recall.Policy.Permits.{permits, evaluate_snapshot-permits}
use local_recall.Session.{is_unlocked}
use local_recall.Session.Controller.{
  Outside, SessionSafetyController, lock_policy, reject, refresh, reconcile, reconcile_with,
  desired_block_reason, Event, refreshed, handle, handle_all,
}
use local_recall.Common.Exec.{after}
use local_recall.Session.Preflight.{SessionSafetyPreflight, collect, check}
use local_recall.Session.Sharing.{Step, called, checked, check_shared, step, run_steps, keeps_lock}
use local_recall.Session.Controller.Keeps.{set_session_locked-locked}
use local_recall.Session.Controller.Safety.{IsHeld, handle-IsShut, IsShut-IsHeld}

snapshot-locked : (now : ℕ) (s : PolicyEngine) → (snapshot now s).session_locked ≡ s.session_locked
unfolding snapshot
snapshot-locked now s = ground arith

-- A locked policy engine denies every operation.
pub locked-denied :
    (library : Library) (operation : PolicyOperation) (phase : PolicyPhase)
    (context : PolicyEvaluationContext) (s : PolicyEngine)
    → s.session_locked ≡ true
    → (evaluate library operation phase context s).0.allowed ≡ false
unfolding evaluate permits
locked-denied library operation phase context s e =
    let now = snapshot context.evaluated_at s in
    let same = snapshot-locked context.evaluated_at s in
    let allowed = evaluate_snapshot-permits library now operation context phase in
    let last : permits library now operation context ≡ false = ground arith in allowed ∙ last

check-locks :
    (p : SessionSafetyPreflight) (s : PolicyEngine)
    → is_unlocked (collect p).0.state ≡ false
    → (after (check p s)).session_locked ≡ true
unfolding check
check-locks p s e =
    let locks = set_session_locked-locked (not (is_unlocked (collect p).0.state)) s in
    elim (Option-cases p.base) [
      | inl f ↦ rw (check, f) (locks ∙ ap not e)
      | inr (result, f) ↦ rw (check, f) (locks ∙ ap not e)
    ]

unfoldable pub refreshes : ℕ → List Event
refreshes zero = []
refreshes (suc n) = refreshed ∷ refreshes n

module _ {S : Type 0} (outside : Outside S) where
  check_shared-IsHeld :
      (p : SessionSafetyPreflight) (c : SessionSafetyController S)
      → is_unlocked (collect p).0.state ≡ false
      → IsHeld (check_shared p c)
  unfolding check_shared check
  check_shared-IsHeld p c e = record { held = λ shut. check-locks p c.policy e }

  step-IsHeld :
      (e : Step) (c : SessionSafetyController S)
      → keeps_lock e ≡ true
      → IsHeld c
      → IsHeld (step outside e c)
  unfolding step keeps_lock
  step-IsHeld (called e) c k h = IsShut-IsHeld (handle outside e c) (handle-IsShut outside e c h)
  step-IsHeld (checked p) c k h = check_shared-IsHeld p c (ground arith)

  run_steps-IsHeld :
      (es : List Step) (c : SessionSafetyController S)
      → all keeps_lock es ≡ true
      → IsHeld c
      → IsHeld (run_steps outside es c)
  unfolding run_steps
  run_steps-IsHeld [] c k h = h
  run_steps-IsHeld (e ∷ es) c k h =
      run_steps-IsHeld es (step outside e c) (ground arith) (step-IsHeld e c (ground arith) h)

  -- From a controller whose policy is locked unless the session is known to be unlocked, after any
  -- calls of the controller and any preflights but those that see the session unlocked, and then one
  -- more call, whatever the clocks, the lifecycle and the audit sink answer: while the controller then
  -- does not know the session to be unlocked, the policy denies every operation in every context, and
  -- the controller has noted the capture as blocked for the lock. (It notes so whether or not the
  -- lifecycle accepted the block.)
  pub handle-denied :
      (library : Library) (operation : PolicyOperation) (phase : PolicyPhase)
      (context : PolicyEvaluationContext) (es : List Step) (e : Event)
      (c : SessionSafetyController S)
      → all keeps_lock es ≡ true
      → IsHeld c
      → is_unlocked (handle outside e (run_steps outside es c)).lock.state ≡ false
      → ((evaluate library operation phase context
            (handle outside e (run_steps outside es c)).policy).0.allowed
          ≡ false)
        × ((handle outside e (run_steps outside es c)).blocked ≡ true)
        × ((handle outside e (run_steps outside es c)).block_reason ≡ some session_locked)
  handle-denied library operation phase context es e c k h shut =
      let d = handle outside e (run_steps outside es c) in
      let held = run_steps-IsHeld es c k h in
      let (policy, blocked, reason) =
        (handle-IsShut outside e (run_steps outside es c) held).shut shut in
      (locked-denied library operation phase context d.policy policy, blocked, reason)

  rejected-lock :
      (c : SessionSafetyController S)
      → is_unlocked c.lock.state ≡ false
      → is_unlocked (reject c).lock.state ≡ false
  unfolding reject lock_policy
  rejected-lock c shut = shut

  rejected-reconcile_with :
      (c : SessionSafetyController S)
      → reconcile_with outside (some session_locked) (reject c) ≡ reject c
  unfolding reconcile_with reject
  rejected-reconcile_with c = refl

  rejected-desired :
      (c : SessionSafetyController S)
      → is_unlocked c.lock.state ≡ false
      → desired_block_reason outside (reject c) ≡ (some session_locked, reject c)
  unfolding desired_block_reason reject lock_policy
  rejected-desired c shut = rw shut refl

  rejected-reconcile :
      (c : SessionSafetyController S)
      → is_unlocked c.lock.state ≡ false
      → reconcile outside (reject c) ≡ reject c
  unfolding reconcile
  rejected-reconcile c shut = rw (rejected-desired c shut) (rejected-reconcile_with c)

  rejected-refresh :
      (c : SessionSafetyController S)
      → is_unlocked c.lock.state ≡ false
      → handle outside refreshed (reject c) ≡ reject c
  unfolding handle refresh
  rejected-refresh c shut = rw (rejected-lock c shut) (rejected-reconcile c shut)

  -- While the session is not known to be unlocked: when the lifecycle has refused a request of the
  -- controller, or its answer was lost, any number of refreshes in a row leave the controller as it is,
  -- and ask the lifecycle nothing. (Other calls are not meant: a lock that is seen to change, or an idle
  -- state, may ask again, by way of an audit sink that refuses the event.)
  pub reject-refreshes :
      (n : ℕ) (c : SessionSafetyController S)
      → is_unlocked c.lock.state ≡ false
      → handle_all outside (refreshes n) (reject c) ≡ reject c
  unfolding handle_all refreshes
  reject-refreshes zero c shut = refl
  reject-refreshes (suc n) c shut =
      rw (handle_all, rejected-refresh c shut) (reject-refreshes n c shut)
