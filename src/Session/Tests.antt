-- ===== src/Session/Tests.antt =====
-- Concrete sessions.
use local_recall.Common.{
  ℕ, ◌+◌, ◌≡◌, refl, ◌⊎◌, true, false, not, ◌&&◌, none, some, [], ◌∷◌, any, codes,
}
use local_recall.Lifecycle.State.{session_locked, idle as idle_reason}
use local_recall.Lifecycle.Messages.{LifecyclePreflightResult}
use local_recall.Policy.{screenshot, pre_capture}
use local_recall.Policy.Engine.{set_session_locked}
use local_recall.Policy.Evaluate.{evaluate}
use local_recall.Policy.Samples.{library, engine, context}
use local_recall.Session.{
  LockObservation, IdleObservation, IdleSettings, locked, lock_unknown, idle_unknown, immediate,
  unavailable, stale, is_unlocked, is_idle, is_active, normalize_all, resolve_idle_observations,
}
use local_recall.Session.Resolution.{resolve_idle_observations-state}
use local_recall.Session.Preflight.{
  SessionSafetyPreflight, check, collect, collect_lock, unknown_lock, answer_of,
}
use local_recall.Session.Sharing.{checked, check_shared, step, run_steps, keeps_lock}
use local_recall.Session.Preflight.Start.{sees_idle, check-starts}
use local_recall.Session.Controller.{
  Outside, sink_raises, SessionSafetyController, reject, lock_seen, handle, handle_all, apply_lock,
  normalize_lock, set_lock, lock_policy, emit_audit, reconcile, reconcile_with,
  desired_block_reason, apply_lifecycle, settle,
}
use local_recall.Session.Controller.Safety.{IsHeld}
use local_recall.Session.Controller.Blocking.{refreshes, handle-denied, reject-refreshes}

-- A lifecycle that does not answer in time, while each look at a clock takes a second.
abbrev outside : Outside ℕ
outside = record {
  now = λ t. (t, t + 1000000000);
  monotonic_ns = λ t. (t, t + 1000000000);
  apply = λ blocked reason t. (sink_raises, t);
  emit = λ t. (true, t);
}

abbrev seen : LockObservation
seen = record {
  state = locked;
  observed_at = 100;
  source_id = codes "logind";
  source_revision = codes "logind-v1";
  failure_code = none;
}

abbrev still : IdleObservation
still = record {
  state = idle_unknown;
  observed_at = 100;
  source_id = codes "xorg-idle";
  source_revision = codes "v1";
  idle_seconds = some 200;
  failure_code = none;
}

abbrev settings : IdleSettings
settings = record {
  enabled = true;
  pause_capture = true;
  threshold_seconds = 180;
  resume_behavior = immediate;
  active_grace_seconds = 0;
  max_observation_age_seconds = 5000000000;
}

abbrev controller : SessionSafetyController ℕ
controller = record {
  outside = 100;
  policy = record engine { session_locked = true };
  settings = settings;
  source_order = codes "activitywatch" ∷ codes "xorg-idle" ∷ [];
  has_audit = false;
  lock_state_ttl_ns = 5000000000;
  lock = record seen { state = lock_unknown; failure_code = some stale };
  idle_seen = record still { idle_seconds = none; failure_code = some unavailable };
  lock_received_ns = 100;
  active_since_ns = none;
  manual_idle_latch = false;
  idle_uncertain_latch = false;
  blocked = false;
  block_reason = none;
  last_generation = none;
  last_failure = stale;
  requests = [];
}

controller-IsHeld : IsHeld controller
controller-IsHeld = record { held = λ shut. refl }

abbrev preflight : SessionSafetyPreflight
preflight = record {
  base = some (record { ready = true; fault_code = none; start_paused_reason = none });
  lock_source = record { source_id = codes "logind"; observed = none; failed_at = 7 };
  idle_settings = settings;
  idle_sources = [];
  source_order = [];
  cancelled = none;
  now = 10;
}

locked_now :
    is_unlocked
      (handle outside
        (lock_seen seen)
        (run_steps outside (checked preflight ∷ []) controller)).lock.state
    ≡ false
unfolding handle run_steps step check_shared check collect collect_lock unknown_lock apply_lock
    normalize_lock set_lock lock_policy reconcile reconcile_with desired_block_reason
    apply_lifecycle settle reject set_session_locked emit_audit
locked_now = refl

handle-denied_example :
    ((evaluate library screenshot pre_capture context
        (handle outside
          (lock_seen seen)
          (run_steps outside (checked preflight ∷ []) controller)).policy).0.allowed
      ≡ false)
    × ((handle outside
          (lock_seen seen)
          (run_steps outside (checked preflight ∷ []) controller)).blocked
        ≡ true)
    × ((handle outside
          (lock_seen seen)
          (run_steps outside (checked preflight ∷ []) controller)).block_reason
        ≡ some session_locked)
unfolding keeps_lock collect collect_lock unknown_lock
handle-denied_example =
    handle-denied outside library screenshot pre_capture context (checked preflight ∷ [])
      (lock_seen seen) controller refl controller-IsHeld locked_now

reject-refreshes_example : handle_all outside (refreshes 3) (reject controller) ≡ reject controller
reject-refreshes_example = reject-refreshes outside 3 controller refl

resolve_idle_observations-state_example :
    let n = normalize_all settings 300 (still ∷ []) in
    let (resolved, conflict) = resolve_idle_observations settings [] 300 (still ∷ []) in
    (is_idle resolved.state ≡ any (λ o. is_idle o.state) n)
    × (is_active resolved.state
        ≡ (not (any (λ o. is_idle o.state) n) && any (λ o. is_active o.state) n))
    × (conflict ≡ (any (λ o. is_idle o.state) n && any (λ o. is_active o.state) n))
resolve_idle_observations-state_example =
    resolve_idle_observations-state settings [] 300 (still ∷ [])

abbrev paused : LifecyclePreflightResult
paused = record { ready = true; fault_code = none; start_paused_reason = some session_locked }

-- The lock source raised.
check-starts_example :
    ((set_session_locked true engine).session_locked
      ≡ not (is_unlocked (collect preflight).0.state))
    × (((is_unlocked (collect preflight).0.state ≡ false)
          × (paused.start_paused_reason ≡ some session_locked)
          × ((evaluate library screenshot pre_capture context
                (set_session_locked true engine)).0.allowed
              ≡ false))
        ⊎ ((is_unlocked (collect preflight).0.state ≡ true)
            × (sees_idle preflight ≡ true)
            × (paused.start_paused_reason ≡ some idle_reason))
        ⊎ ((is_unlocked (collect preflight).0.state ≡ true)
            × (sees_idle preflight ≡ false)
            × (preflight.base ≡ some paused)))
unfolding check collect collect_lock unknown_lock answer_of
check-starts_example =
    check-starts library screenshot pre_capture context preflight engine
      (set_session_locked true engine) paused refl refl
