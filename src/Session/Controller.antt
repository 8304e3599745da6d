-- ===== src/Session/Controller.antt =====
-- src/local_recall/session/safety.py, `SessionSafetyController`: it keeps the lock of the policy engine
-- and asks the lifecycle to block the capture. Its methods run under one lock; the engine is shared with
-- the preflight (Session/Sharing). Clocks, the lifecycle and the audit sink are the `Outside`, with a
-- state of their own.
pub mod Keeps
pub mod Safety
pub mod Blocking
use local_recall.Common.{
  ℕ, ◌+◌, Bool, true, false, not, ◌&&◌, ◌||◌, Option, none, some, is_some, List, [], ◌∷◌, ◌==◌, leb,
  ltb, if◌then◌else◌, Text,
}
use local_recall.Lifecycle.State.{
  TransitionReason, session_locked, session_unlocked, idle as idle_reason, active as active_reason,
  same_reason,
}
use local_recall.Policy.Engine.{PolicyEngine, set_session_locked}
use local_recall.Session.{
  LockState, locked, unlocked, lock_unknown, IdleState, idle, active, idle_unknown,
  SessionSafetyFailureCode, malformed, stale, source_conflict, lifecycle_rejected, LockObservation,
  IdleObservation, IdleResumeBehavior, immediate, active_grace, manual, IdleSettings, is_unlocked,
  is_idle, clock_skew, resolve_idle_observations,
}

-- What the lifecycle answers: an exception, or whether it accepts, with its generation.
pub data SinkAnswer : Type 0 where
  sink_raises : SinkAnswer
  sink_answers : Bool → Option ℕ → SinkAnswer

-- `emit` says whether the audit sink takes an event; the clock that dates it belongs to it.
pub record Outside (S : Type 0) : Type 0 where
  pub now : S → ℕ × S
  pub monotonic_ns : S → ℕ × S
  pub apply : Bool → TransitionReason → S → SinkAnswer × S
  pub emit : S → Bool × S

pub record SessionSafetyController (S : Type 0) : Type 0 where
  pub outside : S
  pub policy : PolicyEngine
  pub settings : IdleSettings
  pub source_order : List Text
  pub has_audit : Bool
  pub lock_state_ttl_ns : ℕ
  pub lock : LockObservation
  pub idle_seen : IdleObservation  -- `_idle`
  pub lock_received_ns : ℕ
  pub active_since_ns : Option ℕ
  pub manual_idle_latch : Bool
  pub idle_uncertain_latch : Bool
  pub blocked : Bool
  pub block_reason : Option TransitionReason
  pub last_generation : Option ℕ
  pub last_failure : SessionSafetyFailureCode
  pub requests : List (Bool × TransitionReason)  -- the calls of the lifecycle

abbrev pub is_manual : IdleResumeBehavior → Bool
is_manual manual = true
is_manual _ = false

abbrev pub is_grace : IdleResumeBehavior → Bool
is_grace active_grace = true
is_grace _ = false

abbrev pub is_reason : Option TransitionReason → TransitionReason → Bool
is_reason none reason = false
is_reason (some r) reason = same_reason r reason

abbrev pub same_lock : LockState → LockState → Bool
same_lock locked locked = true
same_lock unlocked unlocked = true
same_lock lock_unknown lock_unknown = true
same_lock _ _ = false

abbrev pub same_idle : IdleState → IdleState → Bool
same_idle idle idle = true
same_idle active active = true
same_idle idle_unknown idle_unknown = true
same_idle _ _ = false

abbrev pub failure_or :
    Option SessionSafetyFailureCode → SessionSafetyFailureCode → SessionSafetyFailureCode
failure_or none code = code
failure_or (some failure) code = failure

-- The observation with its time `now` of arrival.
unfoldable pub normalize_lock : ℕ → ℕ → LockObservation → LockObservation
normalize_lock ttl now o =
    if ltb (now + clock_skew) o.observed_at
    then record o { state = lock_unknown; observed_at = now; failure_code = some malformed }
    else if is_unlocked o.state && ltb (o.observed_at + ttl) now
    then record o { state = lock_unknown; observed_at = now; failure_code = some stale }
    else o

module _ {S : Type 0} where
  -- `self._policy.set_session_locked(...)`
  unfoldable pub lock_policy : Bool → SessionSafetyController S → SessionSafetyController S
  lock_policy value c = record c { policy = set_session_locked value c.policy }

  unfoldable pub reject : SessionSafetyController S → SessionSafetyController S
  reject c = record (lock_policy true c) {
    last_failure = lifecycle_rejected;
    blocked = true;
    block_reason = some session_locked;
  }

  unfoldable pub settle :
      Bool → TransitionReason → SinkAnswer → SessionSafetyController S → SessionSafetyController S
  settle blocked reason sink_raises c = reject c
  settle blocked reason (sink_answers false generation) c =
      reject (record c { last_generation = generation })
  settle blocked reason (sink_answers true generation) c = record c {
    last_generation = generation;
    blocked = blocked;
    block_reason = if blocked then some reason else none;
  }

  unfoldable pub update_on_active :
      IdleState → IdleResumeBehavior → ℕ × S → SessionSafetyController S → SessionSafetyController S
  update_on_active idle manual clock c = record c { manual_idle_latch = true }
  update_on_active idle active_grace clock c = record c {
    active_since_ns = some clock.0;
    outside = clock.1;
  }
  update_on_active previous behavior clock c = c

  unfoldable pub set_lock :
      LockObservation → ℕ → SessionSafetyController S → SessionSafetyController S
  set_lock o received c = lock_policy (not (is_unlocked o.state)) (record c {
    lock = o;
    lock_received_ns = received;
    last_failure = failure_or o.failure_code c.last_failure;
  })

module _ {S : Type 0} (outside : Outside S) where
  unfoldable pub apply_lifecycle :
      Bool → TransitionReason → SessionSafetyController S → SessionSafetyController S
  apply_lifecycle blocked reason c =
      let (answer, s) = outside.apply blocked reason c.outside in
      settle blocked reason answer
        (record c { outside = s; requests = (blocked, reason) ∷ c.requests })

  unfoldable pub emit_audit : SessionSafetyController S → SessionSafetyController S
  emit_audit c =
      if not c.has_audit
      then c
      else let (taken, s) = outside.emit c.outside in
        if taken
        then record c { outside = s }
        else apply_lifecycle true session_locked
            (lock_policy true (record c { outside = s; last_failure = lifecycle_rejected }))

  -- The grace after the return of the user; its end is forgotten.
  unfoldable pub grace_blocked : ℕ → SessionSafetyController S → Bool × SessionSafetyController S
  grace_blocked since c =
      let (now, s) = outside.monotonic_ns c.outside in
      if ltb now (since + c.settings.active_grace_seconds)
      then (true, record c { outside = s })
      else (false, record c { outside = s; active_since_ns = none })

  unfoldable pub idle_blocked : SessionSafetyController S → Bool × SessionSafetyController S
  idle_blocked c =
      if not c.settings.enabled || not c.settings.pause_capture
      then (false, c)
      else if is_idle c.idle_seen.state
      then (true, c)
      else if c.idle_uncertain_latch
      then (true, c)
      else if is_manual c.settings.resume_behavior && c.manual_idle_latch
      then (true, c)
      else if not (is_grace c.settings.resume_behavior)
      then (false, c)
      else elim c.active_since_ns [ none ↦ (false, c) | some since ↦ grace_blocked since c ]

  unfoldable pub desired_block_reason :
      SessionSafetyController S → Option TransitionReason × SessionSafetyController S
  desired_block_reason c =
      if not (is_unlocked c.lock.state)
      then (some session_locked, c)
      else let (blocked, d) = idle_blocked c in (if blocked then some idle_reason else none, d)

  unfoldable pub reconcile_with :
      Option TransitionReason → SessionSafetyController S → SessionSafetyController S
  reconcile_with (some desired) c =
      if c.blocked && is_reason c.block_reason desired then c else apply_lifecycle true desired c
  reconcile_with none c =
      if not c.blocked
      then record c { block_reason = none }
      else if c.policy.privacy_mode
      then c
      else apply_lifecycle false
          (if is_reason c.block_reason session_locked then session_unlocked else active_reason) c

  unfoldable pub reconcile : SessionSafetyController S → SessionSafetyController S
  reconcile c = let (desired, d) = desired_block_reason c in reconcile_with desired d

  unfoldable pub apply_lock :
      LockObservation → SessionSafetyController S → SessionSafetyController S
  apply_lock observation c =
      let (now, s) = outside.now c.outside in
      let normalized = normalize_lock c.lock_state_ttl_ns now observation in
      let (received, t) = outside.monotonic_ns s in
      let d = set_lock normalized received (record c { outside = t }) in
      reconcile (if same_lock c.lock.state normalized.state then d else emit_audit d)

  unfoldable pub latch :
      IdleState → IdleState → SessionSafetyController S → SessionSafetyController S
  latch idle previous c = record c { active_since_ns = none; idle_uncertain_latch = false }
  latch idle_unknown previous c =
      if c.blocked && is_reason c.block_reason idle_reason
      then record c { idle_uncertain_latch = true }
      else c
  latch active previous c =
      update_on_active previous c.settings.resume_behavior (outside.monotonic_ns c.outside)
        (record c { idle_uncertain_latch = false })

  unfoldable pub update_resume_latches :
      IdleObservation → IdleObservation → SessionSafetyController S → SessionSafetyController S
  update_resume_latches previous current c = latch current.state previous.state c

  unfoldable pub resolve_idle :
      List IdleObservation → SessionSafetyController S → (IdleObservation × Bool) × S
  resolve_idle observations c =
      let (now, s) = outside.now c.outside in
      (resolve_idle_observations c.settings c.source_order now observations, s)

  unfoldable pub apply_idle :
      List IdleObservation → SessionSafetyController S → SessionSafetyController S
  apply_idle observations c =
      let (resolved, s) = resolve_idle observations c in
      let (normalized, conflict) = resolved in
      let failure = failure_or normalized.failure_code c.last_failure in
      let d = update_resume_latches c.idle_seen normalized (record c {
        outside = s;
        idle_seen = normalized;
        last_failure = if conflict then source_conflict else failure;
      }) in
      reconcile (if same_idle c.idle_seen.state normalized.state then d else emit_audit d)

  unfoldable pub replace_idle_settings :
      IdleSettings → SessionSafetyController S → SessionSafetyController S
  replace_idle_settings settings c =
      let d : SessionSafetyController S = record c { settings = settings } in
      reconcile (
        if not (is_some c.idle_seen.idle_seconds)
        then d
        else let (resolved, s) = resolve_idle (c.idle_seen ∷ []) d in
          let (normalized, conflict) = resolved in
          update_resume_latches c.idle_seen normalized (record d {
            outside = s;
            idle_seen = normalized;
            last_failure = if conflict then source_conflict else c.last_failure;
          }))

  unfoldable pub acknowledge_idle_resume : SessionSafetyController S → SessionSafetyController S
  acknowledge_idle_resume c = reconcile (record c { manual_idle_latch = false })

  -- A lock that was unlocked too long ago is not known any more.
  unfoldable pub expire_lock : SessionSafetyController S → SessionSafetyController S
  expire_lock c =
      let (now, s) = outside.now c.outside in
      emit_audit (
        lock_policy true (record c {
          outside = s;
          lock = record c.lock {
            state = lock_unknown;
            observed_at = now;
            failure_code = some stale;
          };
          last_failure = stale;
        }))

  unfoldable pub refresh : SessionSafetyController S → SessionSafetyController S
  refresh c = reconcile (
      if not (is_unlocked c.lock.state)
      then c
      else let (now, s) = outside.monotonic_ns c.outside in
        let d : SessionSafetyController S = record c { outside = s } in
        if ltb (c.lock_received_ns + c.lock_state_ttl_ns) now then expire_lock d else d)

-- A call of the controller by any thread.
pub data Event : Type 0 where
  lock_seen : LockObservation → Event
  idle_sources : List IdleObservation → Event
  settings_replaced : IdleSettings → Event
  resume_acknowledged refreshed : Event

module _ {S : Type 0} (outside : Outside S) where
  unfoldable pub handle : Event → SessionSafetyController S → SessionSafetyController S
  handle (lock_seen observation) c = apply_lock outside observation c
  handle (idle_sources observations) c = apply_idle outside observations c
  handle (settings_replaced settings) c = replace_idle_settings outside settings c
  handle resume_acknowledged c = acknowledge_idle_resume outside c
  handle refreshed c = refresh outside c

  unfoldable pub handle_all : List Event → SessionSafetyController S → SessionSafetyController S
  handle_all [] c = c
  handle_all (e ∷ rest) c = handle_all rest (handle e c)
