-- ===== src/Lifecycle/Actor/Handlers.antt =====
-- src/local_recall/lifecycle/actor.py: the handlers of start, preflight completion, pause and resume.
use local_recall.Common.{
  ℕ, ◌+◌, true, false, not, ◌||◌, Option, none, some, ◌∷◌, [], ◌++◌, if◌then◌else◌, same_option,
}
use local_recall.Common.Exec.{raised, pure, gets, modify, ◌>>=◌, ◌>>◌}
use local_recall.Lifecycle.State.{
  off, starting, recording, paused, TransitionReason, critical_fault, CaptureGeneration,
  CaptureStateSnapshot, actor_is_dead, same_state,
}
use local_recall.Lifecycle.Gate.{snapshot}
use local_recall.Lifecycle.Gate.Transitions
use local_recall.Lifecycle.Messages.{
  LifecycleFaultCode, preflight_failure, ConfigurationSnapshot, CompleteLifecyclePreflight,
  RunLifecyclePreflight, LifecycleCommandResult,
}
use local_recall.Lifecycle.Actor.{
  Environment, Actor, on_gate_of, result, external, drain_generation, enter_fault, audited,
}

-- `reason or other`
abbrev pub or_reason : Option TransitionReason → Option TransitionReason → Option TransitionReason
or_reason none other = other
or_reason (some reason) other = some reason

module _ (env : Environment) where
  -- `preflight_ref.tell(...)`: the preflight actor may have died after it was seen alive.
  unfoldable pub tell_preflight : RunLifecyclePreflight → Actor LifecycleCommandResult
  tell_preflight message = do
    told ← external env env.preflight_told
    if not told then (λ s. raised actor_is_dead s) else do
      modify (λ s. record s { preflights = s.preflights ++ message ∷ [] })
      result true true "starting" none

module _ (env : Environment) (me : ℕ) where
  -- The common end of an automatic pause and of a stop: drain, and fault when that fails.
  unfoldable pub drained :
      Option CaptureGeneration → Actor LifecycleCommandResult → Actor LifecycleCommandResult
  drained generation rest = do
    fault_code ← drain_generation env generation
    elim fault_code [ none ↦ rest | some code ↦ enter_fault env me code critical_fault false ]

  -- The tail of `_handle_start`: hand the preflight over.
  unfoldable pub run_preflight :
      ConfigurationSnapshot → CaptureGeneration → TransitionReason → Actor LifecycleCommandResult
  run_preflight configuration generation reason = do
    has_ref ← gets (λ s. s.has_preflight_ref)
    alive ← (if has_ref then external env env.preflight_alive else pure false)
    if not alive then enter_fault env me preflight_failure critical_fault true else do
      now ← external env env.monotonic_ns
      tell_preflight env (record {
        configuration = configuration;
        generation = generation;
        deadline_monotonic_ns = now + env.preflight_timeout_ns;
        reason = reason;
      })

  unfoldable pub start_off : TransitionReason → Actor LifecycleCommandResult
  start_off reason = do
    configuration ← external env env.configuration
    elim configuration [
      | none ↦ enter_fault env me preflight_failure critical_fault true
      | some configuration ↦
          if not configuration.capture_permitted
          then result false false "capture_disabled_by_configuration" none
          else do
            (generation, transition) ←
                on_gate_of (Transitions.begin_start me reason configuration.revision)
            audited env me transition (run_preflight configuration generation reason)
    ]

  unfoldable pub handle_start : TransitionReason → Actor LifecycleCommandResult
  handle_start reason = do
    current ← on_gate_of snapshot
    if same_state current.state recording || same_state current.state starting
        then result true false "already_started" none
        else if same_state current.state paused
        then result false false "capture_paused" none
        else if not (same_state current.state off)
        then result false false "invalid_start_state" none
        else start_off reason

  -- A preflight that is ready: pause for session safety, or record.
  unfoldable pub complete_ready :
      CompleteLifecyclePreflight → Option TransitionReason → Actor LifecycleCommandResult
  complete_ready message none = do
    transition ← on_gate_of (Transitions.mark_recording me message.generation message.reason)
    audited env me transition (result true true "recording" none)
  complete_ready message (some pause_reason) = do
    (generation, transition) ← on_gate_of (Transitions.invalidate_and_pause me pause_reason)
    modify (λ s. record s { automatic_pause_reason = some pause_reason })
    audited env me transition (drained generation (result true true "session_safety_paused" none))

  -- `message.result.fault_code or PREFLIGHT_FAILURE`
  abbrev failed_code : Option LifecycleFaultCode → LifecycleFaultCode
  failed_code none = preflight_failure
  failed_code (some code) = code

  unfoldable pub handle_preflight_complete :
      CompleteLifecyclePreflight → Actor LifecycleCommandResult
  handle_preflight_complete message = do
    current ← on_gate_of snapshot
    latched ← gets (λ s. s.automatic_pause_reason)
    if not (same_state current.state starting)
          || not (same_option current.generation (some message.generation))
        then result false false "stale_preflight_ignored" none
        else if not message.result.ready
        then enter_fault env me (failed_code message.result.fault_code) critical_fault true
        else complete_ready message (or_reason message.result.start_paused_reason latched)

  unfoldable pub handle_pause : TransitionReason → Actor LifecycleCommandResult
  handle_pause reason = do
    current ← on_gate_of snapshot
    if same_state current.state paused
        then (do
          modify (λ s. record s { manual_pause = true })
          result true false "already_paused" none)
        else if not (same_state current.state recording)
        then result false false "invalid_pause_state" none
        else do
          modify (λ s. record s { manual_pause = true })
          transition ← on_gate_of (Transitions.pause me reason)
          audited env me transition (result true true "paused" none)

  unfoldable pub resume_unblocked :
      TransitionReason → CaptureStateSnapshot → Actor LifecycleCommandResult
  resume_unblocked reason current =
      if same_state current.state recording
      then (do
        modify (λ s. record s { manual_pause = false })
        result true false "already_recording" none)
      else if not (same_state current.state paused)
      then result false false "invalid_resume_state" none
      else do
        transition ← on_gate_of (Transitions.resume me reason)
        modify (λ s. record s { manual_pause = false })
        audited env me transition (result true true "recording" none)

  unfoldable pub handle_resume : TransitionReason → Actor LifecycleCommandResult
  handle_resume reason = do
    current ← on_gate_of snapshot
    latched ← gets (λ s. s.automatic_pause_reason)
    elim latched [
      | some _ ↦ result false false "session_safety_blocked" none
      | none ↦ resume_unblocked reason current
    ]
