-- ===== src/Lifecycle/Actor/Hooks.antt =====
-- src/local_recall/lifecycle/actor.py: the start and the end of the lifecycle actor, and the actor that
-- runs the preflight.
use local_recall.Common.{ℕ, ◌||◌, true, false, Option, none, some, ltb, if◌then◌else◌}
use local_recall.Common.Exec.{Outcome, returned, raised, pure, gets, modify, continue, ◌>>=◌, ◌>>◌}
use local_recall.Lifecycle.State.{
  off, faulted, LifecycleError, capture_gate_closed, stale_capture_generation, critical_fault,
  shutdown, startup_opt_in, same_state,
}
use local_recall.Lifecycle.Gate.{
  CaptureGate, CaptureWorkPermit, snapshot, acquire_preflight_operation, release_operation,
}
use local_recall.Lifecycle.Gate.Transitions
use local_recall.Lifecycle.Messages.{
  preflight_failure, preflight_timeout, actor_failure, shutdown_failure, LifecyclePreflightResult,
  failure, RunLifecyclePreflight, CompleteLifecyclePreflight,
}
use local_recall.Lifecycle.Actor.{
  Environment, LifecycleActor, Actor, on_gate_of, external, enter_fault,
}
use local_recall.Lifecycle.Actor.Handlers.{handle_start}
use local_recall.Lifecycle.Actor.Receive.{handle_stop}

-- The `finally` of a `try` statement, after the outcome of its body.
unfoldable pub finally :
    Actor Unit
    → Outcome LifecycleActor LifecycleError Unit
    → Outcome LifecycleActor LifecycleError Unit
finally cleanup (returned a s) = cleanup s
finally cleanup (raised e s) = continue (cleanup s) (λ _ t. raised e t)

module _ (env : Environment) (me : ℕ) where
  -- `preflight_ref.stop(...)` is an outside call, made while the preflight actor is alive.
  unfoldable pub stop_preflight_actor : Actor Unit
  stop_preflight_actor = do
    has_ref ← gets (λ s. s.has_preflight_ref)
    modify (λ s. record s { has_preflight_ref = false })
    alive ← (if has_ref then external env env.preflight_alive else pure false)
    if alive then external env (λ _. tt) else pure tt

  unfoldable pub on_start : Actor Unit
  on_start = do
    on_gate_of (Transitions.bind_owner me)
    modify (λ s. record s { has_preflight_ref = true })
    configuration ← external env env.configuration
    elim configuration [
      | none ↦ enter_fault env me preflight_failure critical_fault true >> pure tt
      | some configuration ↦
          if configuration.capture_permitted
          then handle_start env me startup_opt_in >> pure tt
          else pure tt
    ]

  unfoldable pub shut_down : Actor Unit
  shut_down = do
    current ← on_gate_of snapshot
    if same_state current.state off then pure tt else do
      stopped ← handle_stop env me shutdown
      if same_state stopped.snapshot.state off || same_state stopped.snapshot.state faulted
          then pure tt
          else (enter_fault env me shutdown_failure critical_fault true >> pure tt)

  unfoldable pub let_go : Actor Unit
  let_go = stop_preflight_actor >> on_gate_of (Transitions.release_owner me)

  unfoldable pub on_stop : Actor Unit
  on_stop s = finally let_go (shut_down s)

  unfoldable pub on_failure : Actor Unit
  on_failure = enter_fault env me actor_failure critical_fault true >> let_go

-- `LifecyclePreflight.check`: its result, or an exception.
abbrev pub Check : Type 0
Check = CaptureWorkPermit → Option LifecyclePreflightResult

abbrev checked : Option LifecyclePreflightResult → LifecyclePreflightResult
checked none = failure preflight_failure
checked (some result) = result

abbrev in_time : RunLifecyclePreflight → ℕ → LifecyclePreflightResult → CompleteLifecyclePreflight
in_time message now result = record {
  generation = message.generation;
  result = if ltb message.deadline_monotonic_ns now then failure preflight_timeout else result;
  reason = message.reason;
}

-- `_LifecyclePreflightActor.on_receive`: the message to the lifecycle actor, if any, and the gate.
-- `now` is the clock after the check.
unfoldable pub preflight_receive :
    Check
    → ℕ
    → RunLifecyclePreflight
    → CaptureGate
    → Option CompleteLifecyclePreflight × CaptureGate
preflight_receive check now message gate =
    elim (acquire_preflight_operation message.generation gate) [
      | returned permit gate' ↦ (
        some (in_time message now (checked (check permit))),
        release_operation permit.generation gate',
      )
      | raised capture_gate_closed gate' ↦ (none, gate')
      | raised stale_capture_generation gate' ↦ (none, gate')
      | raised _ gate' ↦ (some (in_time message now (checked none)), gate')
    ]
