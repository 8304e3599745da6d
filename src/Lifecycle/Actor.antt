-- ===== src/Lifecycle/Actor.antt =====
-- src/local_recall/lifecycle/actor.py: the lifecycle actor, which takes one message at a time and is
-- the only owner of the gate. Whatever it calls outside is answered by an `Environment`; while it
-- waits for an answer, worker threads may use the gate.
pub mod Handlers
pub mod Receive
pub mod Hooks
pub mod Preflight
pub mod Completion
pub mod Control
pub mod Settled
pub mod Safety
pub mod Blocks
pub mod Inbox
pub mod Tests
use local_recall.Common.{
  ℕ, ◌+◌, Bool, true, false, not, ◌&&◌, ◌||◌, String, Option, none, some, List, [], ◌∷◌, ◌++◌, ◌==◌,
  if◌then◌else◌, leb, ltb, is_some,
}
use local_recall.Common.Exec.{Outcome, returned, raised, Exec, pure, gets, modify, ◌>>=◌, ◌>>◌}
use local_recall.Lifecycle.State.{
  CaptureState, off, starting, recording, paused, stopping, faulted, TransitionReason,
  LifecycleError, session_locked, session_unlocked, idle, active, critical_fault, CaptureGeneration,
  CaptureStateTransition, CaptureStateSnapshot, same_state,
}
use local_recall.Lifecycle.Gate.{CaptureGate, Gate, snapshot}
use local_recall.Lifecycle.Gate.Permits.{running_operations}
use local_recall.Lifecycle.Gate.Transitions
use local_recall.Lifecycle.Messages.{
  LifecycleFaultCode, preflight_failure, cancellation_failure, quiescence_timeout,
  buffer_clear_failure, audit_failure, ConfigurationSnapshot, RunLifecyclePreflight,
  LifecycleCommandResult, LifecycleAuditEvent,
}
use local_recall.Lifecycle.Workers.{WorkerAction, meanwhile}

-- The answers of everything outside, by the number of the call. `false` where an answer is a
-- Boolean stands for an exception, or for a wait that timed out. The clock does not raise.
pub record Environment : Type 0 where
  pub configuration : ℕ → Option ConfigurationSnapshot
  pub preflight_alive : ℕ → Bool
  pub preflight_told : ℕ → Bool  -- `false`: `tell` raises `ActorDeadError`
  pub monotonic_ns : ℕ → ℕ
  pub preflight_timeout_ns : ℕ
  pub audit_accepts : ℕ → Bool
  pub queued_cancelled : ℕ → Bool
  pub in_flight_cancelled : ℕ → Bool
  pub time_left : ℕ → Bool
  pub pipeline_quiescent : ℕ → Bool
  pub buffers_cleared : ℕ → Bool
  pub workers : ℕ → List WorkerAction

pub record LifecycleActor : Type 0 where
  pub gate : CaptureGate
  pub has_preflight_ref : Bool
  pub manual_pause : Bool
  pub automatic_pause_reason : Option TransitionReason
  pub audit_events : List LifecycleAuditEvent  -- what the audit sink has accepted
  pub preflights : List RunLifecyclePreflight  -- what the preflight actor was told
  pub calls : ℕ

abbrev pub Actor : Type 0 → Type 0
Actor A = Exec LifecycleActor LifecycleError A

-- A call of a method of the gate.
on_gate :
    {A : Type 0}
    → Outcome CaptureGate LifecycleError A
    → LifecycleActor
    → Outcome LifecycleActor LifecycleError A
on_gate (returned a gate) s = returned a (record s { gate = gate })
on_gate (raised e gate) s = raised e (record s { gate = gate })

unfoldable pub on_gate_of : {A : Type 0} → Gate A → Actor A
unfolding on_gate
on_gate_of m s = on_gate (m s.gate) s

unfoldable pub result :
    Bool → Bool → String → Option LifecycleFaultCode → Actor LifecycleCommandResult
result accepted changed reason_code fault_code = do
  current ← on_gate_of snapshot
  pure (record {
    accepted = accepted;
    changed = changed;
    snapshot = current;
    reason_code = reason_code;
    fault_code = fault_code;
  })

module _ (env : Environment) where
  -- A call of something outside.
  unfoldable pub external : {A : Type 0} → (ℕ → A) → Actor A
  external answer s =
      returned (answer s.calls)
        (record s { calls = s.calls + 1; gate = meanwhile (env.workers s.calls) s.gate })

  unfoldable pub clear_buffers : Actor (Option LifecycleFaultCode)
  clear_buffers = do
    cleared ← external env.buffers_cleared
    pure (if cleared then none else some buffer_clear_failure)

  -- `self._gate.wait_for_operations(generation, remaining)`
  unfoldable pub wait_for_operations : CaptureGeneration → Actor Bool
  wait_for_operations generation = do
    external (λ _. tt)
    gate ← gets (λ s. s.gate)
    pure (running_operations gate generation == 0)

  -- `fault_code or other`
  abbrev or_code : Option LifecycleFaultCode → Option LifecycleFaultCode → Option LifecycleFaultCode
  or_code none other = other
  or_code (some code) other = some code

  unfoldable pub drain : CaptureGeneration → Actor (Option LifecycleFaultCode)
  drain generation = do
    queued ← external env.queued_cancelled
    in_flight ← external env.in_flight_cancelled
    left ← external env.time_left
    gate_quiescent ← (if left then wait_for_operations generation else pure false)
    left ← external env.time_left
    pipeline_quiescent ← (if left then external env.pipeline_quiescent else pure false)
    clear_failure ← clear_buffers
    pure (
        or_code (if queued && in_flight then none else some cancellation_failure) (
          or_code (if gate_quiescent && pipeline_quiescent then none else some quiescence_timeout)
            clear_failure))

  unfoldable pub drain_generation : Option CaptureGeneration → Actor (Option LifecycleFaultCode)
  drain_generation none = clear_buffers
  drain_generation (some generation) = drain generation

  -- The call of the audit sink in `_emit_transition`.
  unfoldable pub emit : CaptureStateTransition → Option LifecycleFaultCode → Actor Bool
  emit transition fault_code = do
    revision ← gets (λ s. s.gate.configuration_revision)
    accepted ← external env.audit_accepts
    modify (λ s.
        if accepted
        then record s {
          audit_events =
              s.audit_events
              ++ record {
                previous = transition.previous;
                current = transition.current;
                reason = transition.reason;
                generation = transition.generation;
                configuration_revision = revision;
                fault_code = fault_code;
              }
                ∷ [];
        }
        else s)
    pure accepted

  module _ (me : ℕ) where
    unfoldable pub enter_fault :
        LifecycleFaultCode → TransitionReason → Bool → Actor LifecycleCommandResult
    enter_fault fault_code reason drains = do
      current ← on_gate_of snapshot
      if same_state current.state faulted
          then result false false "faulted" (some fault_code)
          else do
            (generation, transition) ← on_gate_of (Transitions.fault me reason)
            emit transition (some fault_code)
            (if drains then (drain_generation generation >> pure tt) else pure tt)
            result false true "faulted" (some fault_code)

    -- `_emit_transition` with `fail_closed`: a refused event faults the gate.
    unfoldable pub emit_transition : CaptureStateTransition → Actor Bool
    emit_transition transition = do
      accepted ← emit transition none
      if accepted then pure true else do
        current ← on_gate_of snapshot
        (if same_state current.state faulted
            then pure tt
            else (enter_fault audit_failure critical_fault true >> pure tt))
        pure false

    -- The result after a transition whose audit event is emitted.
    unfoldable pub audited :
        CaptureStateTransition → Actor LifecycleCommandResult → Actor LifecycleCommandResult
    audited transition rest = do
      emitted ← emit_transition transition
      if emitted then rest else result false true "audit_failure" (some audit_failure)
