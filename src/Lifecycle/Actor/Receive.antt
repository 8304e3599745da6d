-- ===== src/Lifecycle/Actor/Receive.antt =====
-- src/local_recall/lifecycle/actor.py: the automatic block, stop and fault, and the inbox.
use local_recall.Common.{
  ℕ, Bool, true, false, not, ◌&&◌, ◌||◌, Option, none, some, List, [], ◌∷◌, if◌then◌else◌, is_some,
}
use local_recall.Common.Exec.{after, pure, gets, modify, ◌>>=◌, ◌>>◌}
use local_recall.Lifecycle.State.{
  off, paused, stopping, faulted, TransitionReason, session_locked, session_unlocked, idle, active,
  critical_fault, CaptureStateSnapshot, same_state, same_reason,
}
use local_recall.Lifecycle.Gate.{snapshot}
use local_recall.Lifecycle.Gate.Transitions
use local_recall.Lifecycle.Messages.{
  LifecycleFaultCode, actor_failure, SetAutomaticCaptureBlock, Message, LifecycleCommandResult,
}
use local_recall.Lifecycle.Actor.{
  Environment, LifecycleActor, Actor, on_gate_of, result, clear_buffers, enter_fault, audited,
}
use local_recall.Lifecycle.Actor.Handlers.{
  drained, handle_start, handle_preflight_complete, handle_pause, handle_resume,
}

-- `self._automatic_pause_reason is reason`
abbrev pub latched_for : Option TransitionReason → TransitionReason → Bool
latched_for none reason = false
latched_for (some latch) reason = same_reason latch reason

-- `SESSION_UNLOCKED if self._automatic_pause_reason is SESSION_LOCKED else ACTIVE`
abbrev pub expected_release : Option TransitionReason → TransitionReason
expected_release latch = if latched_for latch session_locked then session_unlocked else active

module _ (env : Environment) (me : ℕ) where
  -- The tail of `_handle_automatic_block` with `blocked`: latch the reason, and pause.
  unfoldable pub latch_block :
      TransitionReason → CaptureStateSnapshot → Actor LifecycleCommandResult
  latch_block reason current = do
    modify (λ s. record s { automatic_pause_reason = some reason })
    if same_state current.state off
          || same_state current.state stopping
          || same_state current.state faulted
        then result true false "session_safety_latched" none
        else do
          (generation, transition) ← on_gate_of (Transitions.invalidate_and_pause me reason)
          audited env me transition
              (drained env me generation (result true true "session_safety_paused" none))

  unfoldable pub set_block : TransitionReason → CaptureStateSnapshot → Actor LifecycleCommandResult
  set_block reason current = do
    latch ← gets (λ s. s.automatic_pause_reason)
    if latched_for latch session_locked && same_reason reason idle
        then result true false "stronger_safety_block_active" none
        else if latched_for latch reason && same_state current.state paused
        then result true false "session_safety_already_blocked" none
        else latch_block reason current

  -- The tail of `_handle_automatic_block` without `blocked`: clear the latch, and resume.
  unfoldable pub release_block :
      TransitionReason → CaptureStateSnapshot → Actor LifecycleCommandResult
  release_block reason current = do
    modify (λ s. record s { automatic_pause_reason = none })
    manual ← gets (λ s. s.manual_pause)
    if not (same_state current.state paused) || manual
        then result true false "manual_pause_retained" none
        else do
          transition ← on_gate_of (Transitions.resume me reason)
          audited env me transition (result true true "recording" none)

  unfoldable pub clear_block :
      TransitionReason → CaptureStateSnapshot → Actor LifecycleCommandResult
  clear_block reason current = do
    latch ← gets (λ s. s.automatic_pause_reason)
    if not (is_some latch)
        then result true false "session_safety_already_clear" none
        else if not (same_reason reason (expected_release latch))
        then result false false "session_safety_release_mismatch" none
        else release_block reason current

  unfoldable pub handle_automatic_block : SetAutomaticCaptureBlock → Actor LifecycleCommandResult
  handle_automatic_block command = do
    current ← on_gate_of snapshot
    if command.blocked then set_block command.reason current else clear_block command.reason current

  unfoldable pub stop_faulted : TransitionReason → Actor LifecycleCommandResult
  stop_faulted reason = do
    fault_code ← clear_buffers env
    elim fault_code [
      | some code ↦ result false false "buffer_clear_failure" (some code)
      | none ↦ do
        transition ← on_gate_of (Transitions.finish_off me reason)
        audited env me transition (result true true "off" none)
    ]

  -- The end of `_handle_stop` after a drain without a fault.
  unfoldable pub finish_stop : TransitionReason → Actor LifecycleCommandResult
  finish_stop reason = do
    transition ← on_gate_of (Transitions.finish_off me reason)
    audited env me transition (result true true "off" none)

  unfoldable pub stop_running : TransitionReason → Actor LifecycleCommandResult
  stop_running reason = do
    (generation, transition) ← on_gate_of (Transitions.begin_stopping me reason)
    audited env me transition (drained env me generation (finish_stop reason))

  unfoldable pub handle_stop : TransitionReason → Actor LifecycleCommandResult
  handle_stop reason = do
    modify (λ s. record s { manual_pause = false })
    current ← on_gate_of snapshot
    if same_state current.state off
        then result true false "already_off" none
        else if same_state current.state faulted
        then stop_faulted reason
        else stop_running reason

  unfoldable pub handle_fault : LifecycleFaultCode → TransitionReason → Actor LifecycleCommandResult
  handle_fault fault_code reason = do
    current ← on_gate_of snapshot
    if same_state current.state faulted
        then result true false "already_faulted" (some fault_code)
        else enter_fault env me fault_code reason true

  -- One message of the inbox; the answer to a snapshot request is the snapshot.
  unfoldable pub on_receive : Message → Actor (Option LifecycleCommandResult)
  on_receive Message.get_snapshot = on_gate_of snapshot >> pure none
  on_receive (Message.start reason) = handle_start env me reason >>= λ r. pure (some r)
  on_receive (Message.pause reason) = handle_pause env me reason >>= λ r. pure (some r)
  on_receive (Message.resume reason) = handle_resume env me reason >>= λ r. pure (some r)
  on_receive (Message.automatic_block command) =
      handle_automatic_block command >>= λ r. pure (some r)
  on_receive (Message.stop reason) = handle_stop reason >>= λ r. pure (some r)
  on_receive (Message.fault code reason) = handle_fault code reason >>= λ r. pure (some r)
  on_receive (Message.preflight_complete message) =
      handle_preflight_complete env me message >>= λ r. pure (some r)
  on_receive Message.unsupported =
      enter_fault env me actor_failure critical_fault true >>= λ r. pure (some r)

  -- The actor after a row of messages.
  unfoldable pub receive_all : List Message → LifecycleActor → LifecycleActor
  receive_all [] s = s
  receive_all (message ∷ rest) s = receive_all rest (after (on_receive message s))
