-- ===== src/Lifecycle/Actor/Inbox.antt =====
-- Stop and fault return and leave the actor settled, and every message leaves it settled.
use local_recall.Common.{
  ℕ, ◌≡◌, refl, true, false, inl, inr, Bool-cases, Option-cases, none, some, List, [], ◌∷◌,
  if◌then◌else◌,
}
use local_recall.Common.Exec.{Outcome, pure, continue}
use local_recall.Lifecycle.State.{
  CaptureState, off, starting, recording, paused, stopping, faulted, TransitionReason,
  critical_fault, LifecycleError, same_state, is_active_state,
}
use local_recall.Lifecycle.Gate.Moves.{IsAt, begin_stopping-IsAt, finish_off-IsAt}
use local_recall.Lifecycle.Gate.Transitions
use local_recall.Lifecycle.Messages.{
  LifecycleFaultCode, actor_failure, LifecycleCommandResult, Message,
}
use local_recall.Lifecycle.Actor.{Environment, LifecycleActor, result}
use local_recall.Lifecycle.Actor.Control.{state_at, on_gate_of-Reaches, clear_buffers-Reaches}
use local_recall.Lifecycle.Actor.Settled.{
  may_rest, IsSettled, Settles, Ends, result-Settles, enter_fault-Settles, audited-Settles,
  drained-Settles,
}
use local_recall.Lifecycle.Actor.Receive.{
  stop_faulted, finish_stop, stop_running, handle_stop, handle_fault, on_receive, receive_all,
}
use local_recall.Lifecycle.Actor.Safety.{
  handle_start-Ends, handle_pause-Settles, handle_resume-Settles, handle_preflight_complete-Settles,
}
use local_recall.Lifecycle.Actor.Blocks.{handle_automatic_block-Settles}

module _ (env : Environment) (me : ℕ) where
  stop_faulted-Settles :
      (reason : TransitionReason) (a : LifecycleActor)
      → IsAt me faulted a.gate
      → Settles me (stop_faulted env me reason a)
  unfolding stop_faulted may_rest
  stop_faulted-Settles reason a h =
      let (code, a1, e1, w1) = clear_buffers-Reaches env me faulted a h in
      rw e1 (elim (Option-cases code) [
        | inl t ↦
            let (transition, a2, e2, w2) =
              on_gate_of-Reaches me off (Transitions.finish_off me reason) a1
                (finish_off-IsAt me reason a1.gate faulted refl w1.gate) in
            rw (t, e2)
              (audited-Settles env me off transition (result true true "off" none) a2 w2.gate
                (λ b v. result-Settles env me off true true "off" none b v.gate refl))
        | inr (found, t) ↦ rw t (
            result-Settles env me faulted false false "buffer_clear_failure" (some found) a1 w1.gate
              refl)
      ])

  finish_stop-Settles :
      (reason : TransitionReason) (a : LifecycleActor)
      → IsAt me stopping a.gate
      → Settles me (finish_stop env me reason a)
  unfolding finish_stop may_rest
  finish_stop-Settles reason a h =
      let (transition, b, e, w) =
        on_gate_of-Reaches me off (Transitions.finish_off me reason) a
          (finish_off-IsAt me reason a.gate stopping refl h) in
      rw e (
        audited-Settles env me off transition (result true true "off" none) b w.gate
          (λ b v. result-Settles env me off true true "off" none b v.gate refl))

  stop_running-Settles :
      (reason : TransitionReason) (c : CaptureState) (a : LifecycleActor)
      → is_active_state c ≡ true
      → IsAt me c a.gate
      → Settles me (stop_running env me reason a)
  unfolding stop_running
  stop_running-Settles reason c a t h =
      let ((generation, transition), b, e, w) =
        on_gate_of-Reaches me stopping (Transitions.begin_stopping me reason) a
          (begin_stopping-IsAt me reason a.gate c t h) in
      rw e (
        audited-Settles env me stopping transition _ b w.gate (λ d v.
          drained-Settles env me stopping generation _ d v.gate
            (λ d' u. finish_stop-Settles reason d' u.gate)))

  handle_stop-Settles :
      (reason : TransitionReason) (c : CaptureState) (a : LifecycleActor)
      → IsAt me c a.gate
      → may_rest a.automatic_pause_reason c ≡ true
      → Settles me (handle_stop env me reason a)
  unfolding handle_stop may_rest
  handle_stop-Settles reason c a h e =
      let b : LifecycleActor = record a { manual_pause = false } in
      let (current, k, s, _) = state_at b h in rw (k, s) (go c h e)
    where
      go :
          (c : CaptureState)
          → IsAt me c a.gate
          → may_rest a.automatic_pause_reason c ≡ true
          → Settles me (
              (if same_state c off
                  then result true false "already_off" none
                  else if same_state c faulted
                  then stop_faulted env me reason
                  else stop_running env me reason)
                (record a { manual_pause = false }))
      go off k e = result-Settles env me off true false "already_off" none _ k refl
      go faulted k e = stop_faulted-Settles reason _ k
      go starting k e = stop_running-Settles reason starting _ refl k
      go recording k e = stop_running-Settles reason recording _ refl k
      go paused k e = stop_running-Settles reason paused _ refl k
      go c k e = cc

  handle_fault-Settles :
      (code : LifecycleFaultCode) (reason : TransitionReason) (c : CaptureState)
      (a : LifecycleActor)
      → IsAt me c a.gate
      → may_rest a.automatic_pause_reason c ≡ true
      → Settles me (handle_fault env me code reason a)
  unfolding handle_fault
  handle_fault-Settles code reason c a h e =
      let (_, k, s, _) = state_at a h in
      rw (k, s)
        (elim (Bool-cases (same_state c faulted)) [
          | inl t ↦ rw t (result-Settles env me c true false "already_faulted" (some code) a h e)
          | inr t ↦ rw t (enter_fault-Settles env me c code reason true a h)
        ])

  answered :
      (o : Outcome LifecycleActor LifecycleError LifecycleCommandResult)
      → Settles me o
      → Settles me (continue o (λ r. pure (some r)))
  answered o (r, b, e, k) = rw e (some r, b, refl, k)

  answered-Ends :
      (o : Outcome LifecycleActor LifecycleError LifecycleCommandResult)
      → Ends env me o
      → Ends env me (continue o (λ r. pure (some r)))
  answered-Ends o (inl s) = inl (answered o s)
  answered-Ends o (inr (n, b, t, e, at, k)) = inr (n, b, t, rw e refl, at, k)

  -- A settled lifecycle actor is settled again after every message, whatever the outside answers (the
  -- clock always does) and whatever the workers do at the gate meanwhile: its gate is valid and its
  -- own, neither stopping nor in the state `privacy`, and not recording while a safety latch is set.
  -- The message is handled without an exception, but for one case: the preflight actor dies after it
  -- was seen alive and before it is told to start; then the exception leaves the gate starting.
  pub on_receive-Ends :
      (message : Message) (a : LifecycleActor)
      → IsSettled me a
      → Ends env me (on_receive env me message a)
  unfolding on_receive
  on_receive-Ends message a i = go message
    where
      h : IsAt me a.gate.state a.gate
      h = record { valid = i.valid; owner = i.owner; at = refl }

      go : (message : Message) → Ends env me (on_receive env me message a)
      go Message.get_snapshot = let (r, k, _, _) = state_at a h in rw k (inl (none, a, refl, i))
      go (Message.start reason) = answered-Ends _ (handle_start-Ends env me reason _ a h i.rests)
      go (Message.pause reason) =
          inl (answered _ (handle_pause-Settles env me reason _ a h i.rests))
      go (Message.resume reason) =
          inl (answered _ (handle_resume-Settles env me reason _ a h i.rests))
      go (Message.automatic_block command) =
          inl (answered _ (handle_automatic_block-Settles env me command _ a h i.rests))
      go (Message.stop reason) = inl (answered _ (handle_stop-Settles reason _ a h i.rests))
      go (Message.fault code reason) =
          inl (answered _ (handle_fault-Settles code reason _ a h i.rests))
      go (Message.preflight_complete message) =
          inl (answered _ (handle_preflight_complete-Settles env me message _ a h i.rests))
      go Message.unsupported =
          inl (answered _ (enter_fault-Settles env me _ actor_failure critical_fault true a h))

  -- A row of messages leaves a settled lifecycle actor settled.
  pub receive_all-IsSettled :
      (messages : List Message) (a : LifecycleActor)
      → IsSettled me a
      → IsSettled me (receive_all env me messages a)
  unfolding receive_all
  receive_all-IsSettled [] a i = i
  receive_all-IsSettled (message ∷ rest) a i = elim (on_receive-Ends message a i) [
    | inl (r, b, e, k) ↦ rw e (receive_all-IsSettled rest b k)
    | inr (n, b, t, e, at, k) ↦ rw e (receive_all-IsSettled rest b k)
  ]
