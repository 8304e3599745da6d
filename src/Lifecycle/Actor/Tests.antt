-- ===== src/Lifecycle/Actor/Tests.antt =====
-- The theorems of the lifecycle actor at concrete actors.
use local_recall.Common.{◌≡◌, refl, true, false, none, some, [], ◌∷◌, arith}
use local_recall.Lifecycle.State.{
  recording, starting, faulted, startup_opt_in, session_locked, critical_fault,
  CaptureStateTransition,
}
use local_recall.Lifecycle.Gate.{CaptureGate, acquire_preflight_operation}
use local_recall.Lifecycle.Gate.Moves.{IsAt}
use local_recall.Lifecycle.Messages.{
  preflight_failure, Message, audit_failure, RunLifecyclePreflight, CompleteLifecyclePreflight,
}
use local_recall.Lifecycle.Actor.{Environment, LifecycleActor, enter_fault}
use local_recall.Lifecycle.Actor.Hooks.{Check, preflight_receive}
use local_recall.Lifecycle.Actor.Completion.{failed_preflight}
use local_recall.Lifecycle.Actor.Handlers.{handle_preflight_complete}
use local_recall.Lifecycle.Actor.Control.{Reaches, enter_fault-Reaches}
use local_recall.Lifecycle.Actor.Settled.{IsSettled, Ends, may_rest}
use local_recall.Lifecycle.Actor.Receive.{on_receive, receive_all}
use local_recall.Lifecycle.Actor.Inbox.{on_receive-Ends, receive_all-IsSettled}
use local_recall.Lifecycle.Tests.{recording_gate, recording_gate-IsValid}

-- Everything outside answers, and no worker runs.
abbrev answering : Environment
answering = record {
  configuration = λ _. some (record { capture_permitted = true; revision = "r1" });
  preflight_alive = λ _. true;
  preflight_told = λ _. true;
  monotonic_ns = λ _. 5;
  preflight_timeout_ns = 10;
  audit_accepts = λ _. true;
  queued_cancelled = λ _. true;
  in_flight_cancelled = λ _. true;
  time_left = λ _. true;
  pipeline_quiescent = λ _. true;
  buffers_cleared = λ _. true;
  workers = λ _. [];
}

abbrev recording_actor : LifecycleActor
recording_actor = record {
  gate = recording_gate;
  has_preflight_ref = true;
  manual_pause = false;
  automatic_pause_reason = none;
  audit_events = [];
  preflights = [];
  calls = 0;
}

recording_actor-IsSettled : IsSettled 7 recording_actor
unfolding may_rest
recording_actor-IsSettled = record { valid = recording_gate-IsValid; owner = refl; rests = refl }

abbrev lock : Message
lock = Message.automatic_block (record { blocked = true; reason = session_locked })

on_receive-Ends_example : Ends answering 7 (on_receive answering 7 lock recording_actor)
on_receive-Ends_example = on_receive-Ends answering 7 lock recording_actor recording_actor-IsSettled

receive_all-IsSettled_example :
    IsSettled 7 (receive_all answering 7 (lock ∷ Message.stop startup_opt_in ∷ []) recording_actor)
receive_all-IsSettled_example =
    receive_all-IsSettled answering 7 (lock ∷ Message.stop startup_opt_in ∷ []) recording_actor
      recording_actor-IsSettled

recording_gate-IsAt : IsAt 7 recording recording_gate
recording_gate-IsAt = record { valid = recording_gate-IsValid; owner = refl; at = refl }

enter_fault-Reaches_example :
    Reaches 7 recording_actor faulted
      (enter_fault answering 7 audit_failure critical_fault true recording_actor)
enter_fault-Reaches_example =
    enter_fault-Reaches answering 7 recording audit_failure critical_fault true recording_actor
      recording_gate-IsAt

abbrev to_recording_event : CaptureStateTransition
to_recording_event = record {
  previous = starting;
  current = recording;
  reason = startup_opt_in;
  generation = 1;
}

-- No audit event is accepted.
abbrev refusing : Environment
refusing = record answering { audit_accepts = λ _. false }

abbrev starting_gate : CaptureGate
starting_gate = record recording_gate { state = starting }

abbrev request : RunLifecyclePreflight
request = record {
  configuration = record { capture_permitted = true; revision = "r1" };
  generation = 1;
  deadline_monotonic_ns = 20;
  reason = startup_opt_in;
}

abbrev passing : Check
passing _ = some (record { ready = true; fault_code = none; start_paused_reason = none })

abbrev answer : CompleteLifecyclePreflight
answer = record {
  generation = 1;
  result = record { ready = true; fault_code = none; start_paused_reason = none };
  reason = startup_opt_in;
}

answered_in_time : (preflight_receive passing 9 request starting_gate).0 ≡ some answer
unfolding preflight_receive acquire_preflight_operation
answered_in_time = refl

starting_gate-IsAt : IsAt 7 starting starting_gate
starting_gate-IsAt = record {
  valid = record {
    owned = refl;
    positive = λ e. omega arith;
    not_privacy = refl;
    configured = λ e. refl;
    usable = refl;
    allocated = λ g e q. ground arith;
  };
  owner = refl;
  at = refl;
}

abbrev starting_actor : LifecycleActor
starting_actor = record recording_actor { gate = starting_gate }

abbrev not_ready : CompleteLifecyclePreflight
not_ready = record answer {
  result = record {
    ready = false;
    fault_code = some preflight_failure;
    start_paused_reason = none;
  };
}

failed_preflight_example :
    Reaches 7 starting_actor faulted
      (handle_preflight_complete answering 7 not_ready starting_actor)
failed_preflight_example =
    failed_preflight answering 7 starting not_ready starting_actor starting_gate-IsAt refl refl
