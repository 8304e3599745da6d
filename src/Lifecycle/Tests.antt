-- ===== src/Lifecycle/Tests.antt =====
-- The theorems of the gate at concrete gates.
use local_recall.Common.{
  ◌≡◌, ◌≤◌, refl, true, false, none, some, List, [], ◌∷◌, ◌==◌, if◌then◌else◌, arith, same_option,
  ◌&&◌, ◌||◌,
}
use local_recall.Common.Exec.{returned, has_returned, after}
use local_recall.Lifecycle.State.{recording, paused, same_state, startup_opt_in, session_locked}
use local_recall.Lifecycle.Gate.{
  CaptureGate, CaptureWorkPermit, new, cancelled, acquire_capture_operation,
  acquire_persistence_operation,
}
use local_recall.Lifecycle.Gate.Schedule.{Action, run}
use local_recall.Lifecycle.Gate.Invariant.{IsValid, run-IsValid}
use local_recall.Lifecycle.Gate.Permits.{IsCurrent, persistence_admitted, running_operations}
use local_recall.Lifecycle.Gate.Revocation.{by_pause, revoked_forever}
use local_recall.Lifecycle.Gate.Transitions
use local_recall.Lifecycle.Workers.{WorkerAction, work_all, work_all-fewer}

-- The gate of thread 7, recording in its first generation.
abbrev to_recording : List Action
to_recording =
    Action.bind_owner 7
    ∷ Action.begin_start 7 startup_opt_in "r1"
    ∷ Action.mark_recording 7 1 startup_opt_in
    ∷ []

abbrev pub recording_gate : CaptureGate
recording_gate = record {
  owner_thread_id = some 7;
  state = recording;
  active_generation = some 1;
  draining_generation = none;
  generation_epoch = 1;
  configuration_revision = some "r1";
  critical_dependencies_healthy = true;
  cancel_events = λ g. if g == 1 then some 0 else none;
  in_flight = λ _. none;
  is_set = λ _. false;
  next_event = 1;
}

run-IsValid_example : IsValid (run to_recording new)
run-IsValid_example = run-IsValid to_recording

pub recording_gate-IsValid : IsValid recording_gate
recording_gate-IsValid = record {
  owned = refl;
  positive = λ e. omega arith;
  not_privacy = refl;
  configured = λ e. refl;
  usable = refl;
  allocated = λ g e q. ground arith;
}

abbrev permit : CaptureWorkPermit
permit = record { generation = 1; configuration_revision = "r1"; cancel_event = 0 }

permit-IsCurrent : IsCurrent recording_gate permit
unfolding cancelled
permit-IsCurrent = record { newest = refl; revision = refl; event = refl; running = refl }

persistence_admitted_example : has_returned (acquire_persistence_operation 2 recording_gate) ≡ (
    (same_state recording recording || same_state recording paused)
    && same_option (some 1) (some 2))
persistence_admitted_example = persistence_admitted recording_gate recording_gate-IsValid 2

captured :
    acquire_capture_operation recording_gate
    ≡ returned permit (after (acquire_capture_operation recording_gate))
unfolding acquire_capture_operation
captured = refl

pauses : has_returned (Transitions.invalidate_and_pause 7 session_locked recording_gate) ≡ true
unfolding Transitions.invalidate_and_pause
pauses = refl

abbrev paused_gate : CaptureGate
paused_gate = after (Transitions.invalidate_and_pause 7 session_locked recording_gate)

revoked_forever_example :
    (cancelled permit (run (Action.resume 7 startup_opt_in ∷ Action.release 1 ∷ []) paused_gate)
      ≡ true)
    × (has_returned (
          acquire_persistence_operation 1
            (run (Action.resume 7 startup_opt_in ∷ Action.release 1 ∷ []) paused_gate))
        ≡ false)
revoked_forever_example =
    revoked_forever recording_gate paused_gate permit recording_gate-IsValid permit-IsCurrent
      (by_pause 7 session_locked pauses) (Action.resume 7 startup_opt_in ∷ Action.release 1 ∷ [])

abbrev draining_gate : CaptureGate
draining_gate = record recording_gate { in_flight = (λ g. if g == 4 then some 2 else none) }

work_all-fewer_example :
    running_operations
      (work_all (WorkerAction.capture ∷ WorkerAction.persistence 4 ∷ []) draining_gate)
      4
    ≤ running_operations draining_gate 4
work_all-fewer_example =
    work_all-fewer 4 (WorkerAction.capture ∷ WorkerAction.persistence 4 ∷ []) draining_gate refl
