-- ===== src/Lifecycle/Gate/Moves.antt =====
-- Where each transition takes a valid gate that is called by its owner.
use local_recall.Common.{ℕ, ◌≡◌, Bool, true, false, not, String, some, arith}
use local_recall.Common.Exec.{returned, Ensures, Ensures-after}
use local_recall.Lifecycle.State.{
  CaptureState, off, starting, recording, paused, stopping, faulted, TransitionReason,
  CaptureGeneration, is_active_state, same_state,
}
use local_recall.Lifecycle.Gate.{CaptureGate, snapshot}
use local_recall.Lifecycle.Gate.Invariant.{IsValid, perform-IsValid}
use local_recall.Lifecycle.Gate.Schedule.{Action, perform}
use local_recall.Lifecycle.Gate.Transitions.{
  begin_start, mark_recording, pause, resume, invalidate_and_pause, begin_stopping, finish_off,
  fault,
}

-- A valid gate in the state `c`, owned by the thread `me`.
pub record IsAt (me : ℕ) (c : CaptureState) (s : CaptureGate) : Type 0 where
  pub valid : IsValid s
  pub owner : s.owner_thread_id ≡ some me
  pub at : s.state ≡ c

-- The snapshot never raises on a valid gate.
pub snapshot_lem :
    (s : CaptureGate)
    → IsValid s
    → snapshot s
      ≡ returned
          (record {
            state = s.state;
            generation = s.active_generation;
            privacy_mode = false;
            critical_dependencies_healthy = s.critical_dependencies_healthy;
          })
          s
unfolding snapshot
snapshot_lem s v = ground arith

-- The states from which the gate may be switched off.
abbrev pub is_over : CaptureState → Bool
is_over stopping = true
is_over faulted = true
is_over _ = false

module _ (me : ℕ) (reason : TransitionReason) (s : CaptureGate) where
  pub begin_start-IsAt :
      (revision : String)
      → IsAt me off s
      → Ensures (λ _ t. IsAt me starting t) (begin_start me reason revision s)
  unfolding perform begin_start
  begin_start-IsAt revision h =
      Ensures-after (IsAt me starting) (begin_start me reason revision s) (ground arith) (record {
        valid = perform-IsValid (Action.begin_start me reason revision) s h.valid;
        owner = ground arith;
        at = ground arith;
      })

  pub mark_recording-IsAt :
      (generation : CaptureGeneration)
      → IsAt me starting s
      → s.active_generation ≡ some generation
      → Ensures (λ _ t. IsAt me recording t) (mark_recording me generation reason s)
  unfolding perform mark_recording
  mark_recording-IsAt generation h e =
      Ensures-after (IsAt me recording) (mark_recording me generation reason s) (ground arith)
        (record {
          valid = perform-IsValid (Action.mark_recording me generation reason) s h.valid;
          owner = ground arith;
          at = ground arith;
        })

  pub pause-IsAt : IsAt me recording s → Ensures (λ _ t. IsAt me paused t) (pause me reason s)
  unfolding perform pause
  pause-IsAt h = Ensures-after (IsAt me paused) (pause me reason s) (ground arith) (record {
    valid = perform-IsValid (Action.pause me reason) s h.valid;
    owner = ground arith;
    at = ground arith;
  })

  pub resume-IsAt : IsAt me paused s → Ensures (λ _ t. IsAt me recording t) (resume me reason s)
  unfolding perform resume
  resume-IsAt h = Ensures-after (IsAt me recording) (resume me reason s) (ground arith) (record {
    valid = perform-IsValid (Action.resume me reason) s h.valid;
    owner = ground arith;
    at = ground arith;
  })

  pub invalidate_and_pause-IsAt :
      (c : CaptureState)
      → is_active_state c ≡ true
      → IsAt me c s
      → Ensures (λ _ t. IsAt me paused t) (invalidate_and_pause me reason s)
  unfolding perform invalidate_and_pause
  invalidate_and_pause-IsAt c e h =
      Ensures-after (IsAt me paused) (invalidate_and_pause me reason s) (ground arith) (record {
        valid = perform-IsValid (Action.invalidate_and_pause me reason) s h.valid;
        owner = ground arith;
        at = ground arith;
      })

  pub begin_stopping-IsAt :
      (c : CaptureState)
      → is_active_state c ≡ true
      → IsAt me c s
      → Ensures (λ _ t. IsAt me stopping t) (begin_stopping me reason s)
  unfolding perform begin_stopping
  begin_stopping-IsAt c e h =
      Ensures-after (IsAt me stopping) (begin_stopping me reason s) (ground arith) (record {
        valid = perform-IsValid (Action.begin_stopping me reason) s h.valid;
        owner = ground arith;
        at = ground arith;
      })

  pub finish_off-IsAt :
      (c : CaptureState)
      → is_over c ≡ true
      → IsAt me c s
      → Ensures (λ _ t. IsAt me off t) (finish_off me reason s)
  unfolding perform finish_off
  finish_off-IsAt c e h =
      Ensures-after (IsAt me off) (finish_off me reason s) (ground arith) (record {
        valid = perform-IsValid (Action.finish_off me reason) s h.valid;
        owner = ground arith;
        at = ground arith;
      })

  pub fault-IsAt :
      (c : CaptureState)
      → not (same_state c faulted) ≡ true
      → IsAt me c s
      → Ensures (λ _ t. IsAt me faulted t) (fault me reason s)
  unfolding perform fault
  fault-IsAt c e h = Ensures-after (IsAt me faulted) (fault me reason s) (ground arith) (record {
    valid = perform-IsValid (Action.fault me reason) s h.valid;
    owner = ground arith;
    at = ground arith;
  })
