-- ===== src/Lifecycle/Gate/Schedule.antt =====
-- The calls that threads make on one capture gate, in the order in which its lock lets them in.
use local_recall.Common.{String, List, [], ◌∷◌, ℕ}
use local_recall.Common.Exec.{after}
use local_recall.Lifecycle.State.{TransitionReason, CaptureGeneration}
use local_recall.Lifecycle.Gate.{
  CaptureGate, acquire_preflight_operation, acquire_capture_operation,
  acquire_persistence_operation, release_operation,
}
use local_recall.Lifecycle.Gate.Transitions

-- One call of a method; the number that an owner's call begins with is the calling thread.
pub data Action : Type 0 where
  acquire_preflight : CaptureGeneration → Action
  acquire_capture : Action
  acquire_persistence : CaptureGeneration → Action
  release : CaptureGeneration → Action
  bind_owner release_owner : ℕ → Action
  begin_start : ℕ → TransitionReason → String → Action
  mark_recording : ℕ → CaptureGeneration → TransitionReason → Action
  pause resume invalidate_and_pause begin_stopping finish_off fault : ℕ → TransitionReason → Action

-- The gate after the call, whether it returned or raised.
unfoldable pub perform : Action → CaptureGate → CaptureGate
unfolding acquire_preflight_operation acquire_capture_operation acquire_persistence_operation
    release_operation Transitions.bind_owner Transitions.release_owner Transitions.begin_start
    Transitions.mark_recording Transitions.pause Transitions.resume Transitions.invalidate_and_pause
    Transitions.begin_stopping Transitions.finish_off Transitions.fault
perform (acquire_preflight generation) s = after (acquire_preflight_operation generation s)
perform acquire_capture s = after (acquire_capture_operation s)
perform (acquire_persistence generation) s = after (acquire_persistence_operation generation s)
perform (release generation) s = release_operation generation s
perform (bind_owner thread) s = after (Transitions.bind_owner thread s)
perform (release_owner thread) s = after (Transitions.release_owner thread s)
perform (begin_start thread reason revision) s =
    after (Transitions.begin_start thread reason revision s)
perform (mark_recording thread generation reason) s =
    after (Transitions.mark_recording thread generation reason s)
perform (pause thread reason) s = after (Transitions.pause thread reason s)
perform (resume thread reason) s = after (Transitions.resume thread reason s)
perform (invalidate_and_pause thread reason) s =
    after (Transitions.invalidate_and_pause thread reason s)
perform (begin_stopping thread reason) s = after (Transitions.begin_stopping thread reason s)
perform (finish_off thread reason) s = after (Transitions.finish_off thread reason s)
perform (fault thread reason) s = after (Transitions.fault thread reason s)

unfoldable pub run : List Action → CaptureGate → CaptureGate
run [] s = s
run (action ∷ rest) s = run rest (perform action s)

-- What a single call keeps, every schedule keeps.
pub run_induction {ℓ} :
    (P : CaptureGate → Type ℓ)
    → ((action : Action) (s : CaptureGate) → P s → P (perform action s))
    → (schedule : List Action) (s : CaptureGate) → P s
    → P (run schedule s)
unfolding run
run_induction P keep [] s h = h
run_induction P keep (action ∷ rest) s h =
    run_induction P keep rest (perform action s) (keep action s h)
