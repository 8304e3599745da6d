-- ===== src/Lifecycle/Gate/Permits.antt =====
-- Who gets a permit from the gate, and for what.
use local_recall.Common.{ℕ, ◌≡◌, false, ◌&&◌, ◌||◌, some, arith, same_option}
use local_recall.Common.Exec.{returned, has_returned}
use local_recall.Lifecycle.State.{starting, recording, paused, CaptureGeneration, same_state}
use local_recall.Lifecycle.Gate.{
  CaptureGate, CaptureWorkPermit, cancelled, flights, acquire_preflight_operation,
  acquire_capture_operation, acquire_persistence_operation, release_operation,
}
use local_recall.Lifecycle.Gate.Invariant.{IsValid}

-- What a permit that the gate handed out says, on the gate that handed it out.
pub record IsCurrent (s : CaptureGate) (p : CaptureWorkPermit) : Type 0 where
  pub newest : s.active_generation ≡ some p.generation
  pub revision : s.configuration_revision ≡ some p.configuration_revision
  pub event : s.cancel_events p.generation ≡ some p.cancel_event
  pub running : cancelled p s ≡ false

module _ (s : CaptureGate) (v : IsValid s) where
  -- On a valid gate, a capture is admitted exactly while the gate is recording.
  pub capture_admitted : has_returned (acquire_capture_operation s) ≡ same_state s.state recording
  unfolding acquire_capture_operation
  capture_admitted = ground arith

  -- On a valid gate, persisting for a generation is admitted exactly while the gate is recording
  -- or paused and that generation is the active one.
  pub persistence_admitted :
      (g : CaptureGeneration)
      → has_returned (acquire_persistence_operation g s) ≡ (
          (same_state s.state recording || same_state s.state paused)
          && same_option s.active_generation (some g))
  unfolding acquire_persistence_operation
  persistence_admitted g = ground arith

  -- On a valid gate, a preflight of a generation is admitted exactly while the gate is starting and
  -- that generation is the active one.
  pub preflight_admitted :
      (g : CaptureGeneration)
      → has_returned (acquire_preflight_operation g s)
        ≡ (same_state s.state starting && same_option s.active_generation (some g))
  unfolding acquire_preflight_operation
  preflight_admitted g = ground arith

  -- The permit of an admitted capture is current.
  pub capture-IsCurrent :
      (p : CaptureWorkPermit) (t : CaptureGate)
      → acquire_capture_operation s ≡ returned p t
      → IsCurrent t p
  unfolding acquire_capture_operation cancelled
  capture-IsCurrent p t h = record {
    newest = ground arith;
    revision = ground arith;
    event = ground arith;
    running = ground arith;
  }

-- The number of operations of a generation that the gate counts as running.
abbrev pub running_operations : CaptureGate → CaptureGeneration → ℕ
running_operations s g = flights (s.in_flight g)

-- The release of an admitted capture leaves every count of running operations as before the capture.
pub acquire_capture-release :
    (s t : CaptureGate) (p : CaptureWorkPermit)
    → acquire_capture_operation s ≡ returned p t
    → (g : CaptureGeneration)
    → running_operations (release_operation p.generation t) g ≡ running_operations s g
unfolding acquire_capture_operation release_operation
acquire_capture-release s t p h g = ground arith
