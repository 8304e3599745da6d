-- ===== src/Lifecycle/Workers.antt =====
-- What worker threads can do to the gate while the lifecycle actor waits for an outside call.
use mathlib.Core.Path.{subst}
use local_recall.Common.{◌≡◌, ◌≤◌, refl, ap, ◌∙◌, false, some, List, [], ◌∷◌, arith, same_option}
use local_recall.Common.Exec.{after}
use local_recall.Lifecycle.State.{CaptureGeneration}
use local_recall.Lifecycle.Gate.{
  CaptureGate, acquire_preflight_operation, acquire_capture_operation,
  acquire_persistence_operation, release_operation,
}
use local_recall.Lifecycle.Gate.Invariant.{IsValid, perform-IsValid}
use local_recall.Lifecycle.Gate.Permits.{running_operations}
use local_recall.Lifecycle.Gate.Schedule.{Action, perform}

pub data WorkerAction : Type 0 where
  preflight persistence release : CaptureGeneration → WorkerAction
  capture : WorkerAction

unfoldable pub work : WorkerAction → CaptureGate → CaptureGate
unfolding acquire_preflight_operation acquire_persistence_operation acquire_capture_operation
    release_operation
work (preflight generation) s = after (acquire_preflight_operation generation s)
work (persistence generation) s = after (acquire_persistence_operation generation s)
work (release generation) s = release_operation generation s
work capture s = after (acquire_capture_operation s)

unfoldable pub work_all : List WorkerAction → CaptureGate → CaptureGate
work_all [] s = s
work_all (action ∷ rest) s = work_all rest (work action s)

-- The gate after the workers: only its two tables can have changed.
abbrev pub meanwhile : List WorkerAction → CaptureGate → CaptureGate
meanwhile actions s = record s {
  cancel_events = (work_all actions s).cancel_events;
  in_flight = (work_all actions s).in_flight;
}

work-eq_tables :
    (w : WorkerAction) (s : CaptureGate)
    → work w s
      ≡ record s { cancel_events = (work w s).cancel_events; in_flight = (work w s).in_flight }
unfolding work
work-eq_tables (preflight g) s = ground arith
work-eq_tables _ s = ground arith

-- The workers change nothing of the gate but its tables of events and of running operations.
pub work_all-eq-meanwhile :
    (ws : List WorkerAction) (s : CaptureGate) → work_all ws s ≡ meanwhile ws s
unfolding work_all
work_all-eq-meanwhile [] s = refl
work_all-eq-meanwhile (w ∷ ws) s =
    work_all-eq-meanwhile ws (work w s)
    ∙ ap
        (λ (u : CaptureGate). record u {
          cancel_events = (work_all ws (work w s)).cancel_events;
          in_flight = (work_all ws (work w s)).in_flight;
        })
        (work-eq_tables w s)

work-IsValid : (w : WorkerAction) (s : CaptureGate) → IsValid s → IsValid (work w s)
unfolding work perform
work-IsValid (preflight g) s v = perform-IsValid (Action.acquire_preflight g) s v
work-IsValid (persistence g) s v = perform-IsValid (Action.acquire_persistence g) s v
work-IsValid (release g) s v = perform-IsValid (Action.release g) s v
work-IsValid capture s v = perform-IsValid Action.acquire_capture s v

work_all-IsValid : (ws : List WorkerAction) (s : CaptureGate) → IsValid s → IsValid (work_all ws s)
unfolding work_all
work_all-IsValid [] s v = v
work_all-IsValid (w ∷ ws) s v = work_all-IsValid ws (work w s) (work-IsValid w s v)

pub meanwhile-IsValid :
    (ws : List WorkerAction) (s : CaptureGate) → IsValid s → IsValid (meanwhile ws s)
meanwhile-IsValid ws s v = subst IsValid (work_all-eq-meanwhile ws s) (work_all-IsValid ws s v)

work-fewer :
    (g : CaptureGeneration) (w : WorkerAction) (s : CaptureGate)
    → same_option s.active_generation (some g) ≡ false
    → running_operations (work w s) g ≤ running_operations s g
unfolding work
work-fewer g (preflight _) s h = ground arith
work-fewer g _ s h = ground arith

work-active :
    (w : WorkerAction) (s : CaptureGate) → (work w s).active_generation ≡ s.active_generation
unfolding work
work-active (preflight _) s = ground arith
work-active _ s = ground arith

-- Of a generation that is not active the workers start no operation: after any calls of theirs it has
-- at most as many running operations as before, however many these were.
pub work_all-fewer :
    (g : CaptureGeneration) (ws : List WorkerAction) (s : CaptureGate)
    → same_option s.active_generation (some g) ≡ false
    → running_operations (work_all ws s) g ≤ running_operations s g
unfolding work_all
work_all-fewer g [] s h = omega arith
work_all-fewer g (w ∷ ws) s h =
    let later = work_all-fewer g ws (work w s) (rw (work-active w s) h) in
    let now = work-fewer g w s h in omega arith
