-- ===== src/Lifecycle/Gate/Revocation.antt =====
-- A permit of an invalidated generation stays cancelled, and its generation never comes back.
use local_recall.Common.{ℕ, ◌≤◌, ◌<◌, ◌≡◌, true, false, some, List, arith, same_option}
use local_recall.Common.Exec.{after, has_returned}
use local_recall.Lifecycle.State.{TransitionReason, CaptureGeneration}
use local_recall.Lifecycle.Gate.{
  CaptureGate, CaptureWorkPermit, cancelled, acquire_persistence_operation,
}
use local_recall.Lifecycle.Gate.Invariant.{IsValid}
use local_recall.Lifecycle.Gate.Permits.{IsCurrent}
use local_recall.Lifecycle.Gate.Schedule.{Action, acquire_preflight, perform, run, run_induction}
use local_recall.Lifecycle.Gate.Transitions.{invalidate_and_pause, begin_stopping, fault}

-- The permit is cancelled, and its generation is neither active nor can it become so.
pub record IsRevoked (p : CaptureWorkPermit) (s : CaptureGate) : Type 0 where
  pub is_cancelled : cancelled p s ≡ true
  pub kept : p.cancel_event < s.next_event
  pub past : p.generation ≤ s.generation_epoch
  pub inactive : same_option s.active_generation (some p.generation) ≡ false

perform-next_event : (a : Action) (s : CaptureGate) → s.next_event ≤ (perform a s).next_event
unfolding perform
perform-next_event (acquire_preflight g) s = ground arith
perform-next_event _ s = ground arith

-- The epoch never falls.
pub perform-generation_epoch :
    (a : Action) (s : CaptureGate) → s.generation_epoch ≤ (perform a s).generation_epoch
unfolding perform
perform-generation_epoch (acquire_preflight g) s = ground arith
perform-generation_epoch _ s = ground arith

perform-is_set :
    (e : ℕ) (s : CaptureGate)
    → s.is_set e ≡ true
    → e < s.next_event
    → (a : Action) → (perform a s).is_set e ≡ true
unfolding perform
perform-is_set e s h k (acquire_preflight g) = ground arith
perform-is_set e s h k _ = ground arith

perform-inactive :
    (g : CaptureGeneration) (s : CaptureGate)
    → g ≤ s.generation_epoch
    → same_option s.active_generation (some g) ≡ false
    → (a : Action) → same_option (perform a s).active_generation (some g) ≡ false
unfolding perform
perform-inactive g s h k (acquire_preflight _) = ground arith
perform-inactive g s h k _ = ground arith

perform-IsRevoked :
    (p : CaptureWorkPermit) (a : Action) (s : CaptureGate)
    → IsRevoked p s
    → IsRevoked p (perform a s)
unfolding cancelled
perform-IsRevoked p a s r = record {
  is_cancelled = perform-is_set p.cancel_event s r.is_cancelled r.kept a;
  kept = omega (arith, r.kept, perform-next_event a s);
  past = omega (arith, r.past, perform-generation_epoch a s);
  inactive = perform-inactive p.generation s r.past r.inactive a;
}

pub run-IsRevoked :
    (p : CaptureWorkPermit) (schedule : List Action) (s : CaptureGate)
    → IsRevoked p s
    → IsRevoked p (run schedule s)
run-IsRevoked p schedule s = run_induction (IsRevoked p) (perform-IsRevoked p) schedule s

module _ (thread : ℕ) (reason : TransitionReason) (s : CaptureGate) (v : IsValid s)
    (p : CaptureWorkPermit) (c : IsCurrent s p) where
  -- An automatic pause that returns revokes the permits of the generation that was active.
  invalidate_and_pause-IsRevoked :
      has_returned (invalidate_and_pause thread reason s) ≡ true
      → IsRevoked p (after (invalidate_and_pause thread reason s))
  unfolding invalidate_and_pause cancelled
  invalidate_and_pause-IsRevoked h = record {
    is_cancelled = ground (arith, v.allocated p.generation p.cancel_event);
    kept = ground (arith, v.allocated p.generation p.cancel_event);
    past = ground arith;
    inactive = ground arith;
  }

  begin_stopping-IsRevoked :
      has_returned (begin_stopping thread reason s) ≡ true
      → IsRevoked p (after (begin_stopping thread reason s))
  unfolding begin_stopping cancelled
  begin_stopping-IsRevoked h = record {
    is_cancelled = ground arith;
    kept = ground (arith, v.allocated p.generation p.cancel_event);
    past = ground arith;
    inactive = ground arith;
  }

  fault-IsRevoked :
      has_returned (fault thread reason s) ≡ true → IsRevoked p (after (fault thread reason s))
  unfolding fault cancelled
  fault-IsRevoked h = record {
    is_cancelled = ground arith;
    kept = ground (arith, v.allocated p.generation p.cancel_event);
    past = ground arith;
    inactive = ground arith;
  }

IsRevoked-persistence :
    (p : CaptureWorkPermit) (s : CaptureGate)
    → IsRevoked p s
    → has_returned (acquire_persistence_operation p.generation s) ≡ false
unfolding acquire_persistence_operation
IsRevoked-persistence p s r = ground arith

-- `t` is the gate after a call on `s` that took the active generation out of service.
pub data Invalidates (s : CaptureGate) : CaptureGate → Type 0 where
  by_pause :
      (thread : ℕ) (reason : TransitionReason)
      → has_returned (invalidate_and_pause thread reason s) ≡ true
      → Invalidates s (after (invalidate_and_pause thread reason s))
  by_stop :
      (thread : ℕ) (reason : TransitionReason)
      → has_returned (begin_stopping thread reason s) ≡ true
      → Invalidates s (after (begin_stopping thread reason s))
  by_fault :
      (thread : ℕ) (reason : TransitionReason)
      → has_returned (fault thread reason s) ≡ true
      → Invalidates s (after (fault thread reason s))

Invalidates-IsRevoked :
    {s t : CaptureGate}
    → IsValid s
    → (p : CaptureWorkPermit) → IsCurrent s p
    → Invalidates s t
    → IsRevoked p t
Invalidates-IsRevoked {s} v p c (by_pause thread reason h) =
    invalidate_and_pause-IsRevoked thread reason s v p c h
Invalidates-IsRevoked {s} v p c (by_stop thread reason h) =
    begin_stopping-IsRevoked thread reason s v p c h
Invalidates-IsRevoked {s} v p c (by_fault thread reason h) = fault-IsRevoked thread reason s v p c h

-- Once an automatic pause, a stop or a fault has taken a permit's generation out of service, then
-- after any further calls of any threads the permit is cancelled and persisting for its
-- generation is refused.
pub revoked_forever :
    (s t : CaptureGate) (p : CaptureWorkPermit)
    → IsValid s
    → IsCurrent s p
    → Invalidates s t
    → (schedule : List Action)
    → (cancelled p (run schedule t) ≡ true)
      × (has_returned (acquire_persistence_operation p.generation (run schedule t)) ≡ false)
revoked_forever s t p v c i schedule = (
  (run-IsRevoked p schedule t (Invalidates-IsRevoked v p c i)).is_cancelled,
  IsRevoked-persistence p (run schedule t)
      (run-IsRevoked p schedule t (Invalidates-IsRevoked v p c i)),
)
