-- ===== src/Lifecycle/Actor/Preflight.antt =====
-- What the preflight actor tells the lifecycle actor, and what it leaves at the gate.
use local_recall.Common.{ℕ, ◌≡◌, true, false, some, ltb, arith}
use local_recall.Lifecycle.State.{CaptureGeneration}
use local_recall.Lifecycle.Gate.{CaptureGate, acquire_preflight_operation, release_operation}
use local_recall.Lifecycle.Gate.Permits.{running_operations}
use local_recall.Lifecycle.Messages.{RunLifecyclePreflight, CompleteLifecyclePreflight}
use local_recall.Lifecycle.Actor.Hooks.{Check, preflight_receive}

-- After a preflight, whatever it found and however it ended, every generation has as many running
-- operations as before.
pub preflight_receive-balanced :
    (check : Check) (now : ℕ) (message : RunLifecyclePreflight) (gate : CaptureGate)
    (g : CaptureGeneration)
    → running_operations (preflight_receive check now message gate).1 g ≡ running_operations gate g
unfolding preflight_receive acquire_preflight_operation release_operation
preflight_receive-balanced check now message gate g = ground arith

-- A preflight that reports itself ready is of the generation that was asked for and within its
-- deadline.
pub preflight_receive-ready :
    (check : Check) (now : ℕ) (message : RunLifecyclePreflight) (gate : CaptureGate)
    (answer : CompleteLifecyclePreflight)
    → (preflight_receive check now message gate).0 ≡ some answer
    → answer.result.ready ≡ true
    → (answer.generation ≡ message.generation) × (ltb message.deadline_monotonic_ns now ≡ false)
unfolding preflight_receive acquire_preflight_operation
preflight_receive-ready check now message gate answer e r = ground arith
