-- ===== src/Lifecycle/Gate.antt =====
-- src/local_recall/lifecycle/gate.py: the capture gate. Every method runs under the gate's lock, so
-- each is one atomic action on the gate. A `threading.Event` is a cell of `is_set`, which permits
-- share with the gate; a thread is its number.
pub mod Transitions
pub mod Schedule
pub mod Invariant
pub mod Permits
pub mod Revocation
pub mod Moves
use local_recall.Common.{
  ℕ, ◌+◌, ◌-◌, Bool, true, false, ◌&&◌, ◌||◌, String, Option, none, some, ◌==◌, leb, if◌then◌else◌,
  Dict, put, pop, same_option,
}
use local_recall.Common.Exec.{
  returned, raised, Exec, pure, lift, gets, modify, require, ◌>>=◌, ◌>>◌,
}
use local_recall.Lifecycle.State.{
  CaptureState, off, starting, recording, paused, privacy, TransitionReason, LifecycleError,
  capture_gate_closed, stale_capture_generation, ownership_error, value_error, runtime_error,
  same_state, CaptureGeneration, capture_generation, CaptureStateTransition, make_transition,
  CaptureStateSnapshot, make_snapshot,
}

pub record CaptureWorkPermit : Type 0 where
  pub generation : CaptureGeneration
  pub configuration_revision : String
  pub cancel_event : ℕ

pub record CaptureGate : Type 0 where
  pub owner_thread_id : Option ℕ
  pub state : CaptureState
  pub active_generation : Option CaptureGeneration
  pub draining_generation : Option CaptureGeneration
  pub generation_epoch : ℕ
  pub configuration_revision : Option String
  pub critical_dependencies_healthy : Bool
  pub cancel_events : Dict ℕ
  pub in_flight : Dict ℕ
  pub is_set : ℕ → Bool  -- the flag of each event
  pub next_event : ℕ  -- the events from here on are not yet allocated

abbrev pub Gate : Type 0 → Type 0
Gate A = Exec CaptureGate LifecycleError A

-- A new gate.
abbrev pub new : CaptureGate
new = record {
  owner_thread_id = none;
  state = off;
  active_generation = none;
  draining_generation = none;
  generation_epoch = 0;
  configuration_revision = none;
  critical_dependencies_healthy = true;
  cancel_events = λ _. none;
  in_flight = λ _. none;
  is_set = λ _. false;
  next_event = 0;
}

-- `permit.cancelled`
unfoldable pub cancelled : CaptureWorkPermit → CaptureGate → Bool
cancelled permit s = s.is_set permit.cancel_event

-- `self._in_flight.get(generation.value, 0)`
abbrev pub flights : Option ℕ → ℕ
flights none = 0
flights (some n) = n

unfoldable pub snapshot : Gate CaptureStateSnapshot
unfolding make_snapshot
snapshot s =
    lift
      (make_snapshot s.state s.active_generation (same_state s.state privacy)
        s.critical_dependencies_healthy)
      s

assert_owner : ℕ → Gate Unit
assert_owner thread s = require (same_option s.owner_thread_id (some thread)) ownership_error s

next_generation : Gate CaptureGeneration
unfolding capture_generation
next_generation = do
  modify (λ s. record s { generation_epoch = s.generation_epoch + 1 })
  epoch ← gets (λ s. s.generation_epoch)
  lift (capture_generation epoch)

current_epoch_generation : Gate CaptureGeneration
unfolding next_generation capture_generation
current_epoch_generation s =
    if s.generation_epoch == 0
    then next_generation s
    else lift (capture_generation s.generation_epoch) s

-- A new event for a generation: `self._cancel_events[generation.value] = threading.Event()`.
new_cancel_event : CaptureGeneration → CaptureGate → CaptureGate
new_cancel_event generation s = record s {
  cancel_events = put s.cancel_events generation s.next_event;
  is_set = λ e. if e == s.next_event then false else s.is_set e;
  next_event = s.next_event + 1;
}

active_event : CaptureGate → Option ℕ
active_event s = elim s.active_generation [
  | none ↦ none
  | some generation ↦ s.cancel_events generation
]

-- The event of the active generation is set, where there is one.
cancel_active : CaptureGate → CaptureGate
unfolding active_event
cancel_active s = record s {
  is_set = λ e. if same_option (active_event s) (some e) then true else s.is_set e;
}

transition_to : CaptureState → CaptureGeneration → TransitionReason → Gate CaptureStateTransition
unfolding make_transition
transition_to current generation reason = do
  previous ← gets (λ s. s.state)
  transition ← lift (make_transition previous current generation reason)
  modify (λ s. record s { state = current })
  pure transition

require_active : CaptureGeneration → CaptureState → Gate Unit
require_active generation state s =
    require (same_state s.state state && same_option s.active_generation (some generation))
      stale_capture_generation s

require_generation : CaptureState → Gate CaptureGeneration
require_generation state s = elim s.active_generation [
  | none ↦ raised value_error s
  | some generation ↦
      if same_state s.state state then returned generation s else raised value_error s
]

-- The event must be there, and not set.
usable_event : Option ℕ → Gate ℕ
usable_event none s = raised stale_capture_generation s
usable_event (some event) s =
    if s.is_set event then raised stale_capture_generation s else returned event s

known_revision : Option String → Gate String
known_revision none s = raised runtime_error s
known_revision (some revision) s = returned revision s

register_operation : CaptureGeneration → Gate CaptureWorkPermit
unfolding usable_event known_revision
register_operation generation = do
  event ← (λ s. usable_event (s.cancel_events generation) s)
  revision ← (λ s. known_revision s.configuration_revision s)
  modify (λ s. record s {
    in_flight = put s.in_flight generation (flights (s.in_flight generation) + 1);
  })
  pure (record { generation = generation; configuration_revision = revision; cancel_event = event })

unfoldable pub acquire_preflight_operation : CaptureGeneration → Gate CaptureWorkPermit
unfolding require_active register_operation
acquire_preflight_operation generation = do
  require_active generation starting
  register_operation generation

unfoldable pub acquire_capture_operation : Gate CaptureWorkPermit
unfolding require_generation register_operation
acquire_capture_operation = do
  state ← gets (λ s. s.state)
  require (same_state state recording) capture_gate_closed
  generation ← require_generation recording
  register_operation generation

unfoldable pub acquire_persistence_operation : CaptureGeneration → Gate CaptureWorkPermit
unfolding register_operation
acquire_persistence_operation generation = do
  s ← gets (λ s. s)
  require (same_state s.state recording || same_state s.state paused) capture_gate_closed
  require (same_option s.active_generation (some generation)) stale_capture_generation
  register_operation generation

unfoldable pub release_operation : CaptureGeneration → CaptureGate → CaptureGate
release_operation generation s =
    if leb (flights (s.in_flight generation)) 1
    then (let t = record s { in_flight = pop s.in_flight generation } in
        if same_option s.active_generation (some generation)
        then t
        else record t { cancel_events = pop s.cancel_events generation })
    else record s { in_flight = put s.in_flight generation (flights (s.in_flight generation) - 1) }

-- The check of a worker before it uses a frame.
unfoldable pub require_current_generation : CaptureGeneration → Gate Unit
require_current_generation generation = do
  s ← gets (λ s. s)
  require (same_option s.active_generation (some generation)) stale_capture_generation
  require (same_state s.state recording || same_state s.state paused) capture_gate_closed
