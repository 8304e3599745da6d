-- ===== src/Lifecycle/State.antt =====
-- src/local_recall/domain/lifecycle.py: the capture states, the reasons and the transition table.
use local_recall.Common.{ℕ, Bool, true, false, Option, none, some, ◌==◌, if◌then◌else◌}
use local_recall.Common.Exec.{Result, ok, err}

pub data CaptureState : Type 0 where
  off starting recording paused privacy stopping faulted : CaptureState

pub data TransitionReason : Type 0 where
  user_start startup_opt_in user_stop user_pause user_resume : TransitionReason
  privacy_enabled privacy_disabled session_locked session_unlocked : TransitionReason
  idle active critical_fault startup_safe_default shutdown : TransitionReason

-- The exceptions of the lifecycle: `LifecycleError` and its subclasses, and the built-in ones.
pub data LifecycleError : Type 0 where
  capture_gate_closed stale_capture_generation ownership_error : LifecycleError
  value_error runtime_error actor_is_dead : LifecycleError

-- Identity of enumeration members (`is`).
abbrev pub same_state : CaptureState → CaptureState → Bool
same_state off off = true
same_state starting starting = true
same_state recording recording = true
same_state paused paused = true
same_state privacy privacy = true
same_state stopping stopping = true
same_state faulted faulted = true
same_state _ _ = false

abbrev pub same_reason : TransitionReason → TransitionReason → Bool
same_reason user_start user_start = true
same_reason startup_opt_in startup_opt_in = true
same_reason user_stop user_stop = true
same_reason user_pause user_pause = true
same_reason user_resume user_resume = true
same_reason privacy_enabled privacy_enabled = true
same_reason privacy_disabled privacy_disabled = true
same_reason session_locked session_locked = true
same_reason session_unlocked session_unlocked = true
same_reason idle idle = true
same_reason active active = true
same_reason critical_fault critical_fault = true
same_reason startup_safe_default startup_safe_default = true
same_reason shutdown shutdown = true
same_reason _ _ = false

-- `CaptureGeneration(value)`: the wrapped number, which must be positive.
abbrev pub CaptureGeneration : Type 0
CaptureGeneration = ℕ

unfoldable pub capture_generation : ℕ → Result LifecycleError CaptureGeneration
capture_generation value = if value == 0 then err value_error else ok value

unfoldable pub allowed_transition : CaptureState → CaptureState → Bool
allowed_transition off starting = true
allowed_transition off faulted = true
allowed_transition starting recording = true
allowed_transition starting paused = true
allowed_transition starting stopping = true
allowed_transition starting off = true
allowed_transition starting faulted = true
allowed_transition recording paused = true
allowed_transition recording privacy = true
allowed_transition recording stopping = true
allowed_transition recording faulted = true
allowed_transition paused recording = true
allowed_transition paused paused = true
allowed_transition paused privacy = true
allowed_transition paused stopping = true
allowed_transition paused faulted = true
allowed_transition privacy recording = true
allowed_transition privacy paused = true
allowed_transition privacy stopping = true
allowed_transition privacy faulted = true
allowed_transition stopping off = true
allowed_transition stopping faulted = true
allowed_transition faulted off = true
allowed_transition _ _ = false

-- The clock's time stamp and the random event identifier are left out: nothing reads them.
pub record CaptureStateTransition : Type 0 where
  pub previous : CaptureState
  pub current : CaptureState
  pub generation : CaptureGeneration
  pub reason : TransitionReason

unfoldable pub make_transition :
    CaptureState
    → CaptureState
    → CaptureGeneration
    → TransitionReason
    → Result LifecycleError CaptureStateTransition
unfolding allowed_transition
make_transition previous current generation reason =
    if allowed_transition previous current
    then ok (record {
      previous = previous;
      current = current;
      generation = generation;
      reason = reason;
    })
    else err value_error

pub record CaptureStateSnapshot : Type 0 where
  pub state : CaptureState
  pub generation : Option CaptureGeneration
  pub privacy_mode : Bool
  pub critical_dependencies_healthy : Bool

abbrev pub is_active_state : CaptureState → Bool
is_active_state starting = true
is_active_state recording = true
is_active_state paused = true
is_active_state _ = false

unfoldable pub make_snapshot :
    CaptureState
    → Option CaptureGeneration
    → Bool
    → Bool
    → Result LifecycleError CaptureStateSnapshot
make_snapshot state none privacy_mode healthy =
    if is_active_state state
    then err value_error
    else ok (record {
      state = state;
      generation = none;
      privacy_mode = privacy_mode;
      critical_dependencies_healthy = healthy;
    })
make_snapshot state (some generation) privacy_mode healthy = ok (record {
  state = state;
  generation = some generation;
  privacy_mode = privacy_mode;
  critical_dependencies_healthy = healthy;
})
