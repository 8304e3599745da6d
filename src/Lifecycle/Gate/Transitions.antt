-- ===== src/Lifecycle/Gate/Transitions.antt =====
-- src/local_recall/lifecycle/gate.py: the transitions, which only the owner may make.
use local_recall.Common.{ℕ, true, false, ◌&&◌, String, Option, none, some, ◌==◌, if◌then◌else◌}
use local_recall.Common.Exec.{returned, raised, pure, gets, modify, require, ◌>>=◌, ◌>>◌}
use local_recall.Lifecycle.State.{
  off, starting, recording, paused, stopping, faulted, TransitionReason, ownership_error,
  value_error, same_state, is_active_state, CaptureGeneration, CaptureStateTransition,
}
use local_recall.Lifecycle.Gate.{
  CaptureGate, Gate, flights, assert_owner, next_generation, current_epoch_generation,
  new_cancel_event, cancel_active, transition_to, require_active, require_generation,
}

-- The events of cancelled generations that nothing uses any more are dropped.
stale_event : CaptureGate → ℕ → Option ℕ → Option ℕ
stale_event s value none = none
stale_event s value (some event) =
    if s.is_set event && flights (s.in_flight value) == 0 then none else some event

-- `self._active_generation or self._draining_generation`
active_or_draining : CaptureGate → Option CaptureGeneration
active_or_draining s = elim s.active_generation [
  | none ↦ s.draining_generation
  | some generation ↦ some generation
]

-- What is draining once the active generation, if there is one, is taken out of service.
draining_after : Option CaptureGeneration → Option CaptureGeneration → Option CaptureGeneration
draining_after none draining = draining
draining_after (some generation) draining = some generation

-- The transitions, which only the owner may make; `thread` is the calling thread.
module _ (thread : ℕ) where
  unfoldable pub bind_owner : Gate Unit
  bind_owner s = elim s.owner_thread_id [
    | none ↦ returned tt (record s { owner_thread_id = some thread })
    | some owner ↦ if owner == thread then returned tt s else raised ownership_error s
  ]

  unfoldable pub release_owner : Gate Unit
  unfolding assert_owner
  release_owner = do assert_owner thread; modify (λ s. record s { owner_thread_id = none })

  unfoldable pub begin_start :
      TransitionReason → String → Gate (CaptureGeneration × CaptureStateTransition)
  unfolding assert_owner next_generation new_cancel_event transition_to
  begin_start reason configuration_revision = do
    assert_owner thread
    state ← gets (λ s. s.state)
    require (same_state state off) value_error
    generation ← next_generation
    modify (λ s. new_cancel_event generation (record s {
      active_generation = some generation;
      draining_generation = none;
      configuration_revision = some configuration_revision;
      critical_dependencies_healthy = true;
    }))
    transition ← transition_to starting generation reason
    pure (generation, transition)

  unfoldable pub mark_recording : CaptureGeneration → TransitionReason → Gate CaptureStateTransition
  unfolding assert_owner require_active transition_to
  mark_recording generation reason = do
    assert_owner thread
    require_active generation starting
    transition_to recording generation reason

  unfoldable pub pause : TransitionReason → Gate CaptureStateTransition
  unfolding assert_owner require_generation transition_to
  pause reason = do
    assert_owner thread
    generation ← require_generation recording
    transition_to paused generation reason

  unfoldable pub resume : TransitionReason → Gate CaptureStateTransition
  unfolding assert_owner require_generation transition_to
  resume reason = do
    assert_owner thread
    generation ← require_generation paused
    transition_to recording generation reason

  unfoldable pub invalidate_and_pause :
      TransitionReason → Gate (Option CaptureGeneration × CaptureStateTransition)
  unfolding assert_owner cancel_active next_generation new_cancel_event transition_to
  invalidate_and_pause reason = do
    assert_owner thread
    s ← gets (λ s. s)
    require (is_active_state s.state) value_error
    let previous_generation = s.active_generation
    modify cancel_active
    invalidation_generation ← next_generation
    modify (λ s. new_cancel_event invalidation_generation (record s {
      active_generation = some invalidation_generation;
      draining_generation = previous_generation;
    }))
    transition ← transition_to paused invalidation_generation reason
    pure (previous_generation, transition)

  unfoldable pub begin_stopping :
      TransitionReason → Gate (Option CaptureGeneration × CaptureStateTransition)
  unfolding assert_owner cancel_active draining_after next_generation transition_to
  begin_stopping reason = do
    assert_owner thread
    previous_generation ← gets (λ s. s.active_generation)
    modify cancel_active
    modify (λ s. record s {
      draining_generation = draining_after previous_generation s.draining_generation;
    })
    invalidation_generation ← next_generation
    modify (λ s. record s { active_generation = none })
    transition ← transition_to stopping invalidation_generation reason
    pure (previous_generation, transition)

  unfoldable pub finish_off : TransitionReason → Gate CaptureStateTransition
  unfolding assert_owner current_epoch_generation transition_to stale_event
  finish_off reason = do
    assert_owner thread
    generation ← current_epoch_generation
    transition ← transition_to off generation reason
    modify (λ s. record s {
      active_generation = none;
      draining_generation = none;
      configuration_revision = none;
      critical_dependencies_healthy = true;
      cancel_events = λ value. stale_event s value (s.cancel_events value);
    })
    pure transition

  unfoldable pub fault : TransitionReason → Gate (Option CaptureGeneration × CaptureStateTransition)
  unfolding assert_owner active_or_draining cancel_active draining_after next_generation
      transition_to
  fault reason = do
    assert_owner thread
    previous_generation ← gets active_or_draining
    modify cancel_active
    modify (λ s. record s {
      draining_generation = draining_after s.active_generation s.draining_generation;
    })
    invalidation_generation ← next_generation
    modify (λ s. record s { active_generation = none; critical_dependencies_healthy = false })
    transition ← transition_to faulted invalidation_generation reason
    pure (previous_generation, transition)
