-- ===== src/Lifecycle/Actor/Completion.antt =====
-- What the completion of a preflight can do to the lifecycle actor.
use local_recall.Common.{
  ℕ, ◌≡◌, refl, Bool, true, false, ◌&&◌, some, inl, inr, Bool-cases, arith, same_option,
}
use local_recall.Common.Exec.{returned}
use local_recall.Lifecycle.State.{CaptureState, starting, faulted, critical_fault, same_state}
use local_recall.Lifecycle.Gate.Moves.{IsAt}
use local_recall.Lifecycle.Messages.{CompleteLifecyclePreflight, LifecycleCommandResult}
use local_recall.Lifecycle.Actor.{Environment, LifecycleActor, result}
use local_recall.Lifecycle.Actor.Control.{Reaches, state_at, enter_fault-Reaches}
use local_recall.Lifecycle.Actor.Handlers.{handle_preflight_complete}

-- The completion is for the generation that is starting.
abbrev pub is_awaited : CaptureState → LifecycleActor → CompleteLifecyclePreflight → Bool
is_awaited c a message =
    same_state c starting && same_option a.gate.active_generation (some message.generation)

module _ (env : Environment) (me : ℕ) (c : CaptureState) (message : CompleteLifecyclePreflight)
    (a : LifecycleActor) where
  -- A preflight that completes when its generation is no longer starting is ignored: the actor keeps
  -- its whole state, and the answer says so.
  pub stale_preflight :
      IsAt me c a.gate
      → is_awaited c a message ≡ false
      → (r : LifecycleCommandResult) × (handle_preflight_complete env me message a ≡ returned r a)
        × (r.accepted ≡ false)
        × (r.changed ≡ false)
  unfolding handle_preflight_complete result
  stale_preflight h e =
      let (current, k, s, g) = state_at a h in
      elim (Bool-cases (same_state c starting)) [
        | inl t ↦
            let other : same_option a.gate.active_generation (some message.generation) ≡ false =
              ground arith in
            rw (k, s, g, t, other, k) (_, refl, refl, refl)
        | inr t ↦ rw (k, s, t, k) (_, refl, refl, refl)
      ]

  -- A preflight that is awaited and not ready faults the gate; it never records.
  pub failed_preflight :
      IsAt me c a.gate
      → is_awaited c a message ≡ true
      → message.result.ready ≡ false
      → Reaches me a faulted (handle_preflight_complete env me message a)
  unfolding handle_preflight_complete
  failed_preflight h e r =
      let (current, k, s, g) = state_at a h in
      let t : same_state c starting ≡ true = ground arith in
      let same : same_option a.gate.active_generation (some message.generation) ≡ true =
        ground arith in
      rw (k, s, g, t, same, r) (enter_fault-Reaches env me c _ critical_fault true a h)
