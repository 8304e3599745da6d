-- ===== src/Lifecycle/Actor/Blocks.antt =====
-- The automatic block returns and leaves the actor settled.
use local_recall.Common.{
  ℕ, ◌≡◌, refl, true, false, ◌&&◌, ◌||◌, inl, inr, Bool-cases, none, some, arith, is_some,
}
use local_recall.Lifecycle.State.{
  CaptureState, off, starting, recording, paused, stopping, faulted, TransitionReason, same_state,
  same_reason, CaptureStateSnapshot, is_active_state, session_locked, idle,
}
use local_recall.Lifecycle.Gate.Moves.{IsAt, resume-IsAt, invalidate_and_pause-IsAt}
use local_recall.Lifecycle.Gate.Transitions
use local_recall.Lifecycle.Messages.{SetAutomaticCaptureBlock}
use local_recall.Lifecycle.Actor.{Environment, LifecycleActor, result}
use local_recall.Lifecycle.Actor.Control.{state_at, on_gate_of-Reaches}
use local_recall.Lifecycle.Actor.Settled.{may_rest, Settles, result-Settles, audited-Settles}
use local_recall.Lifecycle.Actor.Receive.{
  latched_for, expected_release, latch_block, release_block, set_block, clear_block,
  handle_automatic_block,
}
use local_recall.Lifecycle.Actor.Safety.{pause_drained-Settles}

-- The test of the states in which a block is only latched.
active_passes :
    (c : CaptureState)
    → is_active_state c ≡ true
    → (same_state c off || same_state c stopping || same_state c faulted) ≡ false
active_passes starting e = refl
active_passes recording e = refl
active_passes paused e = refl
active_passes _ e = cc

module _ (env : Environment) (me : ℕ) where
  block_active-Settles :
      (reason : TransitionReason) (c : CaptureState) (current : CaptureStateSnapshot)
      (a : LifecycleActor)
      → is_active_state c ≡ true
      → IsAt me c a.gate
      → current.state ≡ c
      → Settles me (latch_block env me reason current a)
  unfolding latch_block
  block_active-Settles reason c current a t h s =
      let ((generation, transition), b, e, w) =
        on_gate_of-Reaches me paused (Transitions.invalidate_and_pause me reason)
          (record a { automatic_pause_reason = some reason })
          (invalidate_and_pause-IsAt me reason a.gate c t h) in
      let passed = active_passes c t in
      rw (s, passed, e) (pause_drained-Settles env me generation transition b w.gate)

  latch_block-Settles :
      (reason : TransitionReason) (c : CaptureState) (current : CaptureStateSnapshot)
      (a : LifecycleActor)
      → IsAt me c a.gate
      → current.state ≡ c
      → may_rest a.automatic_pause_reason c ≡ true
      → Settles me (latch_block env me reason current a)
  unfolding latch_block may_rest
  latch_block-Settles reason off current a h s e =
      rw s (result-Settles env me off true false "session_safety_latched" none _ h refl)
  latch_block-Settles reason faulted current a h s e =
      rw s (result-Settles env me faulted true false "session_safety_latched" none _ h refl)
  latch_block-Settles reason starting current a h s e =
      block_active-Settles reason starting current a refl h s
  latch_block-Settles reason recording current a h s e =
      block_active-Settles reason recording current a refl h s
  latch_block-Settles reason paused current a h s e =
      block_active-Settles reason paused current a refl h s
  latch_block-Settles reason c current a h s e = cc

  set_block-Settles :
      (reason : TransitionReason) (c : CaptureState) (current : CaptureStateSnapshot)
      (a : LifecycleActor)
      → IsAt me c a.gate
      → current.state ≡ c
      → may_rest a.automatic_pause_reason c ≡ true
      → Settles me (set_block env me reason current a)
  unfolding set_block
  set_block-Settles reason c current a h s e =
      elim (Bool-cases
        (latched_for a.automatic_pause_reason session_locked && same_reason reason idle)) [
          | inl t ↦
              rw t (result-Settles env me c true false "stronger_safety_block_active" none a h e)
          | inr t ↦
              elim (Bool-cases
                (latched_for a.automatic_pause_reason reason && same_state current.state paused)) [
                  | inl p ↦
                      rw (t, p)
                        (result-Settles env me c true false "session_safety_already_blocked" none a
                          h e)
                  | inr p ↦ rw (t, p) (latch_block-Settles reason c current a h s e)
                ]
        ]

  release_block-Settles :
      (reason : TransitionReason) (c : CaptureState) (current : CaptureStateSnapshot)
      (a : LifecycleActor)
      → IsAt me c a.gate
      → current.state ≡ c
      → is_some a.automatic_pause_reason ≡ true
      → may_rest a.automatic_pause_reason c ≡ true
      → Settles me (release_block env me reason current a)
  unfolding release_block may_rest
  release_block-Settles reason paused current a h s l e = elim (Bool-cases a.manual_pause) [
    | inl t ↦
        rw (s, t) (result-Settles env me paused true false "manual_pause_retained" none _ h refl)
    | inr t ↦
        let (transition, b, k, w) =
          on_gate_of-Reaches me recording (Transitions.resume me reason)
            (record a { manual_pause = false; automatic_pause_reason = none })
            (resume-IsAt me reason a.gate h) in
        rw (s, t, k)
          (audited-Settles env me recording transition (result true true "recording" none) b w.gate
            (λ d v.
              result-Settles env me recording true true "recording" none d v.gate
                (rw (v.latch, w.latch) refl)))
  ]
  release_block-Settles reason recording current a h s l e = absurd (ground arith)
  release_block-Settles reason off current a h s l e =
      rw s (result-Settles env me off true false "manual_pause_retained" none _ h refl)
  release_block-Settles reason starting current a h s l e =
      rw s (result-Settles env me starting true false "manual_pause_retained" none _ h refl)
  release_block-Settles reason faulted current a h s l e =
      rw s (result-Settles env me faulted true false "manual_pause_retained" none _ h refl)
  release_block-Settles reason c current a h s l e = cc

  clear_block-Settles :
      (reason : TransitionReason) (c : CaptureState) (current : CaptureStateSnapshot)
      (a : LifecycleActor)
      → IsAt me c a.gate
      → current.state ≡ c
      → may_rest a.automatic_pause_reason c ≡ true
      → Settles me (clear_block env me reason current a)
  unfolding clear_block
  clear_block-Settles reason c current a h s e =
      elim (Bool-cases (is_some a.automatic_pause_reason)) [
        | inr t ↦
            rw t (result-Settles env me c true false "session_safety_already_clear" none a h e)
        | inl t ↦
            elim (Bool-cases (same_reason reason (expected_release a.automatic_pause_reason))) [
              | inr p ↦
                  rw (t, p)
                    (result-Settles env me c false false "session_safety_release_mismatch" none a h
                      e)
              | inl p ↦ rw (t, p) (release_block-Settles reason c current a h s t e)
            ]
      ]

  pub handle_automatic_block-Settles :
      (command : SetAutomaticCaptureBlock) (c : CaptureState) (a : LifecycleActor)
      → IsAt me c a.gate
      → may_rest a.automatic_pause_reason c ≡ true
      → Settles me (handle_automatic_block env me command a)
  unfolding handle_automatic_block
  handle_automatic_block-Settles command c a h e =
      let (current, k, s, _) = state_at a h in
      rw k (elim (Bool-cases command.blocked) [
        | inl t ↦ rw t (set_block-Settles command.reason c current a h s e)
        | inr t ↦ rw t (clear_block-Settles command.reason c current a h s e)
      ])
