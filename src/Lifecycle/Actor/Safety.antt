-- ===== src/Lifecycle/Actor/Safety.antt =====
-- The handlers leave the actor settled. All of them return, but that of a start, which may find the
-- preflight actor dead.
use local_recall.Common.{
  ℕ, ◌≡◌, refl, sym, true, false, inl, inr, Bool-cases, Option, Option-cases, none, some,
  same_option, same_option→≡,
}
use local_recall.Common.Exec.{pure}
use local_recall.Lifecycle.State.{
  CaptureState, off, starting, recording, paused, TransitionReason, critical_fault,
  CaptureGeneration, CaptureStateTransition, CaptureStateSnapshot,
}
use local_recall.Lifecycle.Gate.Moves.{
  IsAt, begin_start-IsAt, mark_recording-IsAt, pause-IsAt, resume-IsAt, invalidate_and_pause-IsAt,
}
use local_recall.Lifecycle.Gate.Transitions
use local_recall.Lifecycle.Messages.{
  preflight_failure, ConfigurationSnapshot, CompleteLifecyclePreflight, RunLifecyclePreflight,
}
use local_recall.Lifecycle.Actor.{Environment, LifecycleActor, external, result, audited}
use local_recall.Lifecycle.Actor.Control.{
  here, IsAt-meanwhile, state_at, on_gate_of-Reaches, external-Reaches, if-Reaches,
}
use local_recall.Lifecycle.Actor.Settled.{
  may_rest, Settles, Ends, audited-Ends, result-Settles, enter_fault-Settles, audited-Settles,
  drained-Settles,
}
use local_recall.Lifecycle.Actor.Handlers.{
  tell_preflight, run_preflight, start_off, handle_start, handle_pause, resume_unblocked,
  handle_resume, drained, or_reason, complete_ready, handle_preflight_complete,
}

module _ (env : Environment) (me : ℕ) where
  tell_preflight-Ends :
      (message : RunLifecyclePreflight) (a : LifecycleActor)
      → IsAt me starting a.gate
      → Ends env me (tell_preflight env message a)
  unfolding tell_preflight external may_rest
  tell_preflight-Ends message a h =
      let k = IsAt-meanwhile (env.workers a.calls) a.gate h in
      elim (Bool-cases (env.preflight_told a.calls)) [
        | inl t ↦
            rw (tell_preflight, external, t)
              (inl (result-Settles env me starting true true "starting" none _ k refl))
        | inr t ↦
            rw (tell_preflight, external, t)
              (inr (
                a.calls,
                _,
                t,
                refl,
                k.at,
                record { valid = k.valid; owner = k.owner; rests = rw k.at refl },
              ))
      ]

  run_preflight-Ends :
      (configuration : ConfigurationSnapshot) (generation : CaptureGeneration)
      (reason : TransitionReason) (a : LifecycleActor)
      → IsAt me starting a.gate
      → Ends env me (run_preflight env me configuration generation reason a)
  unfolding run_preflight may_rest
  run_preflight-Ends configuration generation reason a h =
      let (alive, a1, e1, w1) =
        if-Reaches env me starting a.has_preflight_ref (external env env.preflight_alive)
          (pure false) a (external-Reaches env me starting env.preflight_alive a h)
          (false, a, refl, here h) in
      rw e1 (elim (Bool-cases alive) [
        | inl t ↦
            let (now, a2, e2, w2) = external-Reaches env me starting env.monotonic_ns a1 w1.gate in
            rw (t, e2) (tell_preflight-Ends _ a2 w2.gate)
        | inr t ↦ rw t (
            inl (
              enter_fault-Settles env me starting preflight_failure critical_fault true a1 w1.gate))
      ])

  start_off-Ends :
      (reason : TransitionReason) (a : LifecycleActor)
      → IsAt me off a.gate
      → Ends env me (start_off env me reason a)
  unfolding start_off may_rest
  start_off-Ends reason a h =
      let (configuration, a1, e1, w1) = external-Reaches env me off env.configuration a h in
      rw e1 (elim (Option-cases configuration) [
        | inl t ↦
            rw t (
              inl (enter_fault-Settles env me off preflight_failure critical_fault true a1 w1.gate))
        | inr (found, t) ↦ elim (Bool-cases found.capture_permitted) [
          | inl p ↦
              let ((generation, transition), a2, e2, w2) =
                on_gate_of-Reaches me starting (Transitions.begin_start me reason found.revision) a1
                  (begin_start-IsAt me reason a1.gate found.revision w1.gate) in
              rw (t, p, e2)
                (audited-Ends env me starting transition
                  (run_preflight env me
                    (record { capture_permitted = true; revision = found.revision }) generation
                    reason)
                  a2 w2.gate (λ b v. run_preflight-Ends _ generation reason b v.gate))
          | inr p ↦
              rw (t, p)
                (inl (
                  result-Settles env me off false false "capture_disabled_by_configuration" none a1
                    w1.gate refl))
        ]
      ])

  pub handle_start-Ends :
      (reason : TransitionReason) (c : CaptureState) (a : LifecycleActor)
      → IsAt me c a.gate
      → may_rest a.automatic_pause_reason c ≡ true
      → Ends env me (handle_start env me reason a)
  unfolding handle_start may_rest
  handle_start-Ends reason off a h e =
      let (_, k, s, _) = state_at a h in rw (k, s) (start_off-Ends reason a h)
  handle_start-Ends reason paused a h e =
      let (_, k, s, _) = state_at a h in
      rw (k, s) (inl (result-Settles env me paused false false "capture_paused" none a h refl))
  handle_start-Ends reason starting a h e =
      let (_, k, s, _) = state_at a h in
      rw (k, s) (inl (result-Settles env me starting true false "already_started" none a h refl))
  handle_start-Ends reason recording a h e =
      let (_, k, s, _) = state_at a h in
      rw (k, s) (inl (result-Settles env me recording true false "already_started" none a h e))
  handle_start-Ends reason c a h e =
      let (_, k, s, _) = state_at a h in
      rw (k, s) (inl (result-Settles env me c false false "invalid_start_state" none a h e))

  pub handle_pause-Settles :
      (reason : TransitionReason) (c : CaptureState) (a : LifecycleActor)
      → IsAt me c a.gate
      → may_rest a.automatic_pause_reason c ≡ true
      → Settles me (handle_pause env me reason a)
  unfolding handle_pause may_rest
  handle_pause-Settles reason paused a h e =
      let (_, k, s, _) = state_at a h in
      rw (k, s) (result-Settles env me paused true false "already_paused" none _ h refl)
  handle_pause-Settles reason recording a h e =
      let (_, k, s, _) = state_at a h in
      let (t, b, e1, w) =
        on_gate_of-Reaches me paused (Transitions.pause me reason)
          (record a { manual_pause = true }) (pause-IsAt me reason a.gate h) in
      rw (k, s, e1)
        (audited-Settles env me paused t (result true true "paused" none) b w.gate
          (λ b v. result-Settles env me paused true true "paused" none b v.gate refl))
  handle_pause-Settles reason c a h e =
      let (_, k, s, _) = state_at a h in
      rw (k, s) (result-Settles env me c false false "invalid_pause_state" none a h e)

  resume_unblocked-Settles :
      (reason : TransitionReason) (c : CaptureState) (current : CaptureStateSnapshot)
      (a : LifecycleActor)
      → IsAt me c a.gate
      → current.state ≡ c
      → a.automatic_pause_reason ≡ none
      → may_rest a.automatic_pause_reason c ≡ true
      → Settles me (resume_unblocked env me reason current a)
  unfolding resume_unblocked may_rest
  resume_unblocked-Settles reason recording current a h s l e =
      rw s (result-Settles env me recording true false "already_recording" none _ h e)
  resume_unblocked-Settles reason paused current a h s l e =
      let (t, b, e1, w) =
        on_gate_of-Reaches me recording (Transitions.resume me reason) a
          (resume-IsAt me reason a.gate h) in
      rw (s, e1)
        (audited-Settles env me recording t (result true true "recording" none)
          (record b { manual_pause = false }) w.gate
          (λ d v.
            result-Settles env me recording true true "recording" none d v.gate
              (rw (v.latch, w.latch, l) refl)))
  resume_unblocked-Settles reason c current a h s l e =
      rw s (result-Settles env me c false false "invalid_resume_state" none a h e)

  pub handle_resume-Settles :
      (reason : TransitionReason) (c : CaptureState) (a : LifecycleActor)
      → IsAt me c a.gate
      → may_rest a.automatic_pause_reason c ≡ true
      → Settles me (handle_resume env me reason a)
  unfolding handle_resume
  handle_resume-Settles reason c a h e = elim (Option-cases a.automatic_pause_reason) [
    | inl t ↦
        let (current, k, s, _) = state_at a h in
        rw (k, t)
          (resume_unblocked-Settles reason c current (record a { automatic_pause_reason = none }) h
            s refl (rw (sym t) e))
    | inr (latch, t) ↦
        let (_, k, s, _) = state_at a h in
        rw (k, t)
          (result-Settles env me c false false "session_safety_blocked" none _ h (rw (sym t) e))
  ]

  -- The end of an automatic pause: audit and drain.
  pub pause_drained-Settles :
      (generation : Option CaptureGeneration) (t : CaptureStateTransition) (a : LifecycleActor)
      → IsAt me paused a.gate
      → Settles me (
          audited env me t
            (drained env me generation (result true true "session_safety_paused" none))
            a)
  unfolding may_rest
  pause_drained-Settles generation t a h = audited-Settles env me paused t _ a h (λ b v.
      drained-Settles env me paused generation (result true true "session_safety_paused" none) b
        v.gate
        (λ d u. result-Settles env me paused true true "session_safety_paused" none d u.gate refl))

  complete_ready-Settles :
      (message : CompleteLifecyclePreflight) (pause_reason : Option TransitionReason)
      (a : LifecycleActor)
      → IsAt me starting a.gate
      → a.gate.active_generation ≡ some message.generation
      → (pause_reason ≡ none → a.automatic_pause_reason ≡ none)
      → Settles me (complete_ready env me message pause_reason a)
  unfolding complete_ready may_rest
  complete_ready-Settles message none a h g l =
      let (t, b, e, w) =
        on_gate_of-Reaches me recording
          (Transitions.mark_recording me message.generation message.reason) a
          (mark_recording-IsAt me message.reason a.gate message.generation h g) in
      rw e (
        audited-Settles env me recording t (result true true "recording" none) b w.gate (λ d v.
          result-Settles env me recording true true "recording" none d v.gate
            (rw (v.latch, w.latch, l refl) refl)))
  complete_ready-Settles message (some pause_reason) a h g l =
      let ((generation, t), b, e, w) =
        on_gate_of-Reaches me paused (Transitions.invalidate_and_pause me pause_reason) a
          (invalidate_and_pause-IsAt me pause_reason a.gate starting refl h) in
      rw e (pause_drained-Settles generation t _ w.gate)

  or_reason-none :
      (first second : Option TransitionReason) → or_reason first second ≡ none → second ≡ none
  or_reason-none none second e = e
  or_reason-none (some first) second e = cc

  pub handle_preflight_complete-Settles :
      (message : CompleteLifecyclePreflight) (c : CaptureState) (a : LifecycleActor)
      → IsAt me c a.gate
      → may_rest a.automatic_pause_reason c ≡ true
      → Settles me (handle_preflight_complete env me message a)
  unfolding handle_preflight_complete
  handle_preflight_complete-Settles message starting a h e =
      let (current, k, s, g) = state_at a h in
      rw (k, s, g)
        (elim (Bool-cases (same_option a.gate.active_generation (some message.generation))) [
          | inl t ↦ elim (Bool-cases message.result.ready) [
            | inl r ↦
                rw (t, r)
                  (complete_ready-Settles _
                    (or_reason message.result.start_paused_reason a.automatic_pause_reason) a h
                    (same_option→≡ _ _ t) (or_reason-none _ _))
            | inr r ↦ rw (t, r) (enter_fault-Settles env me starting _ critical_fault true a h)
          ]
          | inr t ↦
              rw t (result-Settles env me starting false false "stale_preflight_ignored" none a h e)
        ])
  handle_preflight_complete-Settles message c a h e =
      let (_, k, s, _) = state_at a h in
      rw (k, s) (result-Settles env me c false false "stale_preflight_ignored" none a h e)
