-- ===== src/Session/Preflight/Start.antt =====
-- src/local_recall/session/safety.py, `SessionSafetyPreflight`: how a capture starts.
use local_recall.Common.{
  ◌≡◌, ◌⊎◌, refl, Bool, Bool-cases, inl, inr, true, false, not, ◌&&◌, Option-cases, some, List, any,
  ap, sym, arith, ◌∙◌,
}
use local_recall.Common.Exec.{returned}
use local_recall.Lifecycle.State.{session_locked, idle as idle_reason}
use local_recall.Lifecycle.Messages.{LifecyclePreflightResult}
use local_recall.Policy.{Library, PolicyOperation, PolicyPhase, PolicyEvaluationContext}
use local_recall.Policy.Engine.{PolicyEngine, set_session_locked}
use local_recall.Policy.Evaluate.{evaluate}
use local_recall.Session.{is_unlocked, is_idle, normalize_all, LockObservation, IdleObservation}
use local_recall.Session.Resolution.{resolve_idle_observations-state}
use local_recall.Session.Controller.Keeps.{set_session_locked-locked}
use local_recall.Session.Controller.Blocking.{locked-denied}
use local_recall.Session.Preflight.{SessionSafetyPreflight, collect, answer_of, check, seen_idle}

abbrev pub sees_idle : SessionSafetyPreflight → Bool
sees_idle p =
    p.idle_settings.enabled
    && p.idle_settings.pause_capture
    && any (λ o. is_idle o.state) (normalize_all p.idle_settings p.now (collect p).1)

answer_of-starts :
    (p : SessionSafetyPreflight) (lock : LockObservation) (l : List IdleObservation)
    (result : LifecyclePreflightResult)
    → let r = answer_of p lock l result in
      r.ready ≡ true
      → ((is_unlocked lock.state ≡ false) × (r.start_paused_reason ≡ some session_locked))
        ⊎ ((is_unlocked lock.state ≡ true)
            × ((p.idle_settings.enabled
                  && p.idle_settings.pause_capture
                  && is_idle (seen_idle p l).state)
                ≡ true)
            × (r.start_paused_reason ≡ some idle_reason))
        ⊎ ((is_unlocked lock.state ≡ true)
            × ((p.idle_settings.enabled
                  && p.idle_settings.pause_capture
                  && is_idle (seen_idle p l).state)
                ≡ false)
            × (r ≡ result))
unfolding answer_of
answer_of-starts p lock l result e = elim (Bool-cases result.ready) [
  | inr n ↦ cc
  | inl y ↦ elim (Bool-cases (is_unlocked lock.state)) [
    | inr u ↦ rw (y, u) (inl (refl, refl))
    | inl u ↦
        elim (Bool-cases (
          p.idle_settings.enabled
          && p.idle_settings.pause_capture
          && is_idle (seen_idle p l).state)) [
            | inl i ↦ rw (y, u, i) (inr (inl (refl, refl, refl)))
            | inr i ↦ rw (y, u, i) (inr (inr (refl, refl, refl)))
          ]
  ]
]

check-returned :
    (p : SessionSafetyPreflight) (s t : PolicyEngine) (r : LifecyclePreflightResult)
    → check p s ≡ returned r t
    → (b : LifecyclePreflightResult) × (p.base ≡ some b)
      × (r ≡ answer_of p (collect p).0 (collect p).1 b)
      × (t ≡ set_session_locked (not (is_unlocked (collect p).0.state)) s)
unfolding check
check-returned p s t r e = elim (Option-cases p.base) [
  | inl f ↦ ground arith
  | inr (b, f) ↦ ground arith
]

-- After a check that returns a ready result the policy is locked exactly when the session was not seen
-- to be unlocked. In that case the capture starts paused for the lock, and the policy denies every
-- operation in every context. Otherwise it starts paused for idleness exactly when the settings ask for
-- that and some idle source, after the check of its age and of its seconds, is idle; and if none is,
-- the result is that of the check behind.
pub check-starts :
    (library : Library) (operation : PolicyOperation) (phase : PolicyPhase)
    (context : PolicyEvaluationContext) (p : SessionSafetyPreflight) (s t : PolicyEngine)
    (r : LifecyclePreflightResult)
    → check p s ≡ returned r t
    → r.ready ≡ true
    → (t.session_locked ≡ not (is_unlocked (collect p).0.state))
      × (((is_unlocked (collect p).0.state ≡ false)
            × (r.start_paused_reason ≡ some session_locked)
            × ((evaluate library operation phase context t).0.allowed ≡ false))
          ⊎ ((is_unlocked (collect p).0.state ≡ true)
              × (sees_idle p ≡ true)
              × (r.start_paused_reason ≡ some idle_reason))
          ⊎ ((is_unlocked (collect p).0.state ≡ true) × (sees_idle p ≡ false) × (p.base ≡ some r)))
check-starts library operation phase context p s t r e y =
    let (b, f, g, h) = check-returned p s t r e in
    let is_locked : t.session_locked ≡ not (is_unlocked (collect p).0.state) =
      ap (λ u. u.session_locked) h ∙ set_session_locked-locked _ s in
    let (same, _, _) =
      resolve_idle_observations-state p.idle_settings p.source_order p.now (collect p).1 in
    let idle_seen : sees_idle p ≡ (
        p.idle_settings.enabled
        && p.idle_settings.pause_capture
        && is_idle (seen_idle p (collect p).1).state) =
      ap (λ x. p.idle_settings.enabled && p.idle_settings.pause_capture && x) (sym same) in
    (
      is_locked,
      elim (answer_of-starts p (collect p).0 (collect p).1 b (ap (λ x. x.ready) (sym g) ∙ y)) [
        | inl (u, reason) ↦ inl (
          u,
          ap (λ x. x.start_paused_reason) g ∙ reason,
          locked-denied library operation phase context t (is_locked ∙ ap not u),
        )
        | inr (inl (u, i, reason)) ↦
            inr (inl (u, idle_seen ∙ i, ap (λ x. x.start_paused_reason) g ∙ reason))
        | inr (inr (u, i, same_result)) ↦
            inr (inr (u, idle_seen ∙ i, f ∙ ap some (sym same_result) ∙ ap some (sym g)))
      ],
    )
