-- ===== src/Lifecycle/Actor/Control.antt =====
-- What the steps of the handlers do to the state of the gate and to the latches of the actor. A
-- handler is taken apart at its outside calls, during which the workers may use the gate.
use local_recall.Common.{
  ℕ, ◌≡◌, refl, sym, ◌∙◌, Bool, true, false, String, inl, inr, Bool-cases, Option, none, some, List,
  if◌then◌else◌,
}
use local_recall.Common.Exec.{Outcome, returned, raised, pure, ◌>>◌, Ensures}
use local_recall.Lifecycle.State.{
  CaptureState, faulted, TransitionReason, critical_fault, LifecycleError, CaptureGeneration,
  CaptureStateSnapshot, CaptureStateTransition, same_state,
}
use local_recall.Lifecycle.Gate.{CaptureGate, Gate, snapshot}
use local_recall.Lifecycle.Gate.Moves.{IsAt, snapshot_lem, fault-IsAt}
use local_recall.Lifecycle.Gate.Transitions
use local_recall.Lifecycle.Messages.{LifecycleFaultCode, audit_failure}
use local_recall.Lifecycle.Workers.{WorkerAction, meanwhile, meanwhile-IsValid}
use local_recall.Lifecycle.Actor.{
  Environment, LifecycleActor, Actor, on_gate, on_gate_of, result, external, clear_buffers,
  wait_for_operations, drain, drain_generation, emit, enter_fault, emit_transition,
}

-- The gate has come to the state `c`, and the latches are those of `a`.
pub record Went (me : ℕ) (a : LifecycleActor) (c : CaptureState) (b : LifecycleActor) : Type 0 where
  pub gate : IsAt me c b.gate
  pub manual : b.manual_pause ≡ a.manual_pause
  pub latch : b.automatic_pause_reason ≡ a.automatic_pause_reason

pub Went-trans :
    {me : ℕ} {a b d : LifecycleActor} {c c' : CaptureState}
    → Went me a c b
    → Went me b c' d
    → Went me a c' d
Went-trans h k = record { gate = k.gate; manual = k.manual ∙ h.manual; latch = k.latch ∙ h.latch }

pub IsAt-meanwhile :
    {me : ℕ} {c : CaptureState} (ws : List WorkerAction) (s : CaptureGate)
    → IsAt me c s
    → IsAt me c (meanwhile ws s)
IsAt-meanwhile ws s h = record {
  valid = meanwhile-IsValid ws s h.valid;
  owner = h.owner;
  at = h.at;
}

-- The method returns, and the gate has come to the state `c`.
abbrev pub Reaches :
    {A : Type 0}
    → ℕ
    → LifecycleActor
    → CaptureState
    → Outcome LifecycleActor LifecycleError A
    → Type 0
Reaches {A} me a c o = (r : A) × (b : LifecycleActor) × (o ≡ returned r b) × Went me a c b

pub Reaches-trans :
    {A : Type 0} {me : ℕ} {a b : LifecycleActor} {c d : CaptureState}
    (o : Outcome LifecycleActor LifecycleError A)
    → Went me a c b
    → Reaches me b d o
    → Reaches me a d o
Reaches-trans o w (r, t, e, v) = (r, t, e, Went-trans w v)

pub here : {me : ℕ} {a : LifecycleActor} {c : CaptureState} → IsAt me c a.gate → Went me a c a
here h = record { gate = h; manual = refl; latch = refl }

on_gate-Reaches :
    {A : Type 0} (me : ℕ) (d : CaptureState) (a : LifecycleActor)
    (o : Outcome CaptureGate LifecycleError A)
    → Ensures (λ _ t. IsAt me d t) o
    → Reaches me a d (on_gate o a)
unfolding on_gate
on_gate-Reaches me d a (returned r t) k =
    (r, record a { gate = t }, refl, record { gate = k; manual = refl; latch = refl })
on_gate-Reaches me d a (raised e t) k = absurd k

pub on_gate_of-Reaches :
    {A : Type 0} (me : ℕ) (d : CaptureState) (m : Gate A) (a : LifecycleActor)
    → Ensures (λ _ t. IsAt me d t) (m a.gate)
    → Reaches me a d (on_gate_of m a)
unfolding on_gate_of
on_gate_of-Reaches me d m a k = on_gate-Reaches me d a (m a.gate) k

-- The snapshot of a valid gate names its state.
pub state_at :
    {me : ℕ} {c : CaptureState} (a : LifecycleActor)
    → IsAt me c a.gate
    → (r : CaptureStateSnapshot) × (on_gate_of snapshot a ≡ returned r a)
      × (r.state ≡ c)
      × (r.generation ≡ a.gate.active_generation)
unfolding on_gate_of
state_at a h = rw (snapshot_lem a.gate h.valid) (_, refl, h.at, refl)

pub result-Reaches :
    (me : ℕ) (c : CaptureState) (accepted changed : Bool) (code : String)
    (fault : Option LifecycleFaultCode) (a : LifecycleActor)
    → IsAt me c a.gate
    → Reaches me a c (result accepted changed code fault a)
unfolding result
result-Reaches me c accepted changed code fault a h =
    let (r, e, k, _) = state_at a h in rw e (_, a, refl, here h)

is_faulted : (c : CaptureState) → same_state c faulted ≡ true → c ≡ faulted
is_faulted faulted e = refl
is_faulted _ e = cc

module _ (env : Environment) (me : ℕ) (c : CaptureState) where
  pub external-Reaches :
      {A : Type 0} (answer : ℕ → A) (a : LifecycleActor)
      → IsAt me c a.gate
      → Reaches me a c (external env answer a)
  unfolding external
  external-Reaches answer a h = (
    answer a.calls,
    _,
    refl,
    record { gate = IsAt-meanwhile (env.workers a.calls) a.gate h; manual = refl; latch = refl },
  )

  pub clear_buffers-Reaches :
      (a : LifecycleActor) → IsAt me c a.gate → Reaches me a c (clear_buffers env a)
  unfolding clear_buffers
  clear_buffers-Reaches a h =
      let (r, b, e, w) = external-Reaches env.buffers_cleared a h in rw e (_, b, refl, w)

  wait_for_operations-Reaches :
      (generation : CaptureGeneration) (a : LifecycleActor)
      → IsAt me c a.gate
      → Reaches me a c (wait_for_operations env generation a)
  unfolding wait_for_operations
  wait_for_operations-Reaches generation a h =
      let (r, b, e, w) = external-Reaches (λ _. tt) a h in rw e (_, b, refl, w)

  pub if-Reaches :
      {A : Type 0} (t : Bool) (m n : Actor A) (a : LifecycleActor)
      → Reaches me a c (m a)
      → Reaches me a c (n a)
      → Reaches me a c ((if t then m else n) a)
  if-Reaches true m n a h k = h
  if-Reaches false m n a h k = k

  drain-Reaches :
      (generation : CaptureGeneration) (a : LifecycleActor)
      → IsAt me c a.gate
      → Reaches me a c (drain env generation a)
  unfolding drain
  drain-Reaches generation a h =
      let (queued, a1, e1, w1) = external-Reaches env.queued_cancelled a h in
      let (in_flight, a2, e2, w2) = external-Reaches env.in_flight_cancelled a1 w1.gate in
      let (left, a3, e3, w3) = external-Reaches env.time_left a2 w2.gate in
      let (quiet, a4, e4, w4) =
        if-Reaches left (wait_for_operations env generation) (pure false) a3
          (wait_for_operations-Reaches generation a3 w3.gate) (_, a3, refl, here w3.gate) in
      let (left', a5, e5, w5) = external-Reaches env.time_left a4 w4.gate in
      let (quiet', a6, e6, w6) =
        if-Reaches left' (external env env.pipeline_quiescent) (pure false) a5
          (external-Reaches env.pipeline_quiescent a5 w5.gate) (_, a5, refl, here w5.gate) in
      let (code, a7, e7, w7) = clear_buffers-Reaches a6 w6.gate in
      rw (e1, e2, e3, e4, e5, e6, e7)
        (
          _,
          a7,
          refl,
          Went-trans w1
              (Went-trans w2 (Went-trans w3 (Went-trans w4 (Went-trans w5 (Went-trans w6 w7))))),
        )

  pub drain_generation-Reaches :
      (generation : Option CaptureGeneration) (a : LifecycleActor)
      → IsAt me c a.gate
      → Reaches me a c (drain_generation env generation a)
  unfolding drain_generation
  drain_generation-Reaches none a h = clear_buffers-Reaches a h
  drain_generation-Reaches (some generation) a h = drain-Reaches generation a h

  pub emit-Reaches :
      (transition : CaptureStateTransition) (code : Option LifecycleFaultCode) (a : LifecycleActor)
      → IsAt me c a.gate
      → Reaches me a c (emit env transition code a)
  unfolding emit
  emit-Reaches transition code a h =
      let (accepted, b, e, w) = external-Reaches env.audit_accepts a h in
      rw e (elim (Bool-cases accepted) [
        | inl t ↦ rw t (_, _, refl, record { gate = w.gate; manual = w.manual; latch = w.latch })
        | inr t ↦ rw t (_, _, refl, w)
      ])

module _ (env : Environment) (me : ℕ) (c : CaptureState) where
  -- On a valid gate, called by its owner, `_enter_fault` returns, and the gate is faulted, valid and
  -- owned, with the latches of the actor as they were.
  pub enter_fault-Reaches :
      (code : LifecycleFaultCode) (reason : TransitionReason) (drains : Bool) (a : LifecycleActor)
      → IsAt me c a.gate
      → Reaches me a faulted (enter_fault env me code reason drains a)
  unfolding enter_fault
  enter_fault-Reaches code reason drains a h =
      let (current, e, k, _) = state_at a h in
      rw (e, k)
        (elim (Bool-cases (same_state c faulted)) [
          | inl t ↦ rw t (
              result-Reaches me faulted false false "faulted" (some code) a
                (rw (sym (is_faulted c t)) h))
          | inr t ↦
              let ((generation, transition), a1, e1, w1) =
                on_gate_of-Reaches me faulted (Transitions.fault me reason) a
                  (fault-IsAt me reason a.gate c (rw t refl) h) in
              let (_, a2, e2, w2) = emit-Reaches env me faulted transition (some code) a1 w1.gate in
              let (_, a3, e3, w3) =
                if-Reaches env me faulted drains (drain_generation env generation >> pure tt)
                  (pure tt) a2
                  (let (_, d, e, w) =
                      drain_generation-Reaches env me faulted generation a2 w2.gate in
                    rw e (tt, d, refl, w))
                  (tt, a2, refl, here w2.gate) in
              let (r, a4, e4, w4) =
                result-Reaches me faulted false true "faulted" (some code) a3 w3.gate in
              rw (t, e1, e2, e3, e4) (r, a4, refl, Went-trans w1 (Went-trans w2 (Went-trans w3 w4)))
        ])

  -- On a valid gate, called by its owner, `_emit_transition` returns true with the gate in the state in
  -- which it was, or false with the gate faulted; the latches are as they were.
  pub emit_transition-Reaches :
      (transition : CaptureStateTransition) (a : LifecycleActor)
      → IsAt me c a.gate
      → (r : Bool) × (b : LifecycleActor) × (emit_transition env me transition a ≡ returned r b)
        × Went me a (if r then c else faulted) b
  unfolding emit_transition
  emit_transition-Reaches transition a h =
      let (accepted, a1, e1, w1) = emit-Reaches env me c transition none a h in
      rw e1 (elim (Bool-cases accepted) [
        | inl t ↦ rw t (true, a1, refl, w1)
        | inr t ↦
            let (current, e, k, _) = state_at a1 w1.gate in
            rw (t, e, k)
              (elim (Bool-cases (same_state c faulted)) [
                | inl t' ↦ rw t' (false, a1, refl, rw (sym (is_faulted c t')) w1)
                | inr t' ↦
                    let (_, a2, e2, w2) =
                      enter_fault-Reaches audit_failure critical_fault true a1 w1.gate in
                    rw (t', e2) (false, a2, refl, Went-trans w1 w2)
              ])
      ])
