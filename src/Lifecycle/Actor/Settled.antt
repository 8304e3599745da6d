-- ===== src/Lifecycle/Actor/Settled.antt =====
-- What it is for the lifecycle actor to be settled, and how a handler ends.
use local_recall.Common.{
  ℕ, ◌≡◌, refl, Bool, true, false, not, ◌⊎◌, inl, String, Option, none, some, if◌then◌else◌,
  is_some,
}
use local_recall.Common.Exec.{Outcome, returned, raised}
use local_recall.Lifecycle.State.{
  CaptureState, starting, recording, privacy, stopping, faulted, TransitionReason, critical_fault,
  LifecycleError, actor_is_dead, CaptureGeneration, CaptureStateTransition,
}
use local_recall.Lifecycle.Gate.Invariant.{IsValid}
use local_recall.Lifecycle.Gate.Moves.{IsAt}
use local_recall.Lifecycle.Messages.{LifecycleFaultCode, audit_failure, LifecycleCommandResult}
use local_recall.Lifecycle.Actor.{Environment, LifecycleActor, Actor, result, enter_fault, audited}
use local_recall.Lifecycle.Actor.Control.{
  Went, result-Reaches, enter_fault-Reaches, drain_generation-Reaches, emit_transition-Reaches,
}
use local_recall.Lifecycle.Actor.Handlers.{drained}

-- Between two messages the gate is neither stopping nor in the state `privacy`, and while a safety latch is set it does not record.
unfoldable pub may_rest : Option TransitionReason → CaptureState → Bool
may_rest latch stopping = false
may_rest latch privacy = false
may_rest latch recording = not (is_some latch)
may_rest latch _ = true

pub record IsSettled (me : ℕ) (a : LifecycleActor) : Type 0 where
  pub valid : IsValid a.gate
  pub owner : a.gate.owner_thread_id ≡ some me
  pub rests : may_rest a.automatic_pause_reason a.gate.state ≡ true

-- The handler returns, and the actor is settled after it.
abbrev pub Settles : {A : Type 0} → ℕ → Outcome LifecycleActor LifecycleError A → Type 0
Settles {A} me o = (r : A) × (b : LifecycleActor) × (o ≡ returned r b) × IsSettled me b

-- It returns so, or it raises since the preflight actor cannot be told to start; then the actor is
-- settled as well, with the gate starting.
abbrev pub Ends : {A : Type 0} → Environment → ℕ → Outcome LifecycleActor LifecycleError A → Type 0
Ends {A} env me o =
    Settles me o
    ⊎ ((n : ℕ) × (b : LifecycleActor) × (env.preflight_told n ≡ false)
        × (o ≡ raised actor_is_dead b)
        × (b.gate.state ≡ starting)
        × IsSettled me b)

Went-IsSettled :
    {me : ℕ} {c : CaptureState} {a b : LifecycleActor}
    → Went me a c b
    → may_rest a.automatic_pause_reason c ≡ true
    → IsSettled me b
Went-IsSettled w e = record {
  valid = w.gate.valid;
  owner = w.gate.owner;
  rests = rw (w.latch, w.gate.at) e;
}

faulted-IsSettled : {me : ℕ} {a b : LifecycleActor} → Went me a faulted b → IsSettled me b
unfolding may_rest
faulted-IsSettled w = Went-IsSettled w refl

module _ (env : Environment) (me : ℕ) (c : CaptureState) where
  pub result-Settles :
      (accepted changed : Bool) (code : String) (fault : Option LifecycleFaultCode)
      (a : LifecycleActor)
      → IsAt me c a.gate
      → may_rest a.automatic_pause_reason c ≡ true
      → Settles me (result accepted changed code fault a)
  result-Settles accepted changed code fault a h e =
      let (r, b, k, w) = result-Reaches me c accepted changed code fault a h in
      (r, b, k, Went-IsSettled w e)

  pub enter_fault-Settles :
      (code : LifecycleFaultCode) (reason : TransitionReason) (drains : Bool) (a : LifecycleActor)
      → IsAt me c a.gate
      → Settles me (enter_fault env me code reason drains a)
  enter_fault-Settles code reason drains a h =
      let (r, b, k, w) = enter_fault-Reaches env me c code reason drains a h in
      (r, b, k, faulted-IsSettled w)

  pub audited-Settles :
      (transition : CaptureStateTransition) (rest : Actor LifecycleCommandResult)
      (a : LifecycleActor)
      → IsAt me c a.gate
      → ((b : LifecycleActor) → Went me a c b → Settles me (rest b))
      → Settles me (audited env me transition rest a)
  unfolding audited
  audited-Settles transition rest a h k =
      let (emitted, b, e, w) = emit_transition-Reaches env me c transition a h in
      rw e (go emitted b w)
    where
      go :
          (emitted : Bool) (b : LifecycleActor)
          → Went me a (if emitted then c else faulted) b
          → Settles me
              ((if emitted then rest else result false true "audit_failure" (some audit_failure)) b)
      go true b w = k b w
      go false b w =
          let (r, d, e, v) =
            result-Reaches me faulted false true "audit_failure" (some audit_failure) b w.gate in
          (r, d, e, faulted-IsSettled v)

  pub audited-Ends :
      (transition : CaptureStateTransition) (rest : Actor LifecycleCommandResult)
      (a : LifecycleActor)
      → IsAt me c a.gate
      → ((b : LifecycleActor) → Went me a c b → Ends env me (rest b))
      → Ends env me (audited env me transition rest a)
  unfolding audited
  audited-Ends transition rest a h k =
      let (emitted, b, e, w) = emit_transition-Reaches env me c transition a h in
      rw e (go emitted b w)
    where
      go :
          (emitted : Bool) (b : LifecycleActor)
          → Went me a (if emitted then c else faulted) b
          → Ends env me
              ((if emitted then rest else result false true "audit_failure" (some audit_failure)) b)
      go true b w = k b w
      go false b w =
          let (r, d, e, v) =
            result-Reaches me faulted false true "audit_failure" (some audit_failure) b w.gate in
          inl (r, d, e, faulted-IsSettled v)

  pub drained-Settles :
      (generation : Option CaptureGeneration) (rest : Actor LifecycleCommandResult)
      (a : LifecycleActor)
      → IsAt me c a.gate
      → ((b : LifecycleActor) → Went me a c b → Settles me (rest b))
      → Settles me (drained env me generation rest a)
  unfolding drained
  drained-Settles generation rest a h k =
      let (code, b, e, w) = drain_generation-Reaches env me c generation a h in rw e (go code b w)
    where
      go :
          (code : Option LifecycleFaultCode) (b : LifecycleActor)
          → Went me a c b
          → Settles me (
              (elim code as (λ _. Actor LifecycleCommandResult) [
                | none ↦ rest
                | some code ↦ enter_fault env me code critical_fault false
              ])
                b)
      go none b w = k b w
      go (some code) b w =
          let (r, d, e, v) = enter_fault-Reaches env me c code critical_fault false b w.gate in
          (r, d, e, faulted-IsSettled v)
