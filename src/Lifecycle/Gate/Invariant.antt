-- ===== src/Lifecycle/Gate/Invariant.antt =====
-- What holds of the gate between two of its methods, and that each of them keeps it.
use local_recall.Common.{
  ℕ, ◌<◌, ◌≡◌, refl, true, false, Option, none, some, List, arith, is_some, if◌then◌else◌,
}
use local_recall.Lifecycle.State.{privacy, CaptureGeneration, is_active_state, same_state}
use local_recall.Lifecycle.Gate.{CaptureGate, new}
use local_recall.Lifecycle.Gate.Schedule.{Action, acquire_preflight, perform, run, run_induction}

-- The event of a generation is there and has not been set.
abbrev pub Usable : CaptureGate → Option ℕ → Type 0
Usable s none = ⊥
Usable s (some event) = s.is_set event ≡ false

abbrev pub HasUsableEvent : CaptureGate → Option CaptureGeneration → Type 0
HasUsableEvent s none = Unit
HasUsableEvent s (some generation) = Usable s (s.cancel_events generation)

pub record IsValid (s : CaptureGate) : Type 0 where
  -- exactly the active states have a generation, and it is the newest one
  pub owned :
      s.active_generation ≡ (if is_active_state s.state then some s.generation_epoch else none)
  pub positive : is_active_state s.state ≡ true → 0 < s.generation_epoch
  pub not_privacy : same_state s.state privacy ≡ false
  pub configured : is_active_state s.state ≡ true → is_some s.configuration_revision ≡ true
  pub usable : HasUsableEvent s s.active_generation
  pub allocated : (g e : ℕ) → s.cancel_events g ≡ some e → e < s.next_event

pub new-IsValid : IsValid new
new-IsValid = record {
  owned = refl;
  positive = λ e. cc;
  not_privacy = refl;
  configured = λ e. cc;
  usable = tt;
  allocated = λ g e q. cc;
}

-- Each field is kept by each call.
module _ (s : CaptureGate) (v : IsValid s) where
  perform-owned :
      (a : Action)
      → (perform a s).active_generation ≡ (
          if is_active_state (perform a s).state then some (perform a s).generation_epoch else none)
  unfolding perform
  perform-owned (acquire_preflight g) = ground arith
  perform-owned _ = ground arith

  perform-positive :
      (a : Action) → is_active_state (perform a s).state ≡ true → 0 < (perform a s).generation_epoch
  unfolding perform
  perform-positive (acquire_preflight g) = ground arith
  perform-positive _ = ground arith

  perform-not_privacy : (a : Action) → same_state (perform a s).state privacy ≡ false
  unfolding perform
  perform-not_privacy (acquire_preflight g) = ground arith
  perform-not_privacy _ = ground arith

  perform-configured :
      (a : Action)
      → is_active_state (perform a s).state ≡ true
      → is_some (perform a s).configuration_revision ≡ true
  unfolding perform
  perform-configured (acquire_preflight g) = ground arith
  perform-configured _ = ground arith

  perform-usable : (a : Action) → HasUsableEvent (perform a s) (perform a s).active_generation
  unfolding perform
  perform-usable (acquire_preflight g) = ground arith
  perform-usable _ = ground arith

  perform-allocated :
      (a : Action) (g e : ℕ) → (perform a s).cancel_events g ≡ some e → e < (perform a s).next_event
  unfolding perform
  perform-allocated (acquire_preflight h) g e = ground (arith, v.allocated g e)
  perform-allocated _ g e = ground (arith, v.allocated g e)

-- Every call of every thread, whether it returns or raises, keeps the gate valid.
pub perform-IsValid : (a : Action) (s : CaptureGate) → IsValid s → IsValid (perform a s)
perform-IsValid a s v = record {
  owned = perform-owned s v a;
  positive = perform-positive s v a;
  not_privacy = perform-not_privacy s v a;
  configured = perform-configured s v a;
  usable = perform-usable s v a;
  allocated = perform-allocated s v a;
}

-- After any calls of any threads in any order, a gate that started new is valid.
pub run-IsValid : (schedule : List Action) → IsValid (run schedule new)
run-IsValid schedule = run_induction IsValid perform-IsValid schedule new new-IsValid
