-- ===== src/Pipeline/Cancellation.antt =====
-- src/local_recall/pipeline/cancellation.py: the registry of cancelled generations. An event is a
-- number, and the set of the events that are set only grows.
use local_recall.Common.{
  ℕ, ◌+◌, ◌≡◌, refl, Bool, true, false, not, all, ◌||◌, Option, Option-cases, inl, inr, none, some,
  List, [], ◌∷◌, ◌==◌, Dict, put, pop, arith,
}
use local_recall.Lifecycle.State.{CaptureGeneration}
use local_recall.Lifecycle.Gate.{CaptureGate, CaptureWorkPermit, cancelled}

pub record PipelineCancellationToken : Type 0 where
  pub generation : CaptureGeneration
  pub local_event : ℕ
  pub gate_permit : Option CaptureWorkPermit

pub record CancellationRegistry : Type 0 where
  pub events : Dict ℕ
  pub permits : Dict CaptureWorkPermit
  pub is_set : ℕ → Bool
  pub next_event : ℕ

abbrev pub new : CancellationRegistry
new = record { events = λ _. none; permits = λ _. none; is_set = λ _. false; next_event = 0 }

abbrev permit_cancelled : Option CaptureWorkPermit → CaptureGate → Bool
permit_cancelled none gate = false
permit_cancelled (some permit) gate = cancelled permit gate

-- `token.cancelled`
unfoldable pub token_cancelled :
    PipelineCancellationToken → CancellationRegistry → CaptureGate → Bool
token_cancelled token s gate = s.is_set token.local_event || permit_cancelled token.gate_permit gate

abbrev event_or : Option ℕ → ℕ → ℕ
event_or none new_event = new_event
event_or (some event) new_event = event

-- `self._events.setdefault(generation.value, threading.Event())`
unfoldable pub set_default : CaptureGeneration → CancellationRegistry → ℕ × CancellationRegistry
set_default generation s = (
  event_or (s.events generation) s.next_event,
  record s {
    events = put s.events generation (event_or (s.events generation) s.next_event);
    next_event = s.next_event + 1;
  },
)

unfoldable pub attach :
    CaptureWorkPermit → CancellationRegistry → PipelineCancellationToken × CancellationRegistry
unfolding set_default
attach permit s =
    let (event, t) = set_default permit.generation s in
    (
      record { generation = permit.generation; local_event = event; gate_permit = some permit },
      record t { permits = put t.permits permit.generation permit },
    )

unfoldable pub token :
    CaptureGeneration → CancellationRegistry → PipelineCancellationToken × CancellationRegistry
unfolding set_default
token generation s =
    let (event, t) = set_default generation s in
    (record { generation = generation; local_event = event; gate_permit = t.permits generation }, t)

unfoldable pub cancel : CaptureGeneration → CancellationRegistry → CancellationRegistry
unfolding set_default
cancel generation s =
    let (event, t) = set_default generation s in
    record t { is_set = λ other. other == event || t.is_set other }

unfoldable pub clear : CaptureGeneration → CancellationRegistry → CancellationRegistry
clear generation s = record s {
  events = pop s.events generation;
  permits = pop s.permits generation;
}

-- A step of another thread.
pub data RegistryCall : Type 0 where
  attaches : CaptureWorkPermit → RegistryCall
  asks cancels clears : CaptureGeneration → RegistryCall

unfoldable pub call : RegistryCall → CancellationRegistry → CancellationRegistry
unfolding attach token cancel clear
call (RegistryCall.attaches permit) s = (attach permit s).1
call (RegistryCall.asks generation) s = (token generation s).1
call (RegistryCall.cancels generation) s = cancel generation s
call (RegistryCall.clears generation) s = clear generation s

unfoldable pub call_all : List RegistryCall → CancellationRegistry → CancellationRegistry
unfolding call
call_all [] s = s
call_all (c ∷ rest) s = call_all rest (call c s)

call-is_set :
    (c : RegistryCall) (s : CancellationRegistry) (event : ℕ)
    → s.is_set event ≡ true
    → (call c s).is_set event ≡ true
unfolding call
call-is_set (RegistryCall.attaches permit) s event h = h
call-is_set (RegistryCall.asks generation) s event h = h
call-is_set (RegistryCall.clears generation) s event h = h
call-is_set (RegistryCall.cancels generation) s event h = ground arith

call_all-is_set :
    (cs : List RegistryCall) (s : CancellationRegistry) (event : ℕ)
    → s.is_set event ≡ true
    → (call_all cs s).is_set event ≡ true
unfolding call_all
call_all-is_set [] s event h = h
call_all-is_set (c ∷ cs) s event h = call_all-is_set cs (call c s) event (call-is_set c s event h)

-- The call is no `clear` of this generation.
unfoldable pub spares : CaptureGeneration → RegistryCall → Bool
spares generation (RegistryCall.clears other) = not (generation == other)
spares generation _ = true

call-events :
    (g : CaptureGeneration) (event : ℕ) (c : RegistryCall) (s : CancellationRegistry)
    → spares g c ≡ true
    → s.events g ≡ some event
    → (call c s).events g ≡ some event
unfolding call spares
call-events g event (RegistryCall.clears other) s p h = ground arith
call-events g event _ s p h = ground arith

call_all-events :
    (g : CaptureGeneration) (event : ℕ) (cs : List RegistryCall) (s : CancellationRegistry)
    → all (spares g) cs ≡ true
    → s.events g ≡ some event
    → (call_all cs s).events g ≡ some event
unfolding call_all
call_all-events g event [] s p h = h
call_all-events g event (c ∷ cs) s p h =
    call_all-events g event cs (call c s) (ground arith) (call-events g event c s (ground arith) h)

cancel-is_set :
    (g : CaptureGeneration) (event : ℕ) (s : CancellationRegistry)
    → s.events g ≡ some event
    → (cancel g s).is_set event ≡ true
unfolding cancel
cancel-is_set g event s h = ground arith

attach-events :
    (permit : CaptureWorkPermit) (s : CancellationRegistry)
    → (attach permit s).1.events permit.generation ≡ some (attach permit s).0.local_event
unfolding attach
attach-events permit s = ground arith

token-is_set :
    (g : CaptureGeneration) (event : ℕ) (s : CancellationRegistry)
    → s.is_set event ≡ true
    → (token g s).1.is_set event ≡ true
unfolding token
token-is_set g event s h = h

token-events :
    (g : CaptureGeneration) (s : CancellationRegistry)
    → (token g s).1.events g ≡ some (token g s).0.local_event
unfolding token
token-events g s = ground arith

known-event :
    (g : CaptureGeneration) (event : ℕ) (s : CancellationRegistry)
    → s.events g ≡ some event
    → (token g s).0.local_event ≡ event
unfolding token
known-event g event s h = ground arith

-- The event of the generation is set by a cancellation, if no thread has cleared the generation in
-- between.
cancelled-is_set :
    (g : CaptureGeneration) (event : ℕ) (s : CancellationRegistry)
    (before later : List RegistryCall)
    → all (spares g) before ≡ true
    → s.events g ≡ some event
    → (call_all later (cancel g (call_all before s))).is_set event ≡ true
cancelled-is_set g event s before later h at =
    call_all-is_set later (cancel g (call_all before s)) event
      (cancel-is_set g event (call_all before s) (call_all-events g event before s h at))

cancel-events :
    (g : CaptureGeneration) (s : CancellationRegistry)
    → (event : ℕ) × ((cancel g s).events g ≡ some event) × ((cancel g s).is_set event ≡ true)
unfolding cancel
cancel-events g s = elim (Option-cases (s.events g)) [
  | inl e ↦ (s.next_event, ground arith, ground arith)
  | inr (event, e) ↦ (event, ground arith, ground arith)
]

-- A token of a generation, whether `attach` or `token` handed it out, is cancelled once the generation
-- is cancelled, when other threads have not cleared the generation in between; and it stays cancelled
-- whatever they do afterwards, clearing included. A token that `token` hands out after a cancellation,
-- when the generation has not been cleared since, is cancelled from the start.
pub cancelled_forever :
    (permit : CaptureWorkPermit) (s : CancellationRegistry) (before later : List RegistryCall)
    (gate : CaptureGate)
    → all (spares permit.generation) before ≡ true
    → let g = permit.generation in
      (token_cancelled
          (attach permit s).0
          (call_all later (cancel g (call_all before (attach permit s).1)))
          gate
        ≡ true)
      × (token_cancelled
            (token g s).0
            (call_all later (cancel g (call_all before (token g s).1)))
            gate
          ≡ true)
      × (token_cancelled
            (token g (call_all before (cancel g s))).0
            (call_all later (token g (call_all before (cancel g s))).1)
            gate
          ≡ true)
unfolding token_cancelled
cancelled_forever permit s before later gate h =
    let g = permit.generation in
    let (event, at, set) = cancel-events g s in
    let kept = call_all-is_set before (cancel g s) event set in
    let asked =
      call_all-is_set later (token g (call_all before (cancel g s))).1 event
        (token-is_set g event (call_all before (cancel g s)) kept) in
    (
      rw
          (cancelled-is_set g (attach permit s).0.local_event (attach permit s).1 before later h
            (attach-events permit s))
          refl,
      rw
          (cancelled-is_set g (token g s).0.local_event (token g s).1 before later h
            (token-events g s))
          refl,
      rw
          (
            known-event g event (call_all before (cancel g s))
                (call_all-events g event before (cancel g s) h at),
            asked,
          )
          refl,
    )
