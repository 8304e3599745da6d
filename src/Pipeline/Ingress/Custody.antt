-- ===== src/Pipeline/Ingress/Custody.antt =====
-- Who holds the raw frames: an item is held by the ingress or destroyed, and a credit is in use for
-- what was sent.
use local_recall.Common.{
  ℕ, ◌+◌, ◌<◌, ◌≡◌, true, false, inl, inr, Bool-cases, Option, none, some, List, [], ◌∷◌, ◌==◌, leb,
  length, if◌then◌else◌, arith,
}
use local_recall.Lifecycle.State.{CaptureGeneration}
use local_recall.Common.Exec.{after}
use local_recall.Lifecycle.Gate.{CaptureGate, CaptureWorkPermit, cancelled}
use local_recall.Pipeline.Credits.{CreditLedger, in_use, try_acquire, release_if_acquired, get}
use local_recall.Pipeline.Credits.Tables.{total-set}
use local_recall.Pipeline.Credits.Laws.{
  IsWithin, release-try_acquire, release-eq_release_if_acquired,
}
use local_recall.Pipeline.Ingress.{
  RawStageItem, Transport, PipelineIngress, encodes, handle_overload, transmit, submit, flush_held,
  flush_coalesced, clear_held, clear_coalesced, close,
}

abbrev pub one : ℕ → RawStageItem → ℕ
one id item = if item.record_id == id then 1 else 0

unfoldable pub count : ℕ → List RawStageItem → ℕ
count id [] = 0
count id (item ∷ rest) = one id item + count id rest

abbrev pub held_count : ℕ → Option RawStageItem → ℕ
held_count id none = 0
held_count id (some item) = one id item

-- How often the item `id` was destroyed or is held.
unfoldable pub custody : ℕ → PipelineIngress → ℕ
unfolding count
custody id s = count id s.destroyed + held_count id s.held

handle_overload-custody :
    (id : ℕ) (item : RawStageItem) (s : PipelineIngress)
    → custody id (after (handle_overload item s)) ≡ custody id s + one id item
unfolding handle_overload custody
handle_overload-custody id item s = ground arith

-- An item that the owner thread submits, and that can be encoded (its header is valid, and it is within
-- the limits), is destroyed or held exactly once more after the call, whether it was sent, dropped,
-- coalesced, or refused because the ingress is closed; every other item is destroyed or held as often
-- as before.
pub submit-custody :
    (id thread : ℕ) (transport : Transport) (item : RawStageItem) (permit : CaptureWorkPermit)
    (gate : CaptureGate) (s : PipelineIngress)
    → thread ≡ s.owner_thread
    → encodes s.limits transport item ≡ true
    → custody id (after (submit thread transport item permit gate s)) ≡ custody id s + one id item
unfolding submit transmit custody handle_overload try_acquire
submit-custody id thread transport item permit gate s o e = ground arith

-- A flush, by whatever branch it returns, leaves every item destroyed or held as often as before.
pub flush_coalesced-custody :
    (id thread : ℕ) (transport : Transport) (permit : CaptureWorkPermit) (gate : CaptureGate)
    (s : PipelineIngress)
    → custody id (after (flush_coalesced thread transport permit gate s)) ≡ custody id s
unfolding flush_coalesced flush_held transmit custody try_acquire
flush_coalesced-custody id thread transport permit gate s = ground arith

pub close-custody :
    (id thread : ℕ) (s : PipelineIngress) → custody id (after (close thread s)) ≡ custody id s
unfolding close clear_coalesced clear_held custody
close-custody id thread s = ground arith

-- After a call of `close` by its owner the ingress holds nothing, when it held nothing while closed.
pub close-empty :
    (thread : ℕ) (s : PipelineIngress)
    → thread ≡ s.owner_thread
    → (s.closed ≡ true → s.held ≡ none)
    → (after (close thread s)).held ≡ none
unfolding close clear_coalesced clear_held
close-empty thread s o h = ground arith

-- The credit of an item that is not sent is given back.
returned_credit :
    (g : CaptureGeneration) (s : CreditLedger)
    → IsWithin s
    → leb s.capacity (in_use s) ≡ false
    → in_use (after (release_if_acquired g (after (try_acquire g s)))) ≡ in_use s
returned_credit g s h room =
    rw⁻¹ (release-eq_release_if_acquired g (after (try_acquire g s)))
      (release-try_acquire g s g h (ground arith)).1

-- On a ledger within its capacity a submission of an item that can be encoded (its header is valid, and
-- it is within the limits) takes a credit exactly when it sends the item: every other way out, overload
-- and a refusing socket included, leaves the number of the credits in use as it was.
pub submit-credit :
    (thread : ℕ) (transport : Transport) (item : RawStageItem) (permit : CaptureWorkPermit)
    (gate : CaptureGate) (s : PipelineIngress)
    → IsWithin s.credit
    → encodes s.limits transport item ≡ true
    → let t = after (submit thread transport item permit gate s) in
      in_use t.credit + length s.sent ≡ in_use s.credit + length t.sent
unfolding submit transmit handle_overload try_acquire in_use
submit-credit thread transport item permit gate s h e =
    elim (Bool-cases (leb s.credit.capacity (in_use s.credit))) [
      | inl full ↦ ground arith
      | inr room ↦
          let back = returned_credit item.generation s.credit h room in
          let sum =
            total-set s.credit.in_use_by_generation item.generation
              (get s.credit.in_use_by_generation item.generation + 1) in
          ground arith
    ]

-- A submission by the owner, to an open ingress with a free credit and with a permit that is not
-- cancelled, whose item cannot be encoded (a bad header, or beyond the limits), leaves one more credit
-- in use than before, and every item, the submitted one included, destroyed or held by the ingress as
-- often as before.
pub submit-leaks :
    (id thread : ℕ) (transport : Transport) (item : RawStageItem) (permit : CaptureWorkPermit)
    (gate : CaptureGate) (s : PipelineIngress)
    → thread ≡ s.owner_thread
    → s.closed ≡ false
    → cancelled permit gate ≡ false
    → in_use s.credit < s.credit.capacity
    → encodes s.limits transport item ≡ false
    → let t = after (submit thread transport item permit gate s) in
      (in_use t.credit ≡ in_use s.credit + 1) × (custody id t ≡ custody id s)
unfolding submit transmit try_acquire in_use custody
submit-leaks id thread transport item permit gate s o c p room e =
    let sum =
      total-set s.credit.in_use_by_generation item.generation
        (get s.credit.in_use_by_generation item.generation + 1) in
    ground arith
