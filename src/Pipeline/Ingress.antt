-- ===== src/Pipeline/Ingress.antt =====
-- src/local_recall/pipeline/ingress.py: the raw ingress, with its one coalesced frame;
-- src/local_recall/pipeline/models.py: its items and limits; src/local_recall/pipeline/framing.py: the
-- checks of the encoding. The socket and the length of the encoded header are answered from
-- outside, by a `Transport`. Items are objects, told apart by `record_id`.
pub mod Custody
use local_recall.Common.{
  ℕ, ◌+◌, ◌≡◌, refl, Bool, true, false, not, ◌&&◌, ◌||◌, Option, none, some, List, [], ◌∷◌, ◌++◌,
  ◌==◌, leb, ltb, length, if◌then◌else◌, same_option, Text,
}
use local_recall.Common.Exec.{Outcome, returned, raised, Exec, after}
use local_recall.Lifecycle.State.{CaptureGeneration}
use local_recall.Lifecycle.Gate.{CaptureGate, CaptureWorkPermit, cancelled}
use local_recall.Pipeline.Credits.{CreditLedger, LedgerError, try_acquire, release_if_acquired}
use local_recall.Pipeline.Cancellation.{CancellationRegistry, attach}

pub data PipelineOverloadPolicy : Type 0 where
  drop_newest coalesce_latest : PipelineOverloadPolicy

pub data SubmissionStatus : Type 0 where
  accepted dropped coalesced : SubmissionStatus

pub record PipelineLimits : Type 0 where
  pub overload_policy : PipelineOverloadPolicy
  pub max_header_bytes : ℕ
  pub max_frames : ℕ
  pub max_payload_bytes : ℕ

-- The bytes of a frame.
abbrev pub Frame : Type 0
Frame = List ℕ

pub record RawStageItem : Type 0 where
  pub record_id : ℕ
  pub generation : CaptureGeneration
  pub configuration_revision : Text
  pub deadline_monotonic_ns : ℕ
  pub frames : List Frame

pub record SubmissionResult : Type 0 where
  pub record_id : ℕ
  pub status : SubmissionStatus
  pub replaced_record_id : Option ℕ

-- The answers of the socket, and the length of an item's encoded header.
pub record Transport : Type 0 where
  pub sends : RawStageItem → Bool
  pub header_bytes : RawStageItem → ℕ

pub record PipelineIngress : Type 0 where
  pub owner_thread : ℕ
  pub credit : CreditLedger
  pub limits : PipelineLimits
  pub cancellation : CancellationRegistry
  pub held : Option RawStageItem  -- `_coalesced`
  pub closed : Bool
  pub sent : List RawStageItem  -- what went over the socket
  pub destroyed : List RawStageItem  -- the items whose `destroy` was called

pub data IngressError : Type 0 where
  ingress_is_closed non_owner_thread encoding_failed : IngressError

abbrev pub Ingress : Type 0 → Type 0
Ingress A = Exec PipelineIngress IngressError A

unfoldable pub payload_bytes : List Frame → ℕ
payload_bytes [] = 0
payload_bytes (frame ∷ rest) = length frame + payload_bytes rest

-- `encode_item` raises nothing: neither a `PipelineProtocolError`, nor the `ValidationError` of the
-- fields of the header that an item can get wrong.
unfoldable pub encodes : PipelineLimits → Transport → RawStageItem → Bool
unfolding payload_bytes
encodes limits transport item =
    not (length item.frames == 0)
    && leb (length item.frames) limits.max_frames
    && leb (payload_bytes item.frames) limits.max_payload_bytes
    && leb 1 item.generation
    && leb 1 (length item.configuration_revision)
    && leb (length item.configuration_revision) 256
    && leb 1 item.deadline_monotonic_ns
    && leb (transport.header_bytes item) limits.max_header_bytes

-- `item.destroy()`
abbrev pub destroy : RawStageItem → PipelineIngress → PipelineIngress
destroy item s = record s { destroyed = item ∷ s.destroyed }

abbrev pub answer : RawStageItem → SubmissionStatus → Option ℕ → SubmissionResult
answer item status replaced = record {
  record_id = item.record_id;
  status = status;
  replaced_record_id = replaced;
}

unfoldable pub coalesce : Option RawStageItem → RawStageItem → Ingress SubmissionResult
coalesce none item s = returned (answer item coalesced none) (record s { held = some item })
coalesce (some previous) item s =
    returned (answer item coalesced (some previous.record_id))
      (destroy previous (record s { held = some item }))

unfoldable pub handle_overload : RawStageItem → Ingress SubmissionResult
unfolding coalesce
handle_overload item s = elim s.limits.overload_policy [
  | drop_newest ↦ returned (answer item dropped none) (destroy item s)
  | coalesce_latest ↦ coalesce s.held item s
]

-- The ledger after `try_acquire` that grants, and after the credit is given back.
abbrev pub with_credit : CreditLedger → PipelineIngress → PipelineIngress
with_credit credit s = record s { credit = credit }

-- `try_acquire` and what follows it: the item is sent, or it cannot be encoded, or not be sent.
unfoldable pub transmit :
    Transport
    → RawStageItem
    → Ingress SubmissionResult
    → (PipelineIngress → PipelineIngress)
    → Ingress SubmissionResult
unfolding try_acquire release_if_acquired encodes
transmit transport item overloaded sent_off s = elim (try_acquire item.generation s.credit) [
  | returned true credit ↦
      if not (encodes s.limits transport item)
      then raised encoding_failed (with_credit credit s)
      else if transport.sends item
      then returned (answer item accepted none)
          (destroy item (sent_off (record s { credit = credit; sent = item ∷ s.sent })))
      else overloaded (with_credit (after (release_if_acquired item.generation credit)) s)
  | returned false credit ↦ overloaded (with_credit credit s)
  | raised e credit ↦ overloaded (with_credit credit s)
]

unfoldable pub submit :
    ℕ → Transport → RawStageItem → CaptureWorkPermit → CaptureGate → Ingress SubmissionResult
unfolding attach transmit handle_overload cancelled
submit thread transport item permit gate s =
    if not (thread == s.owner_thread)
    then raised non_owner_thread s
    else if s.closed
    then raised ingress_is_closed (destroy item s)
    else let t : PipelineIngress = record s { cancellation = (attach permit s.cancellation).1 } in
      if cancelled permit gate
      then returned (answer item dropped none) (destroy item t)
      else transmit transport item (handle_overload item) (λ u. u) t

unfoldable pub flush_held :
    Transport
    → Option RawStageItem
    → CaptureWorkPermit
    → CaptureGate
    → Ingress (Option SubmissionResult)
unfolding transmit cancelled
flush_held transport none permit gate s = returned none s
flush_held transport (some item) permit gate s =
    if not (item.generation == permit.generation) || cancelled permit gate
    then returned (some (answer item dropped none)) (destroy item (record s { held = none }))
    else elim (transmit transport item (λ t. returned (answer item coalesced none) t)
        (λ t. record t { held = none }) s) [
          | returned result t ↦ returned (some result) t
          | raised e t ↦ raised e t
        ]

unfoldable pub flush_coalesced :
    ℕ → Transport → CaptureWorkPermit → CaptureGate → Ingress (Option SubmissionResult)
unfolding flush_held
flush_coalesced thread transport permit gate s =
    if not (thread == s.owner_thread)
    then raised non_owner_thread s
    else flush_held transport s.held permit gate s

abbrev spared : Option ℕ → CaptureGeneration → Bool
spared none generation = false
spared (some value) generation = not (generation == value)

unfoldable pub clear_held : Option RawStageItem → Option ℕ → PipelineIngress → PipelineIngress
clear_held none value s = s
clear_held (some item) value s =
    if spared value item.generation then s else destroy item (record s { held = none })

unfoldable pub clear_coalesced : Option ℕ → PipelineIngress → PipelineIngress
unfolding clear_held
clear_coalesced value s = clear_held s.held value s

abbrev holds : Option RawStageItem → Option ℕ → Bool
holds none value = false
holds (some item) value = not (spared value item.generation)

unfoldable pub has_coalesced : Option ℕ → PipelineIngress → Bool
has_coalesced value s = holds s.held value

unfoldable pub close : ℕ → Ingress Unit
unfolding clear_coalesced
close thread s =
    if not (thread == s.owner_thread)
    then raised non_owner_thread s
    else returned tt (if s.closed then s else record (clear_coalesced none s) { closed = true })
