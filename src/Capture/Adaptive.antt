-- ===== src/Capture/Adaptive.antt =====
-- src/local_recall/capture/adaptive.py, `AdaptiveCaptureController`. The cadence is in nanoseconds, and
-- its product with the backoff exact; the threshold of change is a number of bits of 64.
pub mod Sound
use local_recall.Common.{
  ℕ, zero, suc, ◌+◌, ◌*◌, ◌/◌, ◌%◌, ◌^◌, ◌-◌, Bool, true, false, not, ◌&&◌, ◌||◌, Option, none,
  some, ◌==◌, leb, ltb, if◌then◌else◌, Text, same_text,
}
use local_recall.Common.Exec.{Outcome, returned, raised, Exec}
use local_recall.Lifecycle.State.{CaptureGeneration}

pub data CaptureTriggerKind : Type 0 where
  no_trigger cadence context_change : CaptureTriggerKind

pub data FrameDisposition : Type 0 where
  accept coalesce : FrameDisposition

pub record DedupContext : Type 0 where
  pub generation : CaptureGeneration
  pub policy_revision : Text
  pub configuration_revision : Text
  pub application : Option Text
  pub workspace : Option Text
  pub window_id : Option Text

pub record CaptureTriggerDecision : Type 0 where
  pub kind : CaptureTriggerKind
  pub effective_cadence : ℕ

pub record FrameDecision : Type 0 where
  pub disposition : FrameDisposition
  pub span_count : ℕ
  pub span_started_ns : ℕ
  pub span_last_seen_ns : ℕ

-- The two `RuntimeError`s, then the `ValueError`s and what the backend raises.
pub data CaptureError : Type 0 where
  pending_missing span_missing : CaptureError
  time_backwards invalid_fingerprint invalid_context wrong_generation not_rgb8 : CaptureError
  invalid_image index_error backend_failed : CaptureError

-- `_last_capture_ns` and `_last_capture_context` are kept apart, as in the source.
pub record AdaptiveCaptureController : Type 0 where
  pub cadence_ns : ℕ
  pub change_threshold : ℕ
  pub debounce_ns : ℕ
  pub max_backoff : ℕ
  pub backoff : ℕ
  pub last_capture_ns : Option ℕ
  pub last_capture_context : Option DedupContext
  pub pending_context : Option DedupContext
  pub pending_since_ns : Option ℕ
  pub last_dedup_context : Option DedupContext
  pub last_fingerprint : Option ℕ
  pub span_count : ℕ
  pub span_started_ns : Option ℕ
  pub span_last_seen_ns : Option ℕ

abbrev pub Capture : Type 0 → Type 0
Capture A = Exec AdaptiveCaptureController CaptureError A

abbrev pub same_text_option : Option Text → Option Text → Bool
same_text_option none none = true
same_text_option (some a) (some b) = same_text a b
same_text_option _ _ = false

-- Equality of `privacy_scope`, of `metadata_key`, and of contexts.
unfoldable pub same_scope : DedupContext → DedupContext → Bool
same_scope a b =
    a.generation == b.generation
    && same_text a.policy_revision b.policy_revision
    && same_text a.configuration_revision b.configuration_revision

unfoldable pub same_key : DedupContext → DedupContext → Bool
same_key a b =
    same_text_option a.application b.application
    && same_text_option a.workspace b.workspace
    && same_text_option a.window_id b.window_id

unfoldable pub same_context : DedupContext → DedupContext → Bool
same_context a b = same_scope a b && same_key a b

unfoldable pub new : ℕ → ℕ → ℕ → ℕ → AdaptiveCaptureController
new cadence_ns change_threshold debounce_ns max_backoff = record {
  cadence_ns = cadence_ns;
  change_threshold = change_threshold;
  debounce_ns = debounce_ns;
  max_backoff = max_backoff;
  backoff = 1;
  last_capture_ns = none;
  last_capture_context = none;
  pending_context = none;
  pending_since_ns = none;
  last_dedup_context = none;
  last_fingerprint = none;
  span_count = 0;
  span_started_ns = none;
  span_last_seen_ns = none;
}

unfoldable pub effective_cadence : AdaptiveCaptureController → ℕ
effective_cadence c = c.cadence_ns * c.backoff

unfoldable pub clear_pending_change : AdaptiveCaptureController → AdaptiveCaptureController
clear_pending_change c = record c { pending_context = none; pending_since_ns = none }

unfoldable pub reset_dedup_state : AdaptiveCaptureController → AdaptiveCaptureController
reset_dedup_state c = record c {
  last_dedup_context = none;
  last_fingerprint = none;
  span_count = 0;
  span_started_ns = none;
  span_last_seen_ns = none;
}

abbrev pub decide : CaptureTriggerKind → ℕ → CaptureTriggerDecision
decide kind effective = record { kind = kind; effective_cadence = effective }

-- `poll` once no context change is due.
unfoldable pub poll_cadence : ℕ → ℕ → Capture CaptureTriggerDecision
unfolding effective_cadence
poll_cadence now last c =
    returned
      (decide (if leb (last + effective_cadence c) now then cadence else no_trigger)
        (effective_cadence c))
      c

-- `poll` for a context that is not that of the last capture.
unfoldable pub poll_pending :
    DedupContext → ℕ → ℕ → Option DedupContext → Option ℕ → Capture CaptureTriggerDecision
unfolding poll_cadence clear_pending_change
poll_pending context now last none since c =
    poll_cadence now last (record c { pending_context = some context; pending_since_ns = some now })
poll_pending context now last (some pending) none c =
    if not (same_key context pending)
    then poll_cadence now last
        (record c { pending_context = some context; pending_since_ns = some now })
    else raised pending_missing c
poll_pending context now last (some pending) (some since) c =
    if not (same_key context pending)
    then poll_cadence now last
        (record c { pending_context = some context; pending_since_ns = some now })
    else if ltb now since
    then raised time_backwards c
    else if leb (since + c.debounce_ns) now
    then returned (decide context_change (effective_cadence c)) (clear_pending_change c)
    else poll_cadence now last c

unfoldable pub poll_from :
    DedupContext → ℕ → Option ℕ → Option DedupContext → Capture CaptureTriggerDecision
unfolding poll_pending
poll_from context now (some last) (some previous) c =
    if ltb now last
    then raised time_backwards c
    else if not (same_scope context previous)
    then returned (decide cadence (effective_cadence c)) (clear_pending_change c)
    else if not (same_key context previous)
    then poll_pending context now last c.pending_context c.pending_since_ns c
    else poll_cadence now last (clear_pending_change c)
poll_from context now _ _ c = returned (decide cadence (effective_cadence c)) c

unfoldable pub poll : DedupContext → ℕ → Capture CaptureTriggerDecision
unfolding poll_from
poll context now c = poll_from context now c.last_capture_ns c.last_capture_context c

abbrev pub is_before : ℕ → Option ℕ → Bool
is_before now none = false
is_before now (some last) = ltb now last

abbrev pub is_other_scope : DedupContext → Option DedupContext → Bool
is_other_scope context none = false
is_other_scope context (some previous) = not (same_scope context previous)

unfoldable pub mark_capture_started : DedupContext → ℕ → Capture Unit
unfolding reset_dedup_state clear_pending_change
mark_capture_started context now c =
    if is_before now c.last_capture_ns
    then raised time_backwards c
    else let d : AdaptiveCaptureController =
        if is_other_scope context c.last_capture_context then reset_dedup_state c else c in
      returned tt (
        clear_pending_change
          (record d { last_capture_context = some context; last_capture_ns = some now }))

-- `(a ^ b).bit_count()` over the lowest bits.
unfoldable pub changed_bits : ℕ → ℕ → ℕ → ℕ
changed_bits zero a b = 0
changed_bits (suc n) a b =
    let rest = changed_bits n (a / 2) (b / 2) in if a % 2 == b % 2 then rest else rest + 1

unfoldable pub accept_new_span : DedupContext → ℕ → ℕ → Capture FrameDecision
accept_new_span context fingerprint now c =
    returned
      (record {
        disposition = accept;
        span_count = 1;
        span_started_ns = now;
        span_last_seen_ns = now;
      })
      (record c {
        last_dedup_context = some context;
        last_fingerprint = some fingerprint;
        span_count = 1;
        span_started_ns = some now;
        span_last_seen_ns = some now;
      })

unfoldable pub extend_span : ℕ → Option ℕ → Capture FrameDecision
extend_span now none c = raised span_missing c
extend_span now (some started) c =
    returned
      (record {
        disposition = coalesce;
        span_count = c.span_count + 1;
        span_started_ns = started;
        span_last_seen_ns = now;
      })
      (record c { span_count = c.span_count + 1; span_last_seen_ns = some now })

-- A frame beside the last one, if there is one.
unfoldable pub classify_from :
    DedupContext → ℕ → ℕ → Option DedupContext → Option ℕ → Capture FrameDecision
classify_from context fingerprint now (some last) (some before) c =
    if not (same_context last context)
    then accept_new_span context fingerprint now c
    else if leb (changed_bits 64 before fingerprint) c.change_threshold
    then extend_span now c.span_started_ns c
    else accept_new_span context fingerprint now c
classify_from context fingerprint now _ _ c = accept_new_span context fingerprint now c

unfoldable pub classify_frame : DedupContext → ℕ → ℕ → Capture FrameDecision
classify_frame context fingerprint now c =
    if leb (2 ^ 64) fingerprint
    then raised invalid_fingerprint c
    else if is_before now c.span_last_seen_ns
    then raised time_backwards c
    else classify_from context fingerprint now c.last_dedup_context c.last_fingerprint c

abbrev pub least : ℕ → ℕ → ℕ
least a b = if leb a b then a else b

abbrev pub greatest : ℕ → ℕ → ℕ
greatest a b = if leb a b then b else a

unfoldable pub note_overload : AdaptiveCaptureController → AdaptiveCaptureController
note_overload c = record c { backoff = least c.max_backoff (c.backoff * 2) }

unfoldable pub note_success : AdaptiveCaptureController → AdaptiveCaptureController
note_success c = record c { backoff = greatest 1 (c.backoff / 2) }

unfoldable pub reset : AdaptiveCaptureController → AdaptiveCaptureController
unfolding clear_pending_change reset_dedup_state
reset c =
    record (reset_dedup_state
      (clear_pending_change (record c { last_capture_ns = none; last_capture_context = none }))) {
        backoff = 1;
      }
