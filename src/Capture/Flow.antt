-- ===== src/Capture/Flow.antt =====
-- src/local_recall/capture/adaptive.py, `AdaptiveCaptureFlow`: only frames that are due, fresh and new
-- are admitted. The backend is answered from outside: a frame, or an exception.
use local_recall.Common.{
  ℕ, Bool, true, false, not, ◌&&◌, ◌||◌, Option, none, some, List, [], ◌∷◌, ◌==◌, leb, length,
  if◌then◌else◌, Text, codes,
}
use local_recall.Common.Exec.{Result, ok, err, returned, raised, continue}
use local_recall.Lifecycle.State.{CaptureGeneration}
use local_recall.Policy.{ContextMetadata, Scalar, text, integer, Library}
use local_recall.Policy.Match.{scalar_field}
use local_recall.Capture.Adaptive.{
  Capture, CaptureError, invalid_context, wrong_generation, not_rgb8, backend_failed, DedupContext,
  CaptureTriggerKind, no_trigger, CaptureTriggerDecision, FrameDecision, accept, coalesce, poll,
  mark_capture_started, classify_frame,
}
use local_recall.Capture.Fingerprint.{perceptual_dhash}

pub data AdaptiveCaptureOutcome : Type 0 where
  skip_frame admit_frame coalesce_frame : AdaptiveCaptureOutcome

pub record RawFrame : Type 0 where
  pub generation : CaptureGeneration
  pub is_rgb8 : Bool
  pub pixels : List ℕ
  pub width : ℕ
  pub height : ℕ
  pub stride : Option ℕ

-- What is read of an `ApprovedCaptureRequest`.
pub record ApprovedCaptureRequest : Type 0 where
  pub generation : CaptureGeneration
  pub policy_revision : Text
  pub configuration_revision : Text
  pub metadata : ContextMetadata

pub record AdaptiveCaptureResult : Type 0 where
  pub outcome : AdaptiveCaptureOutcome
  pub trigger : CaptureTriggerDecision
  pub frame : Option RawFrame
  pub frame_decision : Option FrameDecision

-- `_require_bounded_text` does not raise.
abbrev pub is_bounded : ℕ → Text → Bool
is_bounded limit t = leb 1 (length t) && leb (length t) limit

abbrev pub is_bounded_option : Option Text → Bool
is_bounded_option none = true
is_bounded_option (some t) = is_bounded 4096 t

-- `DedupContext(...)` with its `__post_init__`.
unfoldable pub checked_context : DedupContext → Result CaptureError DedupContext
checked_context c =
    if not (is_bounded 256 c.policy_revision)
      || not (is_bounded 256 c.configuration_revision)
      || not (is_bounded_option c.application)
      || not (is_bounded_option c.workspace)
      || not (is_bounded_option c.window_id)
    then err invalid_context
    else ok c

abbrev pub nonempty : Text → Option Text
nonempty [] = none
nonempty (c ∷ rest) = some (c ∷ rest)

unfoldable pub metadata_text : Scalar → Option Text
metadata_text (text t) = nonempty t
metadata_text _ = none

unfoldable pub metadata_identifier : Library → Scalar → Option Text
metadata_identifier library (text t) = nonempty t
metadata_identifier library (integer negative n) = some (library.printed (integer negative n))
metadata_identifier library _ = none

unfoldable pub context_from_request :
    Library → ApprovedCaptureRequest → Result CaptureError DedupContext
context_from_request library r = checked_context (record {
  generation = r.generation;
  policy_revision = r.policy_revision;
  configuration_revision = r.configuration_revision;
  application = metadata_text (scalar_field r.metadata (codes "application"));
  workspace = metadata_text (scalar_field r.metadata (codes "workspace"));
  window_id = metadata_identifier library (scalar_field r.metadata (codes "window.id"));
})

abbrev pub classified : CaptureTriggerDecision → RawFrame → FrameDecision → AdaptiveCaptureResult
classified trigger frame decision = elim decision.disposition [
  | coalesce ↦ record {
    outcome = coalesce_frame;
    trigger = trigger;
    frame = none;
    frame_decision = some decision;
  }
  | accept ↦ record {
    outcome = admit_frame;
    trigger = trigger;
    frame = some frame;
    frame_decision = some decision;
  }
]

unfoldable pub classify_hashed :
    CaptureTriggerDecision
    → DedupContext
    → RawFrame
    → ℕ
    → Result CaptureError ℕ
    → Capture AdaptiveCaptureResult
classify_hashed trigger context frame now (err e) c = raised e c
classify_hashed trigger context frame now (ok fingerprint) c =
    continue (classify_frame context fingerprint now c)
      (λ decision d. returned (classified trigger frame decision) d)

-- What follows the backend's answer.
unfoldable pub take_frame :
    ApprovedCaptureRequest
    → CaptureTriggerDecision
    → DedupContext
    → ℕ
    → Option RawFrame
    → Capture AdaptiveCaptureResult
take_frame request trigger context now none c = raised backend_failed c
take_frame request trigger context now (some frame) c =
    if not (frame.generation == request.generation)
    then raised wrong_generation c
    else if not frame.is_rgb8
    then raised not_rgb8 c
    else classify_hashed trigger context frame now
        (perceptual_dhash frame.pixels frame.width frame.height frame.stride) c

abbrev pub is_due : CaptureTriggerKind → Bool
is_due no_trigger = false
is_due _ = true

unfoldable pub capture_triggered :
    ApprovedCaptureRequest
    → DedupContext
    → Option RawFrame
    → ℕ
    → CaptureTriggerDecision
    → Capture AdaptiveCaptureResult
capture_triggered request context answer now trigger c =
    if not (is_due trigger.kind)
    then returned
        (record { outcome = skip_frame; trigger = trigger; frame = none; frame_decision = none }) c
    else continue (mark_capture_started context now c)
        (λ u d. take_frame request trigger context now answer d)

unfoldable pub capture_with :
    ApprovedCaptureRequest
    → Option RawFrame
    → ℕ
    → Result CaptureError DedupContext
    → Capture AdaptiveCaptureResult
capture_with request answer now (err e) c = raised e c
capture_with request answer now (ok context) c =
    continue (poll context now c)
      (λ trigger d. capture_triggered request context answer now trigger d)

-- `answer` is the backend's, when it is asked.
unfoldable pub capture_if_due :
    Library → ApprovedCaptureRequest → Option RawFrame → ℕ → Capture AdaptiveCaptureResult
capture_if_due library request answer now c =
    capture_with request answer now (context_from_request library request) c
