-- ===== src/Capture/Total.antt =====
-- src/local_recall/capture/adaptive.py: the flow as a whole.
use local_recall.Common.{
  ℕ, ◌≡◌, inl, inr, refl, Bool, true, false, Bool-cases, not, Option, none, some, ◌==◌,
  if◌then◌else◌, arith,
}
use local_recall.Common.Exec.{err, Result-cases, Outcome, returned, raised, Exec, continue}
use local_recall.Policy.{Library}
use local_recall.Capture.Adaptive.{
  AdaptiveCaptureController, CaptureError, invalid_context, DedupContext, CaptureTriggerDecision,
  poll, mark_capture_started, classify_frame,
}
use local_recall.Capture.Adaptive.Sound.{
  IsSound, Soundly, poll-Soundly, mark_capture_started-Soundly, classify_frame-Soundly,
}
use local_recall.Capture.Fingerprint.{perceptual_dhash}
use local_recall.Capture.Bounds.{perceptual_dhash-bound}
use local_recall.Capture.Flow.{
  ApprovedCaptureRequest, RawFrame, classify_hashed, take_frame, is_due, capture_triggered,
  capture_with, context_from_request, checked_context, capture_if_due, classified,
}

either-Soundly :
    {A : Type 0} (test : Bool) (o p : Outcome AdaptiveCaptureController CaptureError A)
    → Soundly o
    → Soundly p
    → Soundly (if test then o else p)
either-Soundly true o p k l = k
either-Soundly false o p k l = l

Soundly-bind :
    {A B : Type 0} (o : Outcome AdaptiveCaptureController CaptureError A)
    (f : A → Exec AdaptiveCaptureController CaptureError B)
    → Soundly o
    → ((a : A) (c : AdaptiveCaptureController) → IsSound c → Soundly (f a c))
    → Soundly (continue o f)
Soundly-bind (returned a c) f h k = k a c h
Soundly-bind (raised e c) f h k = h

classify_hashed-Soundly :
    (trigger : CaptureTriggerDecision) (context : DedupContext) (frame : RawFrame) (now : ℕ)
    (c : AdaptiveCaptureController)
    → IsSound c
    → Soundly (
        classify_hashed trigger context frame now
          (perceptual_dhash frame.pixels frame.width frame.height frame.stride)
          c)
unfolding classify_hashed
classify_hashed-Soundly trigger context frame now c s =
    elim (perceptual_dhash-bound frame.pixels frame.width frame.height frame.stride) [
      | inl (e, wrong) ↦ rw e (s, refl)
      | inr (f, e, small) ↦ rw e (
          Soundly-bind (classify_frame context f now c)
            (λ decision d. returned (classified trigger frame decision) d)
            (classify_frame-Soundly context f now c small s) (λ a d t. t))
    ]

take_frame-Soundly :
    (request : ApprovedCaptureRequest) (trigger : CaptureTriggerDecision) (context : DedupContext)
    (now : ℕ) (answer : Option RawFrame) (c : AdaptiveCaptureController)
    → IsSound c
    → Soundly (take_frame request trigger context now answer c)
unfolding take_frame
take_frame-Soundly request trigger context now none c s = (s, refl)
take_frame-Soundly request trigger context now (some frame) c s =
    either-Soundly (not (frame.generation == request.generation)) _ _ (s, refl)
      (either-Soundly (not frame.is_rgb8) _ _ (s, refl)
        (classify_hashed-Soundly trigger context frame now c s))

capture_triggered-Soundly :
    (request : ApprovedCaptureRequest) (context : DedupContext) (answer : Option RawFrame) (now : ℕ)
    (trigger : CaptureTriggerDecision) (c : AdaptiveCaptureController)
    → IsSound c
    → Soundly (capture_triggered request context answer now trigger c)
unfolding capture_triggered
capture_triggered-Soundly request context answer now trigger c s =
    elim (Bool-cases (is_due trigger.kind)) [
      | inr e ↦ rw e s
      | inl e ↦ rw e (
          Soundly-bind (mark_capture_started context now c) _
            (mark_capture_started-Soundly context now c s)
            (λ u d t. take_frame-Soundly request trigger context now answer d t))
    ]

checked_context-error :
    (context : DedupContext) (e : CaptureError)
    → checked_context context ≡ err e
    → e ≡ invalid_context
unfolding checked_context
checked_context-error context e h = ground arith

-- From a sound controller, for every request and whatever frame or exception the backend answers: the
-- controller is sound after `capture_if_due`, and it raises neither of the two `RuntimeError`s, nor an
-- `IndexError` on the pixels, nor the error of a fingerprint of more than 64 bits.
pub capture_if_due-Soundly :
    (library : Library) (request : ApprovedCaptureRequest) (answer : Option RawFrame) (now : ℕ)
    (c : AdaptiveCaptureController)
    → IsSound c
    → Soundly (capture_if_due library request answer now c)
unfolding capture_if_due capture_with context_from_request
capture_if_due-Soundly library request answer now c s =
    elim (Result-cases (context_from_request library request)) [
      | inl (context, e) ↦
          rw (capture_if_due, e)
            (Soundly-bind (poll context now c) _ (poll-Soundly context now c s)
              (λ trigger d t. capture_triggered-Soundly request context answer now trigger d t))
      | inr (x, e) ↦
          let refused : x ≡ invalid_context = checked_context-error _ x e in
          rw (capture_if_due, e, refused) (s, refl)
    ]
