-- ===== src/Capture/Tests.antt =====
-- Concrete captures.
use local_recall.Common.{
  ℕ, ◌+◌, ◌*◌, ◌≤◌, ◌<◌, ◌^◌, ◌≡◌, ◌≢◌, ◌⊎◌, refl, true, none, some, List, [], ◌∷◌, length, codes,
  arith,
}
use local_recall.Common.Exec.{ok, err}
use local_recall.Policy.Samples.{library, context}
use local_recall.Capture.Adaptive.{
  AdaptiveCaptureController, DedupContext, FrameDecision, coalesce, invalid_image, classify_frame,
  classify_from, extend_span, same_context, same_scope, same_key, changed_bits,
}
use local_recall.Capture.Adaptive.Sound.{IsSound, Soundly}
use local_recall.Capture.Fingerprint.{
  perceptual_dhash, used_stride, hash_checked, hash_rows, sample_row, sample_coordinate, pixel,
  byte_at, row_bits,
}
use local_recall.Capture.Bounds.{perceptual_dhash-bound}
use local_recall.Capture.Flow.{ApprovedCaptureRequest, RawFrame, capture_if_due}
use local_recall.Capture.Total.{capture_if_due-Soundly}
use local_recall.Capture.Coalescing.{differing, classify_frame-coalesces}

abbrev width : ℕ
width = 2

abbrev height : ℕ
height = 1

abbrev pixels : List ℕ
pixels = 9 ∷ 9 ∷ 9 ∷ 1 ∷ 1 ∷ 1 ∷ []

-- Of two pixels the left one is the lighter: one bit in each row.
two_pixels : perceptual_dhash pixels 2 1 none ≡ ok 9259542123273814144
unfolding perceptual_dhash hash_checked hash_rows sample_row sample_coordinate pixel byte_at
    row_bits
two_pixels = refl

perceptual_dhash-bound_example :
    (perceptual_dhash pixels width height none ≡ err invalid_image)
      × ((width ≡ 0)
          ⊎ (height ≡ 0)
          ⊎ (used_stride none width < width * 3)
          ⊎ (length pixels ≢ used_stride none width * height))
    ⊎ ((f : ℕ) × (perceptual_dhash pixels width height none ≡ ok f) × (f < 2 ^ 64))
perceptual_dhash-bound_example = perceptual_dhash-bound pixels width height none

abbrev seen : DedupContext
seen = record {
  generation = 1;
  policy_revision = codes "r1";
  configuration_revision = codes "c1";
  application = some (codes "emacs");
  workspace = none;
  window_id = none;
}

abbrev controller : AdaptiveCaptureController
controller = record {
  cadence_ns = 15000000000;
  change_threshold = 4;
  debounce_ns = 0;
  max_backoff = 8;
  backoff = 2;
  last_capture_ns = none;
  last_capture_context = none;
  pending_context = none;
  pending_since_ns = none;
  last_dedup_context = some seen;
  last_fingerprint = some 12;
  span_count = 3;
  span_started_ns = some 50;
  span_last_seen_ns = some 80;
}

controller-IsSound : IsSound controller
controller-IsSound = record {
  pending = refl;
  span = refl;
  at_least = omega arith;
  at_most = omega arith;
}

abbrev frame : RawFrame
frame = record {
  generation = 1;
  is_rgb8 = true;
  pixels = pixels;
  width = 2;
  height = 1;
  stride = none;
}

abbrev request : ApprovedCaptureRequest
request = record {
  generation = 1;
  policy_revision = codes "r1";
  configuration_revision = codes "c1";
  metadata = context.metadata;
}

capture_if_due-Soundly_example :
    Soundly (capture_if_due library request (some frame) 100 controller)
capture_if_due-Soundly_example =
    capture_if_due-Soundly library request (some frame) 100 controller controller-IsSound

abbrev longer : FrameDecision
longer = record {
  disposition = coalesce;
  span_count = 4;
  span_started_ns = 50;
  span_last_seen_ns = 100;
}

abbrev moved : AdaptiveCaptureController
moved = record controller { span_count = 4; span_last_seen_ns = some 100 }

classify_frame-coalesces_example :
    (last : DedupContext) × (before : ℕ) × (controller.last_dedup_context ≡ some last)
    × (controller.last_fingerprint ≡ some before)
    × (same_context last seen ≡ true)
    × (differing 64 0 before 8 ≤ controller.change_threshold)
    × (longer.span_count ≡ controller.span_count + 1)
    × (moved.span_count ≡ controller.span_count + 1)
    × (controller.span_started_ns ≡ some longer.span_started_ns)
    × (controller.span_started_ns ≡ controller.span_started_ns)
    × (moved.span_last_seen_ns ≡ some 100)
    × (controller.last_dedup_context ≡ some last)
    × (controller.last_fingerprint ≡ some before)
unfolding classify_frame classify_from extend_span same_context same_scope same_key changed_bits
classify_frame-coalesces_example =
    classify_frame-coalesces seen 8 100 controller moved longer refl refl
