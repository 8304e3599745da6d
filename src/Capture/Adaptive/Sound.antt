-- ===== src/Capture/Adaptive/Sound.antt =====
-- src/local_recall/capture/adaptive.py: the controller's fields stay in step.
use local_recall.Common.{
  ℕ, ◌+◌, ◌^◌, ◌≤◌, ◌<◌, ◌≡◌, inl, inr, refl, Bool, true, false, Bool-cases, Option, none, some,
  is_some, leb, ltb, arith,
}
use local_recall.Common.Exec.{Outcome, returned, raised}
use local_recall.Capture.Adaptive.{
  AdaptiveCaptureController, DedupContext, CaptureError, pending_missing, span_missing, index_error,
  invalid_fingerprint, poll, poll_from, poll_pending, poll_cadence, clear_pending_change,
  mark_capture_started, reset_dedup_state, classify_frame, classify_from, accept_new_span,
  extend_span, note_overload, note_success, reset, same_context, changed_bits, is_before,
  is_other_scope, same_scope, same_key,
}

-- A pending change has its time, a span its start, and the backoff is within its bounds.
pub record IsSound (c : AdaptiveCaptureController) : Type 0 where
  pub pending : is_some c.pending_context ≡ is_some c.pending_since_ns
  pub span : is_some c.last_fingerprint ≡ is_some c.span_started_ns
  pub at_least : 1 ≤ c.backoff
  pub at_most : c.backoff ≤ c.max_backoff

abbrev pub is_internal : CaptureError → Bool
is_internal pending_missing = true
is_internal span_missing = true
is_internal index_error = true
is_internal invalid_fingerprint = true
is_internal _ = false

-- A sound controller, and none of the errors that the source takes for impossible.
abbrev pub Soundly : {A : Type 0} → Outcome AdaptiveCaptureController CaptureError A → Type 0
Soundly (returned a c) = IsSound c
Soundly (raised e c) = IsSound c × (is_internal e ≡ false)

poll_pending-Soundly :
    (context : DedupContext) (now last : ℕ) (p : Option DedupContext) (since : Option ℕ)
    (c : AdaptiveCaptureController)
    → is_some p ≡ is_some since
    → IsSound c
    → Soundly (poll_pending context now last p since c)
unfolding poll_pending poll_cadence clear_pending_change
poll_pending-Soundly context now last none since c e s = record {
  pending = refl;
  span = s.span;
  at_least = s.at_least;
  at_most = s.at_most;
}
poll_pending-Soundly context now last (some p) none c e s = cc
poll_pending-Soundly context now last (some p) (some since) c e s =
    elim (Bool-cases (same_key context p)) [
      | inr f ↦
          rw f
            (record { pending = refl; span = s.span; at_least = s.at_least; at_most = s.at_most })
      | inl f ↦ elim (Bool-cases (ltb now since)) [
        | inl g ↦ rw (f, g) (s, refl)
        | inr g ↦ elim (Bool-cases (leb (since + c.debounce_ns) now)) [
          | inl h ↦
              rw (f, g, h)
                (record {
                  pending = refl;
                  span = s.span;
                  at_least = s.at_least;
                  at_most = s.at_most;
                })
          | inr h ↦ rw (f, g, h) s
        ]
      ]
    ]

poll_from-Soundly :
    (context : DedupContext) (now : ℕ) (last : Option ℕ) (previous : Option DedupContext)
    (c : AdaptiveCaptureController)
    → IsSound c
    → Soundly (poll_from context now last previous c)
unfolding poll_from clear_pending_change poll_cadence
poll_from-Soundly context now none previous c s = s
poll_from-Soundly context now (some last) none c s = s
poll_from-Soundly context now (some last) (some previous) c s =
    let cleared : IsSound (record c { pending_context = none; pending_since_ns = none }) = record {
      pending = refl;
      span = s.span;
      at_least = s.at_least;
      at_most = s.at_most;
    } in
    elim (Bool-cases (ltb now last)) [
      | inl e ↦ rw e (s, refl)
      | inr e ↦ elim (Bool-cases (same_scope context previous)) [
        | inr f ↦ rw (e, f) cleared
        | inl f ↦ elim (Bool-cases (same_key context previous)) [
          | inr g ↦
              rw (e, f, g)
                (poll_pending-Soundly context now last c.pending_context c.pending_since_ns c
                  s.pending s)
          | inl g ↦ rw (e, f, g) cleared
        ]
      ]
    ]

pub poll-Soundly :
    (context : DedupContext) (now : ℕ) (c : AdaptiveCaptureController)
    → IsSound c
    → Soundly (poll context now c)
unfolding poll
poll-Soundly context now c s =
    poll_from-Soundly context now c.last_capture_ns c.last_capture_context c s

pub mark_capture_started-Soundly :
    (context : DedupContext) (now : ℕ) (c : AdaptiveCaptureController)
    → IsSound c
    → Soundly (mark_capture_started context now c)
unfolding mark_capture_started reset_dedup_state clear_pending_change
mark_capture_started-Soundly context now c s = elim (Bool-cases (is_before now c.last_capture_ns)) [
  | inl e ↦ rw e (s, refl)
  | inr e ↦ elim (Bool-cases (is_other_scope context c.last_capture_context)) [
    | inl f ↦
        rw (e, f)
          (record { pending = refl; span = refl; at_least = s.at_least; at_most = s.at_most })
    | inr f ↦
        rw (e, f)
          (record { pending = refl; span = s.span; at_least = s.at_least; at_most = s.at_most })
  ]
]

accept_new_span-Soundly :
    (context : DedupContext) (fingerprint now : ℕ) (c : AdaptiveCaptureController)
    → IsSound c
    → Soundly (accept_new_span context fingerprint now c)
unfolding accept_new_span
accept_new_span-Soundly context fingerprint now c s = record {
  pending = s.pending;
  span = refl;
  at_least = s.at_least;
  at_most = s.at_most;
}

extend_span-Soundly :
    (now : ℕ) (started : Option ℕ) (c : AdaptiveCaptureController)
    → true ≡ is_some started
    → IsSound c
    → Soundly (extend_span now started c)
unfolding extend_span
extend_span-Soundly now none c e s = cc
extend_span-Soundly now (some started) c e s = record {
  pending = s.pending;
  span = s.span;
  at_least = s.at_least;
  at_most = s.at_most;
}

classify_from-Soundly :
    (context : DedupContext) (fingerprint now : ℕ) (last : Option DedupContext) (before : Option ℕ)
    (c : AdaptiveCaptureController)
    → is_some before ≡ is_some c.span_started_ns
    → IsSound c
    → Soundly (classify_from context fingerprint now last before c)
unfolding classify_from
classify_from-Soundly context fingerprint now none before c e s =
    accept_new_span-Soundly context fingerprint now c s
classify_from-Soundly context fingerprint now (some last) none c e s =
    accept_new_span-Soundly context fingerprint now c s
classify_from-Soundly context fingerprint now (some last) (some before) c e s =
    elim (Bool-cases (same_context last context)) [
      | inr f ↦ rw f (accept_new_span-Soundly context fingerprint now c s)
      | inl f ↦ elim (Bool-cases (leb (changed_bits 64 before fingerprint) c.change_threshold)) [
        | inl g ↦ rw (f, g) (extend_span-Soundly now c.span_started_ns c e s)
        | inr g ↦ rw (f, g) (accept_new_span-Soundly context fingerprint now c s)
      ]
    ]

pub classify_frame-Soundly :
    (context : DedupContext) (fingerprint now : ℕ) (c : AdaptiveCaptureController)
    → fingerprint < 2 ^ 64
    → IsSound c
    → Soundly (classify_frame context fingerprint now c)
unfolding classify_frame
classify_frame-Soundly context fingerprint now c small s =
    elim (Bool-cases (leb (2 ^ 64) fingerprint)) [
      | inl e ↦ absurd (ground arith)
      | inr e ↦ elim (Bool-cases (is_before now c.span_last_seen_ns)) [
        | inl f ↦ rw (e, f) (s, refl)
        | inr f ↦
            rw (e, f)
              (classify_from-Soundly context fingerprint now c.last_dedup_context c.last_fingerprint
                c s.span s)
      ]
    ]

pub note_overload-IsSound : (c : AdaptiveCaptureController) → IsSound c → IsSound (note_overload c)
unfolding note_overload
note_overload-IsSound c s =
    let low = s.at_least in
    let high = s.at_most in
    record { pending = s.pending; span = s.span; at_least = ground arith; at_most = ground arith }

pub note_success-IsSound : (c : AdaptiveCaptureController) → IsSound c → IsSound (note_success c)
unfolding note_success
note_success-IsSound c s =
    let low = s.at_least in
    let high = s.at_most in
    record { pending = s.pending; span = s.span; at_least = ground arith; at_most = ground arith }

pub reset-IsSound : (c : AdaptiveCaptureController) → IsSound c → IsSound (reset c)
unfolding reset clear_pending_change reset_dedup_state
reset-IsSound c s =
    let low = s.at_least in
    let high = s.at_most in
    record { pending = refl; span = refl; at_least = omega arith; at_most = omega arith }
