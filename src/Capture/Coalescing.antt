-- ===== src/Capture/Coalescing.antt =====
-- src/local_recall/capture/adaptive.py, `classify_frame`: when a frame is coalesced.
use local_recall.Common.{
  ℕ, zero, suc, ◌+◌, ◌*◌, ◌/◌, ◌%◌, ◌^◌, ◌≤◌, ◌≡◌, inl, inr, refl, sym, ap, subst, true, Bool-cases,
  Option, none, some, ◌∙◌, ◌==◌, leb, if◌then◌else◌, arith,
}
use native.Mathlib.Nat.{pow-suc, div-div-eq-div-mul}
use local_recall.Common.Exec.{returned}
use local_recall.Capture.Adaptive.{
  AdaptiveCaptureController, DedupContext, FrameDecision, coalesce, classify_frame, classify_from,
  accept_new_span, extend_span, same_context, changed_bits,
}

-- The bit `i` of a number, and in how many of the `n` bits from `i` on two numbers differ.
abbrev pub bit : ℕ → ℕ → ℕ
bit a i = a / 2 ^ i % 2

unfoldable pub differing : ℕ → ℕ → ℕ → ℕ → ℕ
differing zero i a b = 0
differing (suc n) i a b =
    let rest = differing n (i + 1) a b in if bit a i == bit b i then rest else rest + 1

next_bits : (a i : ℕ) → a / 2 ^ i / 2 ≡ a / 2 ^ (i + 1)
next_bits a i =
    let next : i + 1 ≡ suc i = omega arith in
    let double : 2 ^ (i + 1) ≡ 2 ^ i * 2 = rw next (pow-suc 2 i) in
    div-div-eq-div-mul a (2 ^ i) 2 ∙ ap (λ n. a / n) (sym double)

changed_bits-differing : (n i a b : ℕ) → changed_bits n (a / 2 ^ i) (b / 2 ^ i) ≡ differing n i a b
unfolding changed_bits differing
changed_bits-differing zero i a b = refl
changed_bits-differing (suc n) i a b =
    let same : changed_bits n (a / 2 ^ i / 2) (b / 2 ^ i / 2) ≡ differing n (i + 1) a b =
      rw (next_bits a i, next_bits b i) (changed_bits-differing n (i + 1) a b) in
    ap (λ rest. if bit a i == bit b i then rest else rest + 1) same

extend_span-count :
    (now : ℕ) (started : Option ℕ) (c d : AdaptiveCaptureController) (decision : FrameDecision)
    → extend_span now started c ≡ returned decision d
    → (decision.span_count ≡ c.span_count + 1)
      × (d.span_count ≡ c.span_count + 1)
      × (started ≡ some decision.span_started_ns)
      × (d.span_started_ns ≡ c.span_started_ns)
      × (d.span_last_seen_ns ≡ some now)
      × (d.last_dedup_context ≡ c.last_dedup_context)
      × (d.last_fingerprint ≡ c.last_fingerprint)
unfolding extend_span
extend_span-count now none c d decision e = cc
extend_span-count now (some started) c d decision e = (
  ground arith,
  ground arith,
  ground arith,
  ground arith,
  ground arith,
  ground arith,
  ground arith,
)

not_coalesced :
    (context : DedupContext) (fingerprint now : ℕ) (c d : AdaptiveCaptureController)
    (decision : FrameDecision)
    → accept_new_span context fingerprint now c ≡ returned decision d
    → decision.disposition ≡ coalesce
    → ⊥
unfolding accept_new_span
not_coalesced context fingerprint now c d decision e same = ground arith

classify_from-coalesces :
    (context : DedupContext) (fingerprint now : ℕ) (last : Option DedupContext) (before : Option ℕ)
    (c d : AdaptiveCaptureController) (decision : FrameDecision)
    → classify_from context fingerprint now last before c ≡ returned decision d
    → decision.disposition ≡ coalesce
    → (l : DedupContext) × (b : ℕ) × (last ≡ some l)
      × (before ≡ some b)
      × (same_context l context ≡ true)
      × (changed_bits 64 b fingerprint ≤ c.change_threshold)
      × (extend_span now c.span_started_ns c ≡ returned decision d)
unfolding classify_from
classify_from-coalesces context fingerprint now none before c d decision e same =
    absurd (not_coalesced context fingerprint now c d decision e same)
classify_from-coalesces context fingerprint now (some l) none c d decision e same =
    absurd (not_coalesced context fingerprint now c d decision e same)
classify_from-coalesces context fingerprint now (some l) (some b) c d decision e same =
    elim (Bool-cases (same_context l context)) [
      | inr f ↦ absurd (not_coalesced context fingerprint now c d decision (ground arith) same)
      | inl f ↦ elim (Bool-cases (leb (changed_bits 64 b fingerprint) c.change_threshold)) [
        | inr g ↦ absurd (not_coalesced context fingerprint now c d decision (ground arith) same)
        | inl g ↦ (l, b, refl, refl, f, ground arith, ground arith)
      ]
    ]

whole : (a : ℕ) → a ≡ a / 2 ^ 0
whole a = omega arith

all_bits : (a b : ℕ) → changed_bits 64 a b ≡ differing 64 0 a b
all_bits a b =
    ap (λ x. changed_bits 64 x b) (whole a)
    ∙ ap (λ y. changed_bits 64 (a / 2 ^ 0) y) (whole b)
    ∙ changed_bits-differing 64 0 a b

-- A frame that is coalesced is of the same context as the last one, and its fingerprint differs from
-- the last one in no more of their 64 bits than the threshold. The controller then counts one more
-- frame in the span, and answers that count and the start of the span; it notes the time as the last of
-- the span, and keeps the start, the context and the fingerprint that frames are compared with.
pub classify_frame-coalesces :
    (context : DedupContext) (fingerprint now : ℕ) (c d : AdaptiveCaptureController)
    (decision : FrameDecision)
    → classify_frame context fingerprint now c ≡ returned decision d
    → decision.disposition ≡ coalesce
    → (last : DedupContext) × (before : ℕ) × (c.last_dedup_context ≡ some last)
      × (c.last_fingerprint ≡ some before)
      × (same_context last context ≡ true)
      × (differing 64 0 before fingerprint ≤ c.change_threshold)
      × (decision.span_count ≡ c.span_count + 1)
      × (d.span_count ≡ c.span_count + 1)
      × (c.span_started_ns ≡ some decision.span_started_ns)
      × (d.span_started_ns ≡ c.span_started_ns)
      × (d.span_last_seen_ns ≡ some now)
      × (d.last_dedup_context ≡ some last)
      × (d.last_fingerprint ≡ some before)
unfolding classify_frame
classify_frame-coalesces context fingerprint now c d decision e same =
    let inner : classify_from context fingerprint now c.last_dedup_context c.last_fingerprint c
        ≡ returned decision d =
      ground arith in
    let (l, b, last, before, f, few, extended) =
      classify_from-coalesces context fingerprint now c.last_dedup_context c.last_fingerprint c d
        decision inner same in
    let (count, stored, answered, start, seen, x, y) =
      extend_span-count now c.span_started_ns c d decision extended in
    (
      l,
      b,
      last,
      before,
      f,
      subst (λ n. n ≤ c.change_threshold) (all_bits b fingerprint) few,
      count,
      stored,
      answered,
      start,
      seen,
      x ∙ last,
      y ∙ before,
    )
