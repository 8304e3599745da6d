-- ===== src/Policy/Denials.antt =====
-- src/local_recall/policy/engine.py: what the engine denies after a change of its state.
use local_recall.Common.{
  ℕ, ◌+◌, ◌<◌, ◌≡◌, refl, subst, true, false, Bool-cases, none, some, is_some, Option-cases, inl,
  inr, List, [], ◌∷◌, ◌++◌, ◌==◌, any, leb, Text, same_text_refl, arith,
}
use local_recall.Common.Exec.{returned, after}
use local_recall.Policy.{
  PolicyOperation, PolicyPhase, PolicyEvaluationContext, SensitiveScope, window, workspace, Library,
  LocalRecallConfig, Scalar, text, integer, floating, boolean, nothing, ContextMetadata,
}
use local_recall.Policy.Engine.{
  PolicyEngine, TemporarySensitiveContext, replace_policy, prepare, is_nonempty, snapshot,
  not_expired, mark_current_sensitive, sensitive_scope_value, without_scope, scope_value,
}
use local_recall.Policy.Decision.{marks, temporary_reason, same_scalar}
use local_recall.Policy.Evaluate.{evaluate}
use local_recall.Policy.Permits.{permits, evaluate_snapshot-permits}

module _ (library : Library) (operation : PolicyOperation) (phase : PolicyPhase)
    (context : PolicyEvaluationContext) where
  snapshot-healthy : (s : PolicyEngine) → (snapshot context.evaluated_at s).healthy ≡ s.healthy
  unfolding snapshot
  snapshot-healthy s = ground arith

  evaluate-permits :
      (s : PolicyEngine)
      → (evaluate library operation phase context s).0.allowed
        ≡ permits library (snapshot context.evaluated_at s) operation context
  unfolding evaluate
  evaluate-permits s =
      evaluate_snapshot-permits library (snapshot context.evaluated_at s) operation context phase

  unhealthy-denied :
      (s : PolicyEngine)
      → s.healthy ≡ false
      → (evaluate library operation phase context s).0.allowed ≡ false
  unfolding permits
  unhealthy-denied s e =
      let allowed = evaluate-permits s in let health = snapshot-healthy s in ground arith

  -- A policy that cannot be compiled, or whose time zone is unknown, is refused, and after that the
  -- engine denies every operation in every context.
  pub replace_policy-denied :
      (configuration : LocalRecallConfig) (revision : Text) (s : PolicyEngine)
      → is_nonempty library revision ≡ true
      → prepare library configuration ≡ none
      → let t = after (replace_policy library configuration revision s) in
        (evaluate library operation phase context t).0.allowed ≡ false
  unfolding replace_policy
  replace_policy-denied configuration revision s named bad =
      unhealthy-denied (after (replace_policy library configuration revision s)) sick
    where
      sick : (after (replace_policy library configuration revision s)).healthy ≡ false
      sick = rw (replace_policy, named, bad) refl

scope_value-same : (v w : Scalar) → scope_value v ≡ some w → same_scalar w w ≡ true
unfolding same_scalar
scope_value-same (text t) w e =
    let p : text t ≡ w = cc in subst (λ x. same_scalar x x ≡ true) p (same_text_refl t)
scope_value-same (integer true n) w e =
    let p : integer true n ≡ w = cc in subst (λ x. same_scalar x x ≡ true) p (ground arith)
scope_value-same (integer false n) w e =
    let p : integer false n ≡ w = cc in subst (λ x. same_scalar x x ≡ true) p (ground arith)
scope_value-same (boolean true) w e =
    let p : boolean true ≡ w = cc in subst (λ x. same_scalar x x ≡ true) p refl
scope_value-same (boolean false) w e =
    let p : boolean false ≡ w = cc in subst (λ x. same_scalar x x ≡ true) p refl
scope_value-same (floating n) w e = cc
scope_value-same nothing w e = cc

sensitive_scope_value-same :
    (scope : SensitiveScope) (metadata : ContextMetadata) (value : Scalar)
    → sensitive_scope_value scope metadata ≡ some value
    → same_scalar value value ≡ true
unfolding sensitive_scope_value
sensitive_scope_value-same window metadata value e = scope_value-same _ value e
sensitive_scope_value-same workspace metadata value e = scope_value-same _ value e

temporary_reason-append :
    (l : List TemporarySensitiveContext) (m : TemporarySensitiveContext)
    (context : PolicyEvaluationContext)
    → marks m context ≡ true
    → is_some (temporary_reason (l ++ m ∷ []) context) ≡ true
unfolding temporary_reason
temporary_reason-append [] m context e = rw e refl
temporary_reason-append (x ∷ l) m context e =
    let ih = temporary_reason-append l m context e in ground arith

not_expired-append :
    (now : ℕ) (l : List TemporarySensitiveContext) (m : TemporarySensitiveContext)
    → now < m.expires_at
    → not_expired now (l ++ m ∷ []) ≡ not_expired now l ++ m ∷ []
unfolding not_expired
not_expired-append now [] m live = ground arith
not_expired-append now (x ∷ l) m live = let ih = not_expired-append now l m live in ground arith

-- A marker that is last among the markers and not expired stands after a snapshot.
snapshot-reason :
    (l : List TemporarySensitiveContext) (m : TemporarySensitiveContext)
    (context : PolicyEvaluationContext) (s : PolicyEngine)
    → s.temporary ≡ l ++ m ∷ []
    → context.evaluated_at < m.expires_at
    → marks m context ≡ true
    → is_some (temporary_reason (snapshot context.evaluated_at s).temporary context) ≡ true
unfolding snapshot
snapshot-reason l m context s e live here =
    elim (Bool-cases (any (λ item. leb item.expires_at context.evaluated_at) s.temporary)) [
      | inl old ↦
          rw (old, e, not_expired-append context.evaluated_at l m live)
            (temporary_reason-append (not_expired context.evaluated_at l) m context here)
      | inr none_old ↦ rw (none_old, e) (temporary_reason-append l m context here)
    ]

abbrev marker : SensitiveScope → Scalar → PolicyEvaluationContext → ℕ → TemporarySensitiveContext
marker scope value context lifetime = record {
  scope = scope;
  value = value;
  expires_at = context.evaluated_at + lifetime;
  capture_generation = context.capture_generation;
}

marks-same :
    (scope : SensitiveScope) (context : PolicyEvaluationContext) (lifetime now : ℕ) (value : Scalar)
    → sensitive_scope_value scope context.metadata ≡ some value
    → same_scalar value value ≡ true
    → marks (marker scope value context lifetime) (record context { evaluated_at = now }) ≡ true
unfolding marks
marks-same scope context lifetime now value found same =
    let g : (context.capture_generation == context.capture_generation) ≡ true = ground arith in
    rw (g, found, same) refl

marked_lem :
    (scope : SensitiveScope) (context : PolicyEvaluationContext) (lifetime : ℕ) (s t : PolicyEngine)
    → mark_current_sensitive scope context lifetime s ≡ returned tt t
    → (value : Scalar) × (sensitive_scope_value scope context.metadata ≡ some value)
      × (t.temporary ≡ without_scope scope s.temporary ++ marker scope value context lifetime ∷ [])
unfolding mark_current_sensitive
marked_lem scope context lifetime s t e =
    elim (Option-cases (sensitive_scope_value scope context.metadata)) [
      | inl none_ ↦ absurd (ground arith)
      | inr (value, found) ↦ (value, found, ground arith)
    ]

-- After a context was marked as sensitive, and while the marker lasts, the engine denies every
-- operation in a context with the same metadata, of the same generation and on the same screen.
pub mark_current_sensitive-denied :
    (library : Library) (operation : PolicyOperation) (phase : PolicyPhase) (scope : SensitiveScope)
    (context : PolicyEvaluationContext) (lifetime now : ℕ) (s t : PolicyEngine)
    → mark_current_sensitive scope context lifetime s ≡ returned tt t
    → now < context.evaluated_at + lifetime
    → (evaluate library operation phase (record context { evaluated_at = now }) t).0.allowed ≡ false
unfolding permits
mark_current_sensitive-denied library operation phase scope context lifetime now s t e live =
    let (value, found, temporary) = marked_lem scope context lifetime s t e in
    let m : TemporarySensitiveContext = marker scope value context lifetime in
    let later : PolicyEvaluationContext = record context { evaluated_at = now } in
    let same = sensitive_scope_value-same scope context.metadata value found in
    let here : marks m later ≡ true = marks-same scope context lifetime now value found same in
    let reason = snapshot-reason (without_scope scope s.temporary) m later t temporary live here in
    let allowed = evaluate-permits library operation phase later t in ground arith
