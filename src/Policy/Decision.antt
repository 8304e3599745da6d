-- ===== src/Policy/Decision.antt =====
-- src/local_recall/policy/engine.py: the decision over a snapshot, and what is authorized by it.
use local_recall.Common.{
  ℕ, ◌+◌, Bool, true, false, not, ◌&&◌, ◌||◌, Option, none, some, List, [], ◌∷◌, ◌++◌, ◌==◌, ltb,
  length, any, if◌then◌else◌, Text, same_text,
}
use local_recall.Policy.{
  PolicyOperation, metadata, PolicyReasonCode, PolicyEvaluationContext, ContextField, Scalar, text,
  integer, boolean, RuleEffect, allow, deny, local_first, Library, same_operation, SensitiveScope,
  window, workspace, temporary_sensitive_window, temporary_sensitive_workspace, source_unavailable,
  required_context_missing, malformed_context, stale_context,
}
use local_recall.Policy.Match.{
  match, no_match, unknown, malformed, CompiledRule, match_rule, is_malformed,
}
use local_recall.Policy.Engine.{PolicyEngine, TemporarySensitiveContext, sensitive_scope_value}

-- `_CAPTURE_SENSITIVE_OPERATIONS`
unfoldable pub is_capture_sensitive : PolicyOperation → Bool
is_capture_sensitive metadata = false
is_capture_sensitive _ = true

abbrev is_bad : Scalar → Bool
is_bad (text t) = is_malformed t
is_bad _ = false

unfoldable pub has_malformed : List ContextField → Bool
unfolding is_malformed
has_malformed [] = false
has_malformed (field ∷ rest) =
    if length field.provenance == 0 || is_bad field.value then true else has_malformed rest

unfoldable pub validate_context : PolicyEngine → PolicyEvaluationContext → Option PolicyReasonCode
unfolding has_malformed
validate_context s context =
    if length context.metadata.fields == 0
    then some source_unavailable
    else if ltb context.evaluated_at context.metadata.observed_at
        || ltb (context.metadata.observed_at + s.configuration.max_metadata_age)
            context.evaluated_at
    then some stale_context
    else if has_malformed context.metadata.fields
    then some malformed_context
    else none

unfoldable pub remote_authorized : PolicyEngine → Bool
remote_authorized s = elim s.configuration.profile [
  | local_first ↦
      s.configuration.remote_enabled && any (λ enabled. enabled) s.configuration.remote_providers
  | _ ↦ false
]

unfoldable pub applies : PolicyOperation → CompiledRule → Bool
applies operation compiled =
    compiled.rule.enabled && any (same_operation operation) compiled.rule.operations

abbrev pub is_deny : RuleEffect → Bool
is_deny deny = true
is_deny allow = false

-- What the loop over the rules comes to: a rule that cannot be decided, or the rules that match.
pub data Verdict : Type 0 where
  undecided : PolicyReasonCode → Text → Verdict
  gathered : List CompiledRule → List CompiledRule → Verdict

unfoldable pub gather :
    Library
    → PolicyEngine
    → PolicyOperation
    → PolicyEvaluationContext
    → List CompiledRule
    → List CompiledRule
    → List CompiledRule
    → Verdict
gather library s operation context [] denies allows = gathered denies allows
gather library s operation context (rule ∷ rest) denies allows =
    if not (applies operation rule)
    then gather library s operation context rest denies allows
    else elim (match_rule library s.configuration rule context) [
      | malformed ↦ undecided malformed_context rule.rule_id
      | unknown ↦ undecided required_context_missing rule.rule_id
      | no_match ↦ gather library s operation context rest denies allows
      | match ↦
          if is_deny rule.rule.effect
          then gather library s operation context rest (denies ++ rule ∷ []) allows
          else gather library s operation context rest denies (allows ++ rule ∷ [])
    ]

-- The order of texts by their code points.
unfoldable pub text_ltb : Text → Text → Bool
text_ltb x [] = false
text_ltb [] (b ∷ y) = true
text_ltb (a ∷ x) (b ∷ y) =
    let rest = text_ltb x y in if ltb a b then true else if ltb b a then false else rest

-- `(-item.rule.priority, item.rule_id)` is less for `a` than for `b`.
unfoldable pub precedes : CompiledRule → CompiledRule → Bool
unfolding text_ltb
precedes a b =
    ltb b.rule.priority a.rule.priority
    || (a.rule.priority == b.rule.priority && text_ltb a.rule_id b.rule_id)

-- `min`, which takes the first of the least.
unfoldable pub strongest : CompiledRule → List CompiledRule → CompiledRule
unfolding precedes
strongest best [] = best
strongest best (rule ∷ rest) = strongest (if precedes rule best then rule else best) rest

abbrev pub number_of : Scalar → Option (Bool × ℕ)
number_of (integer negative n) = some (negative, n)
number_of (boolean true) = some (false, 1)
number_of (boolean false) = some (false, 0)
number_of _ = none

abbrev pub same_number : Option (Bool × ℕ) → Option (Bool × ℕ) → Bool
same_number (some (true, m)) (some (true, n)) = m == n
same_number (some (false, m)) (some (false, n)) = m == n
same_number _ _ = false

-- Equality of values that are a `str` or an `int`.
unfoldable pub same_scalar : Scalar → Scalar → Bool
same_scalar (text t) (text u) = same_text t u
same_scalar v w = same_number (number_of v) (number_of w)

abbrev pub is_value : Option Scalar → Scalar → Bool
is_value none value = false
is_value (some current) value = same_scalar current value

unfoldable pub marks : TemporarySensitiveContext → PolicyEvaluationContext → Bool
marks marker context =
    marker.capture_generation == context.capture_generation
    && is_value (sensitive_scope_value marker.scope context.metadata) marker.value

abbrev pub reason_of : SensitiveScope → PolicyReasonCode
reason_of window = temporary_sensitive_window
reason_of workspace = temporary_sensitive_workspace

unfoldable pub temporary_reason :
    List TemporarySensitiveContext → PolicyEvaluationContext → Option PolicyReasonCode
temporary_reason [] context = none
temporary_reason (marker ∷ rest) context =
    let later = temporary_reason rest context in
    if marks marker context then some (reason_of marker.scope) else later
