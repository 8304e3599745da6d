-- ===== src/Policy/Engine.antt =====
-- src/local_recall/policy/engine.py: the engine's state and the operations that change it. Its methods
-- run under one lock, so each is a function of the state.
use local_recall.Common.{
  ℕ, ◌+◌, Bool, true, false, not, ◌&&◌, ◌||◌, Option, none, some, List, [], ◌∷◌, ◌++◌, ◌==◌, leb,
  ltb, length, any, if◌then◌else◌, Text, same_text, codes,
}
use local_recall.Common.Exec.{returned, raised, Exec}
use local_recall.Lifecycle.State.{CaptureGeneration}
use local_recall.Policy.{
  SensitiveScope, window, workspace, PolicyAuthorization, PolicyEvaluationContext, ContextMetadata,
  Scalar, text, integer, boolean, CaptureRule, Library, LocalRecallConfig, same_scope,
}
use local_recall.Policy.Domain.{normalize_domain}
use local_recall.Policy.Match.{CompiledRule, scalar_field}

pub record TemporarySensitiveContext : Type 0 where
  pub scope : SensitiveScope
  pub value : Scalar
  pub expires_at : ℕ
  pub capture_generation : CaptureGeneration

-- The time zone is that of the configuration.
pub record PolicyEngine : Type 0 where
  pub configuration : LocalRecallConfig
  pub revision : Text
  pub generation : ℕ
  pub rules : List CompiledRule
  pub privacy_mode : Bool
  pub session_locked : Bool
  pub healthy : Bool
  pub last_error_code : Option Text
  pub temporary : List TemporarySensitiveContext

pub data PolicyError : Type 0 where
  empty_revision invalid_policy invalid_lifetime context_unavailable denied : PolicyError

abbrev pub Policy : Type 0 → Type 0
Policy A = Exec PolicyEngine PolicyError A

-- `require_nonempty` does not raise.
unfoldable pub is_nonempty : Library → Text → Bool
is_nonempty library value = not (length value == 0) && not (length (library.strip value) == 0)

abbrev pub id_of : Library → CaptureRule → Option Text → Text
id_of library rule none = library.anonymous_rule_id rule
id_of library rule (some []) = library.anonymous_rule_id rule
id_of library rule (some (c ∷ rest)) = c ∷ rest

unfoldable pub pattern_of : Library → Option Text → Option (Option Text)
pattern_of library none = some none
pattern_of library (some pattern) = if library.compiles pattern then some (some pattern) else none

unfoldable pub domain_of : Library → Option Text → Option (Option Text)
unfolding normalize_domain
domain_of library none = some none
domain_of library (some domain) = elim (normalize_domain library domain) [
  | none ↦ none
  | some normalized ↦ some (some normalized)
]

unfoldable pub compile_rule :
    Library → CaptureRule → Option (Option Text) → Option (Option Text) → Option CompiledRule
compile_rule library rule (some pattern) (some domain) = some (record {
  rule = rule;
  rule_id = id_of library rule rule.rule_id;
  title_pattern = pattern;
  normalized_domain = domain;
})
compile_rule library rule _ _ = none

abbrev pub add_rule : Option CompiledRule → Option (List CompiledRule) → Option (List CompiledRule)
add_rule (some rule) (some rules) = some (rule ∷ rules)
add_rule _ _ = none

-- `_compile`: the rules, or none where an exception is raised.
unfoldable pub compile : Library → List CaptureRule → Option (List CompiledRule)
unfolding compile_rule pattern_of domain_of
compile library [] = some []
compile library (rule ∷ rest) =
    add_rule
      (compile_rule library rule (pattern_of library rule.title_pattern)
        (domain_of library rule.domain))
      (compile library rest)

-- `_compile` and `ZoneInfo`.
unfoldable pub prepare : Library → LocalRecallConfig → Option (List CompiledRule)
unfolding compile
prepare library configuration =
    if library.has_zone configuration.timezone then compile library configuration.rules else none

unfoldable pub new : Library → LocalRecallConfig → Text → Option PolicyEngine
unfolding prepare is_nonempty
new library configuration revision =
    if not (is_nonempty library revision) then none else elim (prepare library configuration) [
      | none ↦ none
      | some rules ↦ some (record {
        configuration = configuration;
        revision = revision;
        generation = 1;
        rules = rules;
        privacy_mode = false;
        session_locked = false;
        healthy = true;
        last_error_code = none;
        temporary = [];
      })
    ]

unfoldable pub is_authorization_current :
    PolicyAuthorization → Option CaptureGeneration → PolicyEngine → Bool
is_authorization_current a generation s =
    if s.privacy_mode || s.session_locked || not s.healthy
    then false
    else if not (same_text a.policy_revision s.revision)
    then false
    else if not (a.policy_generation == s.generation)
    then false
    else elim generation [ none ↦ true | some g ↦ a.capture_generation == g ]

abbrev pub same_flag : Bool → Bool → Bool
same_flag true b = b
same_flag false b = not b

unfoldable pub set_privacy_mode : Bool → PolicyEngine → PolicyEngine
set_privacy_mode active s = if same_flag s.privacy_mode active then s else record s {
  privacy_mode = active;
  generation = s.generation + 1;
  temporary = if active then [] else s.temporary;
}

unfoldable pub set_session_locked : Bool → PolicyEngine → PolicyEngine
set_session_locked locked s = if same_flag s.session_locked locked then s else record s {
  session_locked = locked;
  generation = s.generation + 1;
  temporary = if locked then [] else s.temporary;
}

-- `value` when it is a `str` or an `int`; a `bool` is an `int`.
abbrev pub scope_value : Scalar → Option Scalar
scope_value (text t) = some (text t)
scope_value (integer negative n) = some (integer negative n)
scope_value (boolean b) = some (boolean b)
scope_value _ = none

unfoldable pub sensitive_scope_value : SensitiveScope → ContextMetadata → Option Scalar
unfolding scalar_field
sensitive_scope_value window metadata = scope_value (scalar_field metadata (codes "window.id"))
sensitive_scope_value workspace metadata = scope_value (scalar_field metadata (codes "workspace"))

-- The markers of other scopes.
unfoldable pub without_scope :
    SensitiveScope → List TemporarySensitiveContext → List TemporarySensitiveContext
without_scope scope [] = []
without_scope scope (item ∷ rest) =
    let others = without_scope scope rest in
    if same_scope item.scope scope then others else item ∷ others

-- The lifetime is in microseconds.
unfoldable pub mark_current_sensitive : SensitiveScope → PolicyEvaluationContext → ℕ → Policy Unit
mark_current_sensitive scope context lifetime s =
    if not (leb 1000000 lifetime && leb lifetime 86400000000)
    then raised invalid_lifetime s
    else elim (sensitive_scope_value scope context.metadata) [
      | none ↦ raised context_unavailable s
      | some value ↦ returned tt (record s {
        temporary =
            without_scope scope s.temporary
            ++ record {
              scope = scope;
              value = value;
              expires_at = context.evaluated_at + lifetime;
              capture_generation = context.capture_generation;
            }
              ∷ [];
        generation = s.generation + 1;
      })
    ]

unfoldable pub clear_temporary_sensitive : Option SensitiveScope → PolicyEngine → PolicyEngine
unfolding without_scope
clear_temporary_sensitive none s =
    if length s.temporary == 0
    then s
    else record s { temporary = []; generation = s.generation + 1 }
clear_temporary_sensitive (some scope) s =
    if not (any (λ item. same_scope item.scope scope) s.temporary)
    then s
    else record s { temporary = without_scope scope s.temporary; generation = s.generation + 1 }

unfoldable pub replace_policy : Library → LocalRecallConfig → Text → Policy Unit
unfolding prepare is_nonempty
replace_policy library configuration revision s =
    if not (is_nonempty library revision)
    then raised empty_revision s
    else elim (prepare library configuration) [
      | none ↦ raised invalid_policy (record s {
        healthy = false;
        last_error_code = some (codes "policy-reload-invalid");
        generation = s.generation + 1;
      })
      | some rules ↦ returned tt (record {
        configuration = configuration;
        revision = revision;
        generation = s.generation + 1;
        rules = rules;
        privacy_mode = s.privacy_mode;
        session_locked = s.session_locked;
        healthy = true;
        last_error_code = none;
        temporary = [];
      })
    ]

unfoldable pub not_expired : ℕ → List TemporarySensitiveContext → List TemporarySensitiveContext
not_expired now [] = []
not_expired now (item ∷ rest) =
    let others = not_expired now rest in if ltb now item.expires_at then item ∷ others else others

-- `_snapshot`: markers that expired go, and the state after it is the snapshot.
unfoldable pub snapshot : ℕ → PolicyEngine → PolicyEngine
unfolding not_expired
snapshot now s =
    if any (λ item. leb item.expires_at now) s.temporary
    then record s { temporary = not_expired now s.temporary; generation = s.generation + 1 }
    else s
