-- ===== src/Policy/Permits.antt =====
-- src/local_recall/policy/engine.py: what `_evaluate` allows, without the order of its tests and rules.
use local_recall.Common.{
  Bool, true, false, not, ◌&&◌, ◌||◌, is_some, List, [], ◌∷◌, ◌++◌, any, all, ◌≡◌, refl, arith,
  if◌then◌else◌,
}
use local_recall.Policy.{
  PolicyOperation, remote_provider, PolicyPhase, PolicyEvaluationContext, RuleEffect, allow, deny,
  Library, same_operation,
}
use local_recall.Policy.Match.{Match, match, no_match, unknown, malformed, CompiledRule, match_rule}
use local_recall.Policy.Engine.{PolicyEngine}
use local_recall.Policy.Decision.{
  is_capture_sensitive, validate_context, remote_authorized, applies, Verdict, undecided, gathered,
  gather, temporary_reason,
}
use local_recall.Policy.Evaluate.{
  builtin_sensitive_reason, evaluate_snapshot, verdict_decision, permissive_decision,
  default_decision, denies, allows,
}

abbrev pub is_allow : RuleEffect → Bool
is_allow allow = true
is_allow deny = false

-- A rule that does not stand against the operation: it does not apply, or does not match, or allows.
abbrev pub agrees : RuleEffect → Match → Bool
agrees effect match = is_allow effect
agrees effect no_match = true
agrees effect unknown = false
agrees effect malformed = false

abbrev pub is_matched : Match → Bool
is_matched match = true
is_matched _ = false

module _ (library : Library) (s : PolicyEngine) (operation : PolicyOperation)
    (context : PolicyEvaluationContext) where
  unfoldable pub tolerates : CompiledRule → Bool
  tolerates rule =
      if applies operation rule
      then agrees rule.rule.effect (match_rule library s.configuration rule context)
      else true

  unfoldable pub endorses : CompiledRule → Bool
  endorses rule =
      applies operation rule
      && (is_matched (match_rule library s.configuration rule context) && is_allow rule.rule.effect)

  -- The operation may run: every test is passed, every rule tolerates it, and some rule or the default
  -- allows it.
  unfoldable pub permits : Bool
  permits =
      s.healthy
      && not s.privacy_mode
      && not s.session_locked
      && not (is_capture_sensitive operation && is_some (validate_context s context))
      && not (same_operation operation remote_provider && not (remote_authorized s))
      && all tolerates s.rules
      && not (is_some (temporary_reason s.temporary context))
      && not (is_some (builtin_sensitive_reason library s context))
      && (any endorses s.rules || is_allow s.configuration.default_effect)

  abbrev has_rule : List CompiledRule → Bool
  has_rule [] = false
  has_rule (rule ∷ rest) = true

  has_rule-append : (l : List CompiledRule) (rule : CompiledRule) → has_rule (l ++ rule ∷ []) ≡ true
  has_rule-append [] rule = refl
  has_rule-append (x ∷ l) rule = refl

  abbrev clean : Verdict → Bool
  clean (undecided reason id) = false
  clean (gathered denies_ allows_) = not (has_rule denies_)

  abbrev endorsed : Verdict → Bool
  endorsed (undecided reason id) = false
  endorsed (gathered denies_ allows_) = has_rule allows_

  gather-clean :
      (rules d a : List CompiledRule)
      → clean (gather library s operation context rules d a)
        ≡ (all tolerates rules && not (has_rule d))
  unfolding gather tolerates
  gather-clean [] d a = ground arith
  gather-clean (rule ∷ rules) d a =
      let skip = gather-clean rules d a in
      let denied_ = gather-clean rules (d ++ rule ∷ []) a in
      let allowed_ = gather-clean rules d (a ++ rule ∷ []) in
      let last = has_rule-append d rule in ground arith

  gather-endorsed :
      (rules d a : List CompiledRule)
      → clean (gather library s operation context rules d a) ≡ true
      → endorsed (gather library s operation context rules d a) ≡ (any endorses rules || has_rule a)
  unfolding gather endorses
  gather-endorsed [] d a e = ground arith
  gather-endorsed (rule ∷ rules) d a e =
      let skip = gather-endorsed rules d a in
      let denied_ = gather-endorsed rules (d ++ rule ∷ []) a in
      let allowed_ = gather-endorsed rules d (a ++ rule ∷ []) in
      let last = has_rule-append a rule in ground arith

  module _ (phase : PolicyPhase) where
    default-allowed :
        (l : List CompiledRule)
        → (default_decision s operation phase l).allowed
          ≡ (has_rule l || is_allow s.configuration.default_effect)
    unfolding default_decision denies allows
    default-allowed [] = ground arith
    default-allowed (rule ∷ rest) = refl

    verdict-allowed :
        (v : Verdict)
        → (verdict_decision s operation phase library context v).allowed ≡ (
            clean v
            && not (is_some (temporary_reason s.temporary context))
            && not (is_some (builtin_sensitive_reason library s context))
            && (endorsed v || is_allow s.configuration.default_effect))
    unfolding verdict_decision permissive_decision denies
    verdict-allowed (undecided reason id) = refl
    verdict-allowed (gathered (rule ∷ rest) l) = refl
    verdict-allowed (gathered [] l) = let last = default-allowed l in ground arith

    -- `_evaluate` allows an operation exactly when `permits` does: the engine is healthy, not in
    -- privacy mode and not locked; a sensitive operation has a fresh and well-formed context; a remote
    -- one is configured; every enabled rule for the operation either does not match or allows, and none
    -- is undecided; no marker and no built-in reason stands against it; and some rule that matches
    -- allows it, or the default does.
    pub evaluate_snapshot-permits :
        (evaluate_snapshot library s operation phase context).allowed ≡ permits
    unfolding evaluate_snapshot denies permits
    evaluate_snapshot-permits =
        let verdict = verdict-allowed (gather library s operation context s.rules [] []) in
        let clean_ = gather-clean s.rules [] [] in
        let endorsed_ = gather-endorsed s.rules [] [] in ground arith
