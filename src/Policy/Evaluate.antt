-- ===== src/Policy/Evaluate.antt =====
-- src/local_recall/policy/engine.py: `evaluate` and `authorize`; the built-in sensitive contexts.
use local_recall.Common.{
  Bool, true, false, not, ◌&&◌, ◌||◌, Option, none, some, List, [], ◌∷◌, ◌==◌, any, if◌then◌else◌,
  Text, same_text, codes,
}
use local_recall.Common.Exec.{returned, raised, Exec}
use local_recall.Policy.{
  PolicyOperation, remote_provider, PolicyPhase, PolicyReasonCode, PolicyDecision,
  PolicyAuthorization, PolicyEvaluationContext, allow, deny, Library, same_operation,
  explicit_rule_deny, explicit_rule_allow, sensitive_application, sensitive_title,
  sensitive_workspace, default_deny, default_allow, remote_not_authorized, policy_unavailable,
  session_locked, privacy_mode,
}
use local_recall.Policy.Match.{CompiledRule, scalar_field, string_field, shown}
use local_recall.Policy.Engine.{PolicyEngine, snapshot, PolicyError, denied}
use local_recall.Policy.Decision.{
  is_capture_sensitive, validate_context, remote_authorized, Verdict, undecided, gathered, gather,
  strongest, temporary_reason,
}

unfoldable pub is_password_manager : Text → Bool
is_password_manager name =
    same_text name (codes "1password")
    || same_text name (codes "1password-browser")
    || same_text name (codes "bitwarden")
    || same_text name (codes "keepass")
    || same_text name (codes "keepassxc")
    || same_text name (codes "org.keepassxc.keepassxc")

unfoldable pub is_lock_screen : Text → Bool
is_lock_screen name =
    same_text name (codes "i3lock")
    || same_text name (codes "light-locker")
    || same_text name (codes "slock")
    || same_text name (codes "xsecurelock")

unfoldable pub is_auth_dialog : Text → Bool
is_auth_dialog name =
    same_text name (codes "gcr-prompter")
    || same_text name (codes "lxqt-policykit-agent")
    || same_text name (codes "pinentry")
    || same_text name (codes "pinentry-gtk-2")
    || same_text name (codes "pinentry-qt")
    || same_text name (codes "polkit-gnome-authentication-agent-1")
    || same_text name (codes "ssh-askpass")

unfoldable pub starts_with : Text → Text → Bool
starts_with t [] = true
starts_with [] (c ∷ prefix) = false
starts_with (d ∷ t) (c ∷ prefix) = c == d && starts_with t prefix

-- `token in text`
unfoldable pub occurs_in : Text → Text → Bool
unfolding starts_with
occurs_in token [] = starts_with [] token
occurs_in token (c ∷ t) = starts_with (c ∷ t) token || occurs_in token t

unfoldable pub is_auth_title : Text → Bool
unfolding occurs_in
is_auth_title title =
    occurs_in (codes "authentication required") title
    || occurs_in (codes "enter password") title
    || occurs_in (codes "password required") title
    || occurs_in (codes "unlock keyring") title

unfoldable pub application_reason : Text → Option (PolicyReasonCode × Text)
unfolding is_password_manager is_lock_screen is_auth_dialog
application_reason name =
    if is_password_manager name
    then some (sensitive_application, codes "builtin-password-manager")
    else if is_lock_screen name
    then some (session_locked, codes "builtin-lock-screen")
    else if is_auth_dialog name
    then some (sensitive_application, codes "builtin-auth-dialog")
    else none

abbrev pub holds_of : Option Text → (Text → Bool) → Bool
holds_of none p = false
holds_of (some t) p = p t

-- `configured.casefold()` of one of the texts is `t`.
unfoldable pub is_configured : Library → List Text → Text → Bool
is_configured library configured t = any (λ c. same_text t (library.casefold c)) configured

unfoldable pub builtin_sensitive_reason :
    Library → PolicyEngine → PolicyEvaluationContext → Option (PolicyReasonCode × Text)
unfolding string_field scalar_field shown application_reason is_auth_title is_configured
builtin_sensitive_reason library s context =
    let application = string_field context.metadata (codes "application") in
    let known : Option (PolicyReasonCode × Text) = elim application [
      | none ↦ none
      | some a ↦ application_reason (library.casefold a)
    ] in
    let title = string_field context.metadata (codes "window.title") in
    let space = shown library (scalar_field context.metadata (codes "workspace")) in
    elim known [
      | some reason ↦ some reason
      | none ↦
          if holds_of title (λ t. is_auth_title (library.casefold t))
          then some (sensitive_title, codes "builtin-auth-title")
          else if holds_of application (λ a.
            is_configured library s.configuration.sensitive_applications (library.casefold a))
          then some (sensitive_application, codes "configured-sensitive-application")
          else if holds_of space
              (λ w. is_configured library s.configuration.sensitive_workspaces (library.casefold w))
          then some (sensitive_workspace, codes "configured-sensitive-workspace")
          else none
    ]

module _ (s : PolicyEngine) (operation : PolicyOperation) (phase : PolicyPhase) where
  abbrev pub decide : Bool → Bool → PolicyReasonCode → Option Text → PolicyDecision
  decide allowed certain reason rule_id = record {
    operation = operation;
    phase = phase;
    allowed = allowed;
    certain = certain;
    reason_code = reason;
    rule_id = rule_id;
    policy_revision = s.revision;
    policy_generation = s.generation;
  }

  unfoldable pub denies : PolicyReasonCode → Bool → Option Text → PolicyDecision
  denies reason certain rule_id = decide false certain reason rule_id

  unfoldable pub allows : PolicyReasonCode → Option Text → PolicyDecision
  allows reason rule_id = decide true true reason rule_id

  -- What follows when no rule denies.
  unfoldable pub default_decision : List CompiledRule → PolicyDecision
  default_decision (rule ∷ rest) = allows explicit_rule_allow (some (strongest rule rest).rule_id)
  default_decision [] = elim s.configuration.default_effect [
    | allow ↦ allows default_allow none
    | deny ↦ denies default_deny true none
  ]

  unfoldable pub permissive_decision :
      Library → PolicyEvaluationContext → List CompiledRule → PolicyDecision
  permissive_decision library context allowing = elim (temporary_reason s.temporary context) [
    | some reason ↦ denies reason true none
    | none ↦ elim (builtin_sensitive_reason library s context) [
      | some found ↦ denies found.0 true (some found.1)
      | none ↦ default_decision allowing
    ]
  ]

  -- What follows the loop over the rules.
  unfoldable pub verdict_decision : Library → PolicyEvaluationContext → Verdict → PolicyDecision
  verdict_decision library context (undecided reason rule_id) = denies reason false (some rule_id)
  verdict_decision library context (gathered (rule ∷ rest) allowing) =
      denies explicit_rule_deny true (some (strongest rule rest).rule_id)
  verdict_decision library context (gathered [] allowing) =
      permissive_decision library context allowing

-- `_evaluate`
unfoldable pub evaluate_snapshot :
    Library
    → PolicyEngine
    → PolicyOperation
    → PolicyPhase
    → PolicyEvaluationContext
    → PolicyDecision
evaluate_snapshot library s operation phase context =
    if not s.healthy
    then denies s operation phase policy_unavailable true none
    else if s.privacy_mode
    then denies s operation phase privacy_mode true none
    else if s.session_locked
    then denies s operation phase session_locked true none
    else elim (if is_capture_sensitive operation then validate_context s context else none) [
      | some failure ↦ denies s operation phase failure false none
      | none ↦
          if same_operation operation remote_provider && not (remote_authorized s)
          then denies s operation phase remote_not_authorized true none
          else verdict_decision s operation phase library context
              (gather library s operation context s.rules [] [])
    ]

unfoldable pub evaluate :
    Library
    → PolicyOperation
    → PolicyPhase
    → PolicyEvaluationContext
    → PolicyEngine
    → PolicyDecision × PolicyEngine
evaluate library operation phase context s =
    let after = snapshot context.evaluated_at s in
    (evaluate_snapshot library after operation phase context, after)

-- `policy_revision` and `policy_generation` are those of the decision.
unfoldable pub authorize :
    Library
    → PolicyOperation
    → PolicyPhase
    → PolicyEvaluationContext
    → Exec PolicyEngine PolicyError PolicyAuthorization
authorize library operation phase context s =
    let (decision, after) = evaluate library operation phase context s in
    if not decision.allowed || not decision.certain
    then raised denied after
    else returned
        (record {
          operation = operation;
          phase = phase;
          policy_revision = decision.policy_revision;
          policy_generation = decision.policy_generation;
          capture_generation = context.capture_generation;
        })
        after
