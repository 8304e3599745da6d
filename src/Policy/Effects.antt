-- ===== src/Policy/Effects.antt =====
-- src/local_recall/policy/enforcement.py: no side effect without a policy that allowed it when the
-- authorization was checked.
use local_recall.Common.{
  ℕ, ◌≡◌, ◌⊎◌, inl, inr, refl, true, false, Bool-cases, not, ◌||◌, some, List, [], ◌∷◌, any, leb,
  arith, ◌∙◌, sym,
}
use local_recall.Common.Exec.{Outcome, returned, raised, Exec, after, continue}
use local_recall.Lifecycle.State.{CaptureGeneration}
use local_recall.Policy.{
  PolicyOperation, PolicyPhase, PolicyEvaluationContext, PolicyAuthorization, Library,
}
use local_recall.Policy.Engine.{
  PolicyEngine, TemporarySensitiveContext, snapshot, not_expired, is_authorization_current,
}
use local_recall.Policy.Evaluate.{
  evaluate, authorize, evaluate_snapshot, verdict_decision, permissive_decision, default_decision,
  denies, allows,
}
use local_recall.Policy.Decision.{Verdict, undecided, gathered, gather}
use local_recall.Policy.Boundary.{Site, policy_denied, invoke, meanwhile, authorize_at, authorized}
use local_recall.Policy.Changes.{Change, change_all, change_all-unchanged, current-generation}

none_expired :
    (now : ℕ) (l : List TemporarySensitiveContext)
    → any (λ item. leb item.expires_at now) (not_expired now l) ≡ false
unfolding not_expired
none_expired now [] = refl
none_expired now (item ∷ l) = let ih = none_expired now l in ground arith

-- A second snapshot at the same time changes nothing.
snapshot-snapshot : (now : ℕ) (s : PolicyEngine) → snapshot now (snapshot now s) ≡ snapshot now s
unfolding snapshot
snapshot-snapshot now s = elim (Bool-cases (any (λ item. leb item.expires_at now) s.temporary)) [
  | inl e ↦ let gone = none_expired now s.temporary in rw (e, gone) refl
  | inr e ↦ rw (e, e) refl
]

-- The world is as before, or the operation is allowed by the engine `s`.
abbrev pub IsAllowed :
    {W : Type 0}
    → Library
    → PolicyOperation
    → PolicyPhase
    → PolicyEvaluationContext
    → PolicyEngine
    → W
    → Site W
    → Type 0
IsAllowed library operation phase context s w t =
    (t.world ≡ w)
    ⊎ (((evaluate library operation phase context s).0.allowed ≡ true)
        × (s.privacy_mode ≡ false)
        × (s.session_locked ≡ false)
        × (s.healthy ≡ true))

after-continue :
    {S E A B : Type 0} (f : A → B) (o : Outcome S E A)
    → after (continue o (λ a s. returned (f a) s)) ≡ after o
after-continue f (returned a s) = refl
after-continue f (raised e s) = refl

evaluate-snapshot :
    (library : Library) (operation : PolicyOperation) (phase : PolicyPhase)
    (context : PolicyEvaluationContext) (s : PolicyEngine)
    → snapshot context.evaluated_at s ≡ s
    → evaluate library operation phase context s
      ≡ (evaluate_snapshot library s operation phase context, s)
unfolding evaluate
evaluate-snapshot library operation phase context s still = rw still refl

verdict-generation :
    (library : Library) (s : PolicyEngine) (operation : PolicyOperation) (phase : PolicyPhase)
    (context : PolicyEvaluationContext) (v : Verdict)
    → (verdict_decision s operation phase library context v).policy_generation ≡ s.generation
unfolding verdict_decision permissive_decision default_decision denies allows
verdict-generation library s operation phase context (undecided reason id) = refl
verdict-generation library s operation phase context (gathered (rule ∷ rest) l) = refl
verdict-generation library s operation phase context (gathered [] l) = ground arith

-- A decision carries the generation of the snapshot.
decision-generation :
    (library : Library) (s : PolicyEngine) (operation : PolicyOperation) (phase : PolicyPhase)
    (context : PolicyEvaluationContext)
    → (evaluate_snapshot library s operation phase context).policy_generation ≡ s.generation
unfolding evaluate_snapshot denies
decision-generation library s operation phase context =
    let last =
      verdict-generation library s operation phase context
        (gather library s operation context s.rules [] []) in
    ground arith

-- An authorization is refused, or it is of an engine that allows the operation.
authorize_at-cases :
    {W : Type 0} (library : Library) (operation : PolicyOperation) (phase : PolicyPhase)
    (context : PolicyEvaluationContext) (s : Site W)
    → let t : Site W = record s { engine = snapshot context.evaluated_at s.engine } in
      (authorize_at library operation phase context s ≡ raised policy_denied t)
      ⊎ ((a : PolicyAuthorization) × (authorize_at library operation phase context s ≡ returned a t)
          × ((evaluate_snapshot library t.engine operation phase context).allowed ≡ true)
          × (a.policy_generation ≡ t.engine.generation))
unfolding authorize_at authorize evaluate
authorize_at-cases library operation phase context s =
    let now = snapshot context.evaluated_at s.engine in
    let decision = evaluate_snapshot library now operation phase context in
    elim (Bool-cases (not decision.allowed || not decision.certain)) [
      | inl e ↦ inl (rw (authorize_at, e) refl)
      | inr e ↦ inr (
        record {
          operation = operation;
          phase = phase;
          policy_revision = decision.policy_revision;
          policy_generation = decision.policy_generation;
          capture_generation = context.capture_generation;
        },
        rw (authorize_at, e) refl,
        ground arith,
        decision-generation library now operation phase context,
      )
    ]

module _ {W T : Type 0} where
  invoke-world :
      (later : PolicyEngine → PolicyEngine) (a : PolicyAuthorization) (g : CaptureGeneration)
      (action : Exec W Unit T) (s : Site W)
      → ((after (invoke later a g action s)).world ≡ s.world)
        ⊎ (is_authorization_current a (some g) s.engine ≡ true)
  unfolding invoke
  invoke-world later a g action s =
      elim (Bool-cases (is_authorization_current a (some g) s.engine)) [
        | inl e ↦ inr e
        | inr e ↦ rw (invoke, e) (inl refl)
      ]

  invoke-IsAllowed :
      (library : Library) (operation : PolicyOperation) (phase : PolicyPhase) (cs : List Change)
      (later : PolicyEngine → PolicyEngine) (context : PolicyEvaluationContext)
      (a : PolicyAuthorization) (g : CaptureGeneration) (action : Exec W Unit T) (s : Site W)
      → (evaluate_snapshot library s.engine operation phase context).allowed ≡ true
      → snapshot context.evaluated_at s.engine ≡ s.engine
      → a.policy_generation ≡ s.engine.generation
      → IsAllowed library operation phase context
          (change_all library cs s.engine)
          s.world
          (after (invoke later a g action (meanwhile (change_all library cs) s)))
  invoke-IsAllowed library operation phase cs later context a g action s allowed still at =
      elim (invoke-world later a g action (meanwhile (change_all library cs) s)) [
        | inl same ↦ inl same
        | inr current ↦
            let (generation, open_, free, well) =
              current-generation a (some g) (change_all library cs s.engine) current in
            let unchanged = change_all-unchanged library cs s.engine (sym generation ∙ at) in
            inr (
              rw (unchanged, evaluate-snapshot library operation phase context s.engine still)
                (allowed, rw⁻¹ unchanged open_, rw⁻¹ unchanged free, rw⁻¹ unchanged well))
      ]

  -- Whatever calls of the engine other threads make between the authorization and its check, and
  -- whatever they do to the engine between that check and the side effect: a capture or a downstream
  -- operation changes the world only when the engine, at the time of the check, allowed the operation
  -- in this context, was healthy, and was neither in privacy mode nor locked. Of what other threads
  -- change after the check nothing is said: the side effect runs all the same.
  pub authorized-IsAllowed :
      (library : Library) (operation : PolicyOperation) (phase : PolicyPhase) (cs : List Change)
      (later : PolicyEngine → PolicyEngine) (context : PolicyEvaluationContext)
      (action : Exec W Unit T) (s : Site W)
      → IsAllowed library operation phase context
          (change_all library cs (snapshot context.evaluated_at s.engine))
          s.world
          (after
            (authorized library operation phase (change_all library cs) later context action s))
  unfolding authorized
  authorized-IsAllowed library operation phase cs later context action s =
      elim (authorize_at-cases library operation phase context s) [
        | inl e ↦ rw e (inl refl)
        | inr (a, e, allowed, at) ↦
            let t : Site W = record s { engine = snapshot context.evaluated_at s.engine } in
            rw
              (
                e,
                after-continue {B = PolicyAuthorization × T} (λ r. (a, r))
                    (invoke later a context.capture_generation action
                      (meanwhile (change_all library cs) t)),
              )
              (invoke-IsAllowed library operation phase cs later context a
                context.capture_generation action t allowed
                (snapshot-snapshot context.evaluated_at s.engine) at)
      ]
