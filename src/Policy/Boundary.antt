-- ===== src/Policy/Boundary.antt =====
-- src/local_recall/policy/guard.py and policy/enforcement.py: a side effect runs only on a current
-- authorization. Between two calls of the engine other threads may change it, which `others` stands
-- for, and so they may between the check of the authorization and the side effect, which `later` stands
-- for; the side effect is a function on a world of its own, and may raise.
use local_recall.Common.{not, ◌||◌, some, if◌then◌else◌}
use local_recall.Common.Exec.{Outcome, returned, raised, Exec, continue}
use local_recall.Lifecycle.State.{CaptureGeneration}
use local_recall.Policy.{
  PolicyOperation, screenshot, metadata, PolicyPhase, pre_capture, post_capture, downstream,
  PolicyDecision, PolicyAuthorization, PolicyEvaluationContext, Library, same_operation,
}
use local_recall.Policy.Engine.{PolicyEngine, is_authorization_current}
use local_recall.Policy.Evaluate.{evaluate, authorize}

pub data BoundaryError : Type 0 where
  policy_denied stale_authorization capture_operation action_failed : BoundaryError

pub record Site (W : Type 0) : Type 0 where
  pub engine : PolicyEngine
  pub world : W

-- What other threads do before the next call.
abbrev pub meanwhile : {W : Type 0} → (PolicyEngine → PolicyEngine) → Site W → Site W
meanwhile others s = record s { engine = others s.engine }

-- `PolicyGuard.require_allowed`
unfoldable pub require_allowed : {W : Type 0} → PolicyDecision → Exec (Site W) BoundaryError Unit
require_allowed decision s =
    if not decision.allowed || not decision.certain then raised policy_denied s else returned tt s

module _ {W : Type 0} (library : Library) where
  -- `engine.authorize` at the site.
  unfoldable pub authorize_at :
      PolicyOperation
      → PolicyPhase
      → PolicyEvaluationContext
      → Exec (Site W) BoundaryError PolicyAuthorization
  authorize_at operation phase context s =
      elim (authorize library operation phase context s.engine) [
        | returned a t ↦ returned a (record s { engine = t })
        | raised e t ↦ raised policy_denied (record s { engine = t })
      ]

module _ {W T : Type 0} where
  unfoldable pub acted : Outcome W Unit T → Exec (Site W) BoundaryError T
  acted (returned r w) s = returned r (record s { world = w })
  acted (raised e w) s = raised action_failed (record s { world = w })

  -- `PolicyGuard.invoke`
  unfoldable pub invoke :
      (PolicyEngine → PolicyEngine)
      → PolicyAuthorization
      → CaptureGeneration
      → Exec W Unit T
      → Exec (Site W) BoundaryError T
  unfolding is_authorization_current acted
  invoke later authorization generation action s =
      if not (is_authorization_current authorization (some generation) s.engine)
      then raised stale_authorization s
      else acted (action s.world) (meanwhile later s)

module _ {W T : Type 0} (library : Library) where
  unfoldable pub authorized :
      PolicyOperation
      → PolicyPhase
      → (PolicyEngine → PolicyEngine)
      → (PolicyEngine → PolicyEngine)
      → PolicyEvaluationContext
      → Exec W Unit T
      → Exec (Site W) BoundaryError (PolicyAuthorization × T)
  authorized operation phase others later context action s =
      continue (authorize_at library operation phase context s) (λ a t.
        continue (invoke later a context.capture_generation action (meanwhile others t))
          (λ r u. returned (a, r) u))

  -- `capture`
  unfoldable pub capture :
      (PolicyEngine → PolicyEngine)
      → (PolicyEngine → PolicyEngine)
      → PolicyEvaluationContext
      → Exec W Unit T
      → Exec (Site W) BoundaryError (PolicyAuthorization × T)
  capture others later context action s =
      authorized screenshot pre_capture others later context action s

  unfoldable pub persist :
      (PolicyEngine → PolicyEngine)
      → (PolicyEngine → PolicyEngine)
      → PolicyEvaluationContext
      → PolicyAuthorization
      → Exec W Unit T
      → Exec (Site W) BoundaryError T
  unfolding evaluate require_allowed invoke
  persist others later context authorization action s =
      let (decision, after) = evaluate library screenshot post_capture context s.engine in
      continue (require_allowed decision (record s { engine = after }))
        (λ u t. invoke later authorization context.capture_generation action (meanwhile others t))

  unfoldable pub run_downstream :
      (PolicyEngine → PolicyEngine)
      → (PolicyEngine → PolicyEngine)
      → PolicyOperation
      → PolicyEvaluationContext
      → Exec W Unit T
      → Exec (Site W) BoundaryError (PolicyAuthorization × T)
  run_downstream others later operation context action s =
      if same_operation operation screenshot || same_operation operation metadata
      then raised capture_operation s
      else authorized operation downstream others later context action s
