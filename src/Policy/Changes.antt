-- ===== src/Policy/Changes.antt =====
-- src/local_recall/policy/engine.py: every change of the policy has a new generation, so what was
-- authorized before a change is not current after it.
use local_recall.Common.{
  ℕ, ◌+◌, ◌<◌, ◌≡◌, ◌⊎◌, inl, inr, refl, Bool, true, false, Bool-cases, not, ◌&&◌, Option, none,
  some, Option-cases, List, [], ◌∷◌, ◌==◌, any, leb, length, Text, arith,
}
use local_recall.Common.Exec.{after}
use local_recall.Lifecycle.State.{CaptureGeneration}
use local_recall.Policy.{
  PolicyOperation, PolicyPhase, PolicyEvaluationContext, PolicyAuthorization, SensitiveScope,
  Library, LocalRecallConfig, same_scope,
}
use local_recall.Policy.Engine.{
  PolicyEngine, set_privacy_mode, set_session_locked, same_flag, mark_current_sensitive,
  clear_temporary_sensitive, replace_policy, snapshot, sensitive_scope_value, prepare, is_nonempty,
  is_authorization_current,
}
use local_recall.Policy.Evaluate.{evaluate}

-- A call of the engine by any thread.
pub data Change : Type 0 where
  privacy : Bool → Change
  lock : Bool → Change
  mark : SensitiveScope → PolicyEvaluationContext → ℕ → Change
  clear : Option SensitiveScope → Change
  replace : LocalRecallConfig → Text → Change
  evaluation : PolicyOperation → PolicyPhase → PolicyEvaluationContext → Change

module _ (library : Library) where
  unfoldable pub change : Change → PolicyEngine → PolicyEngine
  unfolding set_privacy_mode set_session_locked mark_current_sensitive clear_temporary_sensitive
      replace_policy evaluate
  change (privacy active) s = set_privacy_mode active s
  change (lock locked) s = set_session_locked locked s
  change (mark scope context lifetime) s = after (mark_current_sensitive scope context lifetime s)
  change (clear scope) s = clear_temporary_sensitive scope s
  change (replace configuration revision) s =
      after (replace_policy library configuration revision s)
  change (evaluation operation phase context) s = (evaluate library operation phase context s).1

  unfoldable pub change_all : List Change → PolicyEngine → PolicyEngine
  unfolding change
  change_all [] s = s
  change_all (c ∷ rest) s = change_all rest (change c s)

  -- The state stays as it is, or its generation grows.
  abbrev pub IsMarked : PolicyEngine → PolicyEngine → Type 0
  IsMarked s t = (t ≡ s) ⊎ (t.generation ≡ s.generation + 1)

  mark-IsMarked :
      (scope : SensitiveScope) (context : PolicyEvaluationContext) (lifetime : ℕ) (s : PolicyEngine)
      → IsMarked s (after (mark_current_sensitive scope context lifetime s))
  unfolding mark_current_sensitive
  mark-IsMarked scope context lifetime s =
      elim (Bool-cases (not (leb 1000000 lifetime && leb lifetime 86400000000))) [
        | inl e ↦ rw e (inl refl)
        | inr e ↦ elim (Option-cases (sensitive_scope_value scope context.metadata)) [
          | inl f ↦ rw (e, f) (inl refl)
          | inr (value, f) ↦ rw (e, f) (inr refl)
        ]
      ]

  change-IsMarked : (c : Change) (s : PolicyEngine) → IsMarked s (change c s)
  unfolding change set_privacy_mode set_session_locked clear_temporary_sensitive evaluate snapshot
      replace_policy
  change-IsMarked (privacy active) s = elim (Bool-cases (same_flag s.privacy_mode active)) [
    | inl e ↦ rw e (inl refl)
    | inr e ↦ rw e (inr refl)
  ]
  change-IsMarked (lock locked) s = elim (Bool-cases (same_flag s.session_locked locked)) [
    | inl e ↦ rw e (inl refl)
    | inr e ↦ rw e (inr refl)
  ]
  change-IsMarked (mark scope context lifetime) s = mark-IsMarked scope context lifetime s
  change-IsMarked (clear none) s = elim (Bool-cases (length s.temporary == 0)) [
    | inl e ↦ rw e (inl refl)
    | inr e ↦ rw e (inr refl)
  ]
  change-IsMarked (clear (some scope)) s =
      elim (Bool-cases (not (any (λ item. same_scope item.scope scope) s.temporary))) [
        | inl e ↦ rw e (inl refl)
        | inr e ↦ rw e (inr refl)
      ]
  change-IsMarked (replace configuration revision) s =
      elim (Bool-cases (not (is_nonempty library revision))) [
        | inl e ↦ rw (replace_policy, e) (inl refl)
        | inr e ↦ elim (Option-cases (prepare library configuration)) [
          | inl f ↦ rw (replace_policy, e, f) (inr refl)
          | inr (rules, f) ↦ rw (replace_policy, e, f) (inr refl)
        ]
      ]
  change-IsMarked (evaluation operation phase context) s =
      elim (Bool-cases (any (λ item. leb item.expires_at context.evaluated_at) s.temporary)) [
        | inl e ↦ rw e (inr refl)
        | inr e ↦ rw e (inl refl)
      ]

  change_all-IsMarked :
      (cs : List Change) (s : PolicyEngine)
      → (change_all cs s ≡ s) ⊎ (s.generation < (change_all cs s).generation)
  unfolding change_all
  change_all-IsMarked [] s = inl refl
  change_all-IsMarked (c ∷ cs) s = elim (change-IsMarked c s) [
    | inl e ↦ rw (change_all, e) (change_all-IsMarked cs s)
    | inr e ↦ elim (change_all-IsMarked cs (change c s)) [
      | inl f ↦ inr (rw (change_all, f) (omega arith))
      | inr f ↦ inr (let later = f in omega arith)
    ]
  ]

  -- Whatever calls are made of the engine, in any order: when its generation is the same after them,
  -- the engine is as it was before them.
  pub change_all-unchanged :
      (cs : List Change) (s : PolicyEngine)
      → (change_all cs s).generation ≡ s.generation
      → change_all cs s ≡ s
  change_all-unchanged cs s e = elim (change_all-IsMarked cs s) [
    | inl f ↦ f
    | inr f ↦ absurd (omega arith)
  ]

-- What is current has the generation and the state of an engine that may record.
pub current-generation :
    (a : PolicyAuthorization) (g : Option CaptureGeneration) (s : PolicyEngine)
    → is_authorization_current a g s ≡ true
    → (a.policy_generation ≡ s.generation)
      × (s.privacy_mode ≡ false)
      × (s.session_locked ≡ false)
      × (s.healthy ≡ true)
unfolding is_authorization_current
current-generation a g s e = ground arith
