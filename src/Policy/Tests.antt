-- ===== src/Policy/Tests.antt =====
-- Concrete policies.
use local_recall.Common.{ℕ, ◌+◌, ◌≡◌, refl, true, false, none, some, [], ◌∷◌, codes, arith}
use local_recall.Common.Exec.{returned, after, Exec}
use local_recall.Policy.{screenshot, ocr, pre_capture, downstream, integer, window}
use local_recall.Policy.Engine.{
  PolicyEngine, snapshot, new, prepare, compile, compile_rule, pattern_of, domain_of, is_nonempty,
  replace_policy, mark_current_sensitive, sensitive_scope_value, without_scope, set_session_locked,
  clear_temporary_sensitive,
}
use local_recall.Policy.Match.{scalar_field, field_of, match_rule}
use local_recall.Policy.Evaluate.{evaluate, evaluate_snapshot, builtin_sensitive_reason}
use local_recall.Policy.Boundary.{Site, authorized}
use local_recall.Policy.Changes.{lock, clear, change, change_all, change_all-unchanged}
use local_recall.Policy.Effects.{IsAllowed, authorized-IsAllowed}
use local_recall.Policy.Permits.{permits, tolerates, endorses, evaluate_snapshot-permits}
use local_recall.Policy.Decision.{
  is_capture_sensitive, validate_context, remote_authorized, temporary_reason, applies,
}
use local_recall.Policy.Samples.{library, configuration, nowhere, engine, context}
use local_recall.Policy.Denials.{replace_policy-denied, mark_current_sensitive-denied}

new_engine : new library configuration (codes "r1") ≡ some engine
unfolding new prepare compile compile_rule pattern_of domain_of is_nonempty
new_engine = refl

unlocked_again :
    (change_all library (clear none ∷ lock false ∷ []) engine).generation ≡ engine.generation
unfolding change_all change clear_temporary_sensitive set_session_locked
unlocked_again = refl

change_all-unchanged_example : change_all library (clear none ∷ lock false ∷ []) engine ≡ engine
change_all-unchanged_example =
    change_all-unchanged library (clear none ∷ lock false ∷ []) engine unlocked_again

-- The context is allowed, and denied once its window is marked.
allowed_here : permits library engine screenshot context ≡ true
unfolding permits tolerates endorses is_capture_sensitive validate_context remote_authorized
    temporary_reason builtin_sensitive_reason match_rule applies
allowed_here = refl

abbrev site : Site ℕ
site = record { engine = engine; world = 0 }

abbrev count : Exec ℕ Unit Unit
count n = returned tt (n + 1)

-- The session is locked after the check.
authorized-IsAllowed_example :
    IsAllowed library screenshot pre_capture context
      (change_all library (lock true ∷ lock false ∷ []) (snapshot context.evaluated_at site.engine))
      0
      (after (
        authorized library screenshot pre_capture
          (change_all library (lock true ∷ lock false ∷ []))
          (change_all library (lock true ∷ []))
          context
          count
          site))
authorized-IsAllowed_example =
    authorized-IsAllowed library screenshot pre_capture (lock true ∷ lock false ∷ [])
      (change_all library (lock true ∷ [])) context count site

evaluate_snapshot-permits_example :
    (evaluate_snapshot library engine screenshot pre_capture context).allowed
    ≡ permits library engine screenshot context
evaluate_snapshot-permits_example =
    evaluate_snapshot-permits library engine screenshot context pre_capture

replace_policy-denied_example :
    (evaluate library screenshot pre_capture context
      (after (replace_policy library nowhere (codes "r2") engine))).0.allowed
    ≡ false
unfolding is_nonempty prepare
replace_policy-denied_example =
    replace_policy-denied library screenshot pre_capture context nowhere (codes "r2") engine refl
      refl

abbrev marked_engine : PolicyEngine
marked_engine = record engine {
  temporary =
      record {
        scope = window;
        value = integer false 7;
        expires_at = 60000200;
        capture_generation = 1;
      }
      ∷ [];
  generation = 2;
}

mark_current_sensitive-denied_example :
    (evaluate library ocr downstream
      (record context { evaluated_at = 300 })
      marked_engine).0.allowed
    ≡ false
unfolding mark_current_sensitive sensitive_scope_value without_scope scalar_field field_of
mark_current_sensitive-denied_example =
    mark_current_sensitive-denied library ocr downstream window context 60000000 300 engine
      marked_engine refl (omega arith)
