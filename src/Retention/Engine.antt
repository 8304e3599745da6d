-- ===== src/Retention/Engine.antt =====
-- src/local_recall/retention/engine.py: the sweep. The canonical storage is a state of its own type,
-- whose `delete` answers whether it deleted something.
use local_recall.Common.{
  ℕ, ◌+◌, ◌≤◌, ◌≡◌, refl, Bool, true, false, inl, inr, Bool-cases, Option, none, some, List, [],
  ◌∷◌, ◌++◌, ◌==◌, length, contains, if◌then◌else◌, arith,
}
use local_recall.Common.Exec.{Result, ok, err}
use local_recall.Retention.Rules.{RetentionRules, RetentionError}
use local_recall.Retention.Planner.{Sources, RetentionPlan, plan}

pub record RetentionSweepResult : Type 0 where
  pub planned_count : ℕ
  pub deleted_count : ℕ
  pub reclaimed_bytes : ℕ
  pub dry_run : Bool

-- The audit event of a sweep.
pub record SweepEvent : Type 0 where
  pub count : ℕ
  pub bytes_reclaimed : ℕ
  pub dry_run : Bool

-- `l` without what is in `seen`, and without repeats.
unfoldable pub fresh : List ℕ → List ℕ → List ℕ
fresh seen [] = []
fresh seen (id ∷ rest) =
    let known = contains id seen in
    let others = fresh (if known then seen else id ∷ seen) rest in
    if known then others else id ∷ others

-- `tuple(dict.fromkeys((*plan.expired, *plan.evicted)))`
unfoldable pub selected : RetentionPlan → List ℕ
unfolding fresh
selected p = fresh [] (p.expired ++ p.evicted)

module _ {S : Type 0} (delete : ℕ → S → Bool × S) where
  -- The loop over the selected records: how many were deleted, and the storage after it.
  unfoldable pub delete_all : List ℕ → ℕ → S → ℕ × S
  delete_all [] deleted s = (deleted, s)
  delete_all (id ∷ rest) deleted s =
      let (was, t) = delete id s in delete_all rest (if was then deleted + 1 else deleted) t

  -- `sweep` after the plan.
  unfoldable pub apply_plan : RetentionPlan → Bool → S → RetentionSweepResult × SweepEvent × S
  unfolding selected
  apply_plan p true s = (
    record {
      planned_count = length (selected p);
      deleted_count = 0;
      reclaimed_bytes = 0;
      dry_run = true;
    },
    record { count = 0; bytes_reclaimed = 0; dry_run = true },
    s,
  )
  apply_plan p false s =
      let (deleted, t) = delete_all (selected p) 0 s in
      (
        record {
          planned_count = length (selected p);
          deleted_count = deleted;
          reclaimed_bytes = p.reclaimed_bytes;
          dry_run = false;
        },
        record { count = deleted; bytes_reclaimed = p.reclaimed_bytes; dry_run = false },
        t,
      )

  -- `RetentionEngine.sweep`; a plan that raises changes nothing.
  unfoldable pub sweep :
      Sources
      → ℕ
      → RetentionRules
      → Bool
      → ℕ
      → S
      → Option (Result RetentionError (RetentionSweepResult × SweepEvent × S))
  sweep sources today rules dry_run fuel s = elim (plan sources 10000 today rules dry_run fuel) [
    | none ↦ none
    | some (err e) ↦ some (err e)
    | some (ok p) ↦ some (ok (apply_plan p dry_run s))
  ]

  delete_all-bound :
      (l : List ℕ) (deleted : ℕ) (s : S) → (delete_all l deleted s).0 ≤ deleted + length l
  unfolding delete_all
  delete_all-bound [] deleted s = omega arith
  delete_all-bound (id ∷ l) deleted s = elim (Bool-cases (delete id s).0) [
    | inl e ↦
        let ih = delete_all-bound l (deleted + 1) (delete id s).1 in
        rw (delete_all, e) (omega (arith, ih))
    | inr e ↦
        let ih = delete_all-bound l deleted (delete id s).1 in
        rw (delete_all, e) (omega (arith, ih))
  ]

  -- A sweep reports no more deletions than it planned, in its result and in its audit event alike.
  pub apply_plan-bound :
      (p : RetentionPlan) (dry_run : Bool) (s : S)
      → let (result, event, t) = apply_plan p dry_run s in
        (result.deleted_count ≤ result.planned_count) × (event.count ≡ result.deleted_count)
  unfolding apply_plan
  apply_plan-bound p true s = (omega arith, refl)
  apply_plan-bound p false s =
      let bound = delete_all-bound (selected p) 0 s in (omega (arith, bound), refl)

  -- A dry run that comes to a result leaves the storage as it is, and reports no deletion and no
  -- reclaimed bytes.
  pub sweep-dry_run :
      (sources : Sources) (today : ℕ) (rules : RetentionRules) (fuel : ℕ) (s : S)
      (done : RetentionSweepResult × SweepEvent × S)
      → sweep sources today rules true fuel s ≡ some (ok done)
      → (done.2 ≡ s) × (done.0.deleted_count ≡ 0) × (done.0.reclaimed_bytes ≡ 0)
  unfolding sweep apply_plan
  sweep-dry_run sources today rules fuel s done e =
      elim (plan sources 10000 today rules true fuel)
          as (λ planned.
            (elim planned
                as (λ _. Option (Result RetentionError (RetentionSweepResult × SweepEvent × S))) [
                  | none ↦ none
                  | some (err e) ↦ some (err e)
                  | some (ok p) ↦ some (ok (apply_plan p true s))
                ])
              ≡ some (ok done)
            → (done.2 ≡ s) × (done.0.deleted_count ≡ 0) × (done.0.reclaimed_bytes ≡ 0)) [
              | none ↦ λ e. cc
              | some (err x) ↦ λ e. cc
              | some (ok p) ↦ λ e. (cc, cc, cc)
            ]
        e

unfoldable pub times : ℕ → List ℕ → ℕ
times id [] = 0
times id (x ∷ l) = if x == id then times id l + 1 else times id l

fresh-times :
    (id : ℕ) (seen l : List ℕ)
    → times id (fresh seen l) ≡ (if contains id seen then 0 else if contains id l then 1 else 0)
unfolding fresh times
fresh-times id seen [] = ground arith
fresh-times id seen (x ∷ l) =
    let known = fresh-times id seen l in let first = fresh-times id (x ∷ seen) l in ground arith

-- The records that a sweep selects hold each expired or evicted record once, and no other.
pub selected-times :
    (p : RetentionPlan) (id : ℕ)
    → times id (selected p) ≡ (if contains id (p.expired ++ p.evicted) then 1 else 0)
unfolding selected
selected-times p id = fresh-times id [] (p.expired ++ p.evicted)
