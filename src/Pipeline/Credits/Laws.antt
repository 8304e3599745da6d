-- ===== src/Pipeline/Credits/Laws.antt =====
-- What the methods of the ledger promise.
use local_recall.Common.{
  ℕ, ◌+◌, ◌≤◌, ◌<◌, ◌-◌, ◌≡◌, false, inl, inr, Bool-cases, List, [], ◌∷◌, ◌==◌, leb, if◌then◌else◌,
  arith,
}
use local_recall.Common.Exec.{after}
use local_recall.Lifecycle.State.{CaptureGeneration}
use local_recall.Pipeline.Credits.{
  CreditLedger, get, set, total, in_use, in_use_for, try_acquire, give_back, release,
  release_if_acquired,
}
use local_recall.Pipeline.Credits.Tables.{
  IsDict, total-set, total-pop, get-set, get-pop, set-IsDict, pop-IsDict,
}

-- The credits in use are within the capacity, and the table is a dictionary without empty counts.
pub record IsWithin (s : CreditLedger) : Type 0 where
  pub bounded : in_use s ≤ s.capacity
  pub counted : IsDict s.in_use_by_generation

pub data LedgerCall : Type 0 where
  acquires releases releases_if_acquired : CaptureGeneration → LedgerCall

unfoldable pub call : LedgerCall → CreditLedger → CreditLedger
unfolding try_acquire release release_if_acquired
call (LedgerCall.acquires g) s = after (try_acquire g s)
call (LedgerCall.releases g) s = after (release g s)
call (LedgerCall.releases_if_acquired g) s = after (release_if_acquired g s)

unfoldable pub call_all : List LedgerCall → CreditLedger → CreditLedger
unfolding call
call_all [] s = s
call_all (c ∷ rest) s = call_all rest (call c s)

give_back-total :
    (g : CaptureGeneration) (d : List (ℕ × ℕ)) → 1 ≤ get d g → total (give_back g d) + 1 ≡ total d
unfolding give_back
give_back-total g d h =
    let popped = total-pop d g in let changed = total-set d g (get d g - 1) in ground arith

give_back-get :
    (g : CaptureGeneration) (d : List (ℕ × ℕ)) (other : ℕ)
    → IsDict d
    → 1 ≤ get d g
    → get (give_back g d) other ≡ (if g == other then get d other - 1 else get d other)
unfolding give_back
give_back-get g d other i h =
    let popped = get-pop d g other i in
    let changed = get-set d g (get d g - 1) other in ground arith

give_back-IsDict :
    (g : CaptureGeneration) (d : List (ℕ × ℕ)) → IsDict d → 1 ≤ get d g → IsDict (give_back g d)
unfolding give_back
give_back-IsDict g d i h = elim (Bool-cases (get d g == 1)) [
  | inl e ↦ rw e (pop-IsDict d g i)
  | inr e ↦ rw e (set-IsDict d g (get d g - 1) (ground arith) i)
]

pub try_acquire-IsWithin :
    (g : CaptureGeneration) (s : CreditLedger) → IsWithin s → IsWithin (after (try_acquire g s))
unfolding try_acquire in_use
try_acquire-IsWithin g s h =
    let room = h.bounded in
    let changed = total-set s.in_use_by_generation g (get s.in_use_by_generation g + 1) in
    let kept =
      set-IsDict s.in_use_by_generation g (get s.in_use_by_generation g + 1) (omega arith)
        h.counted in
    elim (Bool-cases (leb s.capacity (total s.in_use_by_generation))) [
      | inl e ↦ rw e h
      | inr e ↦ rw e (record { bounded = ground arith; counted = kept })
    ]

pub release_if_acquired-IsWithin :
    (g : CaptureGeneration) (s : CreditLedger)
    → IsWithin s
    → IsWithin (after (release_if_acquired g s))
unfolding release_if_acquired in_use
release_if_acquired-IsWithin g s h =
    let room = h.bounded in
    elim (Bool-cases (leb (get s.in_use_by_generation g) 0)) [
      | inl e ↦ rw e h
      | inr e ↦
          let freed = give_back-total g s.in_use_by_generation (ground arith) in
          rw e (record {
            bounded = omega arith;
            counted = give_back-IsDict g s.in_use_by_generation h.counted (ground arith);
          })
    ]

pub release-eq_release_if_acquired :
    (g : CaptureGeneration) (s : CreditLedger)
    → after (release g s) ≡ after (release_if_acquired g s)
unfolding release release_if_acquired
release-eq_release_if_acquired g s = ground arith

call-IsWithin : (c : LedgerCall) (s : CreditLedger) → IsWithin s → IsWithin (call c s)
unfolding call
call-IsWithin (LedgerCall.acquires g) s h = try_acquire-IsWithin g s h
call-IsWithin (LedgerCall.releases g) s h =
    rw (release-eq_release_if_acquired g s) (release_if_acquired-IsWithin g s h)
call-IsWithin (LedgerCall.releases_if_acquired g) s h = release_if_acquired-IsWithin g s h

-- In whatever order the stages acquire and release, a ledger within its capacity stays within it, and
-- its table stays a dictionary without empty counts.
pub call_all-IsWithin :
    (cs : List LedgerCall) (s : CreditLedger) → IsWithin s → IsWithin (call_all cs s)
unfolding call_all
call_all-IsWithin [] s h = h
call_all-IsWithin (c ∷ cs) s h = call_all-IsWithin cs (call c s) (call-IsWithin c s h)

-- On a ledger within its capacity and with a free credit, acquiring and releasing leaves the credits in
-- use as they were, those of each generation and all together.
pub release-try_acquire :
    (g : CaptureGeneration) (s : CreditLedger) (other : CaptureGeneration)
    → IsWithin s
    → in_use s < s.capacity
    → let t = after (release g (after (try_acquire g s))) in
      (in_use_for other t ≡ in_use_for other s) × (in_use t ≡ in_use s)
unfolding release try_acquire in_use in_use_for
release-try_acquire g s other h room =
    let d = s.in_use_by_generation in
    let more = set d g (get d g + 1) in
    let granted : leb s.capacity (total d) ≡ false = ground arith in
    let held : get more g ≡ get d g + 1 = let e = get-set d g (get d g + 1) g in ground arith in
    let holds : leb (get more g) 0 ≡ false = ground arith in
    let others = get-set d g (get d g + 1) other in
    let sum = total-set d g (get d g + 1) in
    let less = give_back-total g more (ground arith) in
    let left =
      give_back-get g more other (set-IsDict d g (get d g + 1) (omega arith) h.counted)
        (ground arith) in
    rw (granted, holds) (ground arith, omega arith)
