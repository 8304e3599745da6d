-- ===== src/Pipeline/Credits.antt =====
-- src/local_recall/pipeline/credits.py: the credits of the edge between capture and the pipeline.
-- The condition variable makes every method atomic, so a method is a function of the ledger.
pub mod Tables
pub mod Laws
use local_recall.Common.{
  ℕ, ◌+◌, ◌-◌, ◌≡◌, refl, Bool, true, false, List, [], ◌∷◌, ◌==◌, leb, ltb, if◌then◌else◌, arith,
}
use local_recall.Common.Exec.{Outcome, returned, raised, Exec}
use local_recall.Lifecycle.State.{CaptureGeneration}

-- The dictionary `_in_use_by_generation`, in the order of its keys' insertion.
pub record CreditLedger : Type 0 where
  pub capacity : ℕ
  pub in_use_by_generation : List (ℕ × ℕ)

pub data LedgerError : Type 0 where
  value_error : LedgerError
  credit_released_without_acquisition : LedgerError

-- `d.get(key, 0)`
unfoldable pub get : List (ℕ × ℕ) → ℕ → ℕ
get [] key = 0
get ((k, v) ∷ rest) key = let found = get rest key in if k == key then v else found

-- `d[key] = value`
unfoldable pub set : List (ℕ × ℕ) → ℕ → ℕ → List (ℕ × ℕ)
set [] key value = (key, value) ∷ []
set ((k, v) ∷ rest) key value =
    let changed = set rest key value in if k == key then (key, value) ∷ rest else (k, v) ∷ changed

-- `d.pop(key, None)`
unfoldable pub pop : List (ℕ × ℕ) → ℕ → List (ℕ × ℕ)
pop [] key = []
pop ((k, v) ∷ rest) key = let left = pop rest key in if k == key then rest else (k, v) ∷ left

-- `sum(d.values())`
unfoldable pub total : List (ℕ × ℕ) → ℕ
total [] = 0
total ((k, v) ∷ rest) = v + total rest

unfoldable pub in_use : CreditLedger → ℕ
unfolding total
in_use s = total s.in_use_by_generation

unfoldable pub in_use_for : CaptureGeneration → CreditLedger → ℕ
unfolding get
in_use_for generation s = get s.in_use_by_generation generation

unfoldable pub new : ℕ → Outcome CreditLedger LedgerError Unit
new capacity =
    if leb capacity 0
    then raised value_error (record { capacity = capacity; in_use_by_generation = [] })
    else returned tt (record { capacity = capacity; in_use_by_generation = [] })

abbrev pub Ledger : Type 0 → Type 0
Ledger A = Exec CreditLedger LedgerError A

unfoldable pub try_acquire : CaptureGeneration → Ledger Bool
unfolding total get set
try_acquire generation s =
    if leb s.capacity (total s.in_use_by_generation)
    then returned false s
    else returned true (record s {
      in_use_by_generation =
          set s.in_use_by_generation generation (get s.in_use_by_generation generation + 1);
    })

-- What `release` and `release_if_acquired` do to a generation that holds credits.
unfoldable pub give_back : CaptureGeneration → List (ℕ × ℕ) → List (ℕ × ℕ)
unfolding get set pop
give_back generation d =
    if get d generation == 1 then pop d generation else set d generation (get d generation - 1)

unfoldable pub release : CaptureGeneration → Ledger Unit
unfolding get give_back
release generation s =
    if leb (get s.in_use_by_generation generation) 0
    then raised credit_released_without_acquisition s
    else returned tt
        (record s { in_use_by_generation = give_back generation s.in_use_by_generation })

unfoldable pub release_if_acquired : CaptureGeneration → Ledger Bool
unfolding get give_back
release_if_acquired generation s =
    if leb (get s.in_use_by_generation generation) 0
    then returned false s
    else returned true
        (record s { in_use_by_generation = give_back generation s.in_use_by_generation })
