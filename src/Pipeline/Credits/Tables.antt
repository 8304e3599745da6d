-- ===== src/Pipeline/Credits/Tables.antt =====
-- The dictionary of the credits: its keys differ and its counts are positive.
use local_recall.Common.{ℕ, ◌+◌, ◌≤◌, ◌≡◌, refl, List, [], ◌∷◌, ◌==◌, if◌then◌else◌, arith}
use local_recall.Pipeline.Credits.{get, set, pop, total}

unfoldable pub IsDict : List (ℕ × ℕ) → Type 0
IsDict [] = Unit
IsDict ((k, v) ∷ rest) = (get rest k ≡ 0) × (1 ≤ v) × IsDict rest

pub total-set :
    (d : List (ℕ × ℕ)) (key value : ℕ) → total (set d key value) + get d key ≡ total d + value
unfolding total set get
total-set [] key value = omega arith
total-set ((k, v) ∷ rest) key value = let ih = total-set rest key value in ground arith

pub total-pop : (d : List (ℕ × ℕ)) (key : ℕ) → total (pop d key) + get d key ≡ total d
unfolding total pop get
total-pop [] key = refl
total-pop ((k, v) ∷ rest) key = let ih = total-pop rest key in ground arith

pub get≤total : (d : List (ℕ × ℕ)) (key : ℕ) → get d key ≤ total d
unfolding total get
get≤total [] key = omega arith
get≤total ((k, v) ∷ rest) key = let ih = get≤total rest key in ground arith

pub get-set :
    (d : List (ℕ × ℕ)) (key value other : ℕ)
    → get (set d key value) other ≡ (if key == other then value else get d other)
unfolding set get
get-set [] key value other = ground arith
get-set ((k, v) ∷ rest) key value other = let ih = get-set rest key value other in ground arith

pub get-pop :
    (d : List (ℕ × ℕ)) (key other : ℕ)
    → IsDict d
    → get (pop d key) other ≡ (if key == other then 0 else get d other)
unfolding pop get IsDict
get-pop [] key other h = ground arith
get-pop ((k, v) ∷ rest) key other h = let ih = get-pop rest key other h.2 in ground arith

pub set-IsDict :
    (d : List (ℕ × ℕ)) (key value : ℕ) → 1 ≤ value → IsDict d → IsDict (set d key value)
unfolding set get IsDict
set-IsDict [] key value p h = (refl, p, tt)
set-IsDict ((k, v) ∷ rest) key value p h =
    let ih = set-IsDict rest key value p h.2 in let kept = get-set rest key value k in ground arith

pub pop-IsDict : (d : List (ℕ × ℕ)) (key : ℕ) → IsDict d → IsDict (pop d key)
unfolding pop get IsDict
pop-IsDict [] key h = tt
pop-IsDict ((k, v) ∷ rest) key h =
    let ih = pop-IsDict rest key h.2 in let kept = get-pop rest key k h.2 in ground arith
