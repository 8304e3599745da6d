-- ===== src/Timeline/Worlds.antt =====
-- A small storage for the tests of the deletion, some of whose calls fail.
use local_recall.Common.{
  ℕ, zero, suc, ◌≤◌, ◌<◌, ◌≡◌, refl, Bool, false, List, [], ◌∷◌, ◌==◌, contains, if◌then◌else◌,
  arith, All,
}
use local_recall.Common.Exec.{Outcome, returned, raised, Ends}
use local_recall.Timeline.Deletion.Journal.{done, Services}
use local_recall.Timeline.Deletion.Steps.{Place, storage, index, activity, Promise}
use local_recall.Timeline.Deletion.Faults.{Faults}

-- What lives where, and how many calls of the storage are still to fail.
pub record World : Type 0 where
  pub held : List ℕ
  pub indexed : List ℕ
  pub shown : List ℕ
  pub failures : ℕ

unfoldable pub without : ℕ → List ℕ → List ℕ
without id [] = []
without id (x ∷ l) = let rest = without id l in if x == id then rest else x ∷ rest

pub contains-without_self : (id : ℕ) (l : List ℕ) → contains id (without id l) ≡ false
unfolding without
contains-without_self id [] = refl
contains-without_self id (x ∷ l) = let ih = contains-without_self id l in ground arith

pub contains-without :
    (id j : ℕ) (l : List ℕ) → contains j l ≡ false → contains j (without id l) ≡ false
unfolding without
contains-without id j [] e = refl
contains-without id j (x ∷ l) e = let ih = contains-without id j l in ground arith

unfoldable pub delete_one : ℕ → ℕ → World → Outcome World Unit Unit
delete_one (suc n) id s = raised tt (record s { failures = n })
delete_one zero id s = returned tt (record s { held = without id s.held })

abbrev pub services : Services World
services = record {
  delete = λ id s. delete_one s.failures id s;
  remove = λ ids s. returned tt (record s { indexed = [] });
  reconcile_deleted = λ ids s. returned tt (record s { shown = [] });
  disk = λ s. (done, s);
}

abbrev pub alive : Place → World → ℕ → Bool
alive storage s id = contains id s.held
alive index s id = contains id s.indexed
alive activity s id = contains id s.shown

pub keeps_held :
    (p : Place) (id : ℕ) (s : World) (j : ℕ)
    → alive p s j ≡ false
    → alive p (record s { held = without id s.held }) j ≡ false
keeps_held storage id s j h = contains-without id j s.held h
keeps_held index id s j h = h
keeps_held activity id s j h = h

pub keeps_failures :
    (p : Place) (n : ℕ) (s : World) (j : ℕ)
    → alive p s j ≡ false
    → alive p (record s { failures = n }) j ≡ false
keeps_failures storage n s j h = h
keeps_failures index n s j h = h
keeps_failures activity n s j h = h

pub keeps_indexed :
    (p : Place) (s : World) (j : ℕ)
    → alive p s j ≡ false
    → alive p (record s { indexed = [] }) j ≡ false
keeps_indexed storage s j h = h
keeps_indexed index s j h = refl
keeps_indexed activity s j h = h

pub keeps_shown :
    (p : Place) (s : World) (j : ℕ)
    → alive p s j ≡ false
    → alive p (record s { shown = [] }) j ≡ false
keeps_shown storage s j h = h
keeps_shown index s j h = h
keeps_shown activity s j h = refl

pub delete_one-alive :
    (n id : ℕ) (s : World)
    → Ends
        (λ _ t.
          ((p : Place) (j : ℕ) → alive p s j ≡ false → alive p t j ≡ false)
          × (alive storage t id ≡ false))
        (λ t. (p : Place) (j : ℕ) → alive p s j ≡ false → alive p t j ≡ false)
        (delete_one n id s)
unfolding delete_one
delete_one-alive (suc n) id s = λ p j h. keeps_failures p n s j h
delete_one-alive zero id s = (λ p j h. keeps_held p id s j h, contains-without_self id s.held)

pub nothing : (ids : List ℕ) → All (λ id. contains id [] ≡ false) ids
nothing [] = tt
nothing (id ∷ ids) = (refl, nothing ids)

pub promise : Promise services
promise = record {
  lives = alive;
  delete_law = λ id s. delete_one-alive s.failures id s;
  remove_law = λ ids s. (λ p j h. keeps_indexed p s j h, nothing ids);
  reconcile_law = λ ids s. (λ p j h. keeps_shown p s j h, nothing ids);
  disk_law = λ s p j h. h;
}

pub delete_one-failures :
    (n id : ℕ) (s : World)
    → s.failures ≡ n
    → Ends (λ _ t. t.failures ≤ s.failures) (λ t. t.failures < s.failures) (delete_one n id s)
unfolding delete_one
delete_one-failures (suc n) id s e = omega arith
delete_one-failures zero id s e = omega arith

abbrev pub few : Faults services
few = record {
  faults = λ s. s.failures;
  delete_faults = λ id s. delete_one-failures s.failures id s refl;
  remove_faults = λ ids s. omega arith;
  reconcile_faults = λ ids s. omega arith;
  disk_faults = λ s. omega arith;
}
