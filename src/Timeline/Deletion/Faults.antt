-- ===== src/Timeline/Deletion/Faults.antt =====
-- src/local_recall/timeline/deletion.py: what an exception costs, when only a number of faults is to
-- come. Each step that raises uses up one of them.
use local_recall.Common.{ℕ, ◌≡◌, ◌≤◌, ◌<◌, false, Option, some, List, [], ◌∷◌, length, ltb, arith}
use local_recall.Common.Exec.{Outcome, returned, raised, Exec, continue, Ends, Ends-weaken}
use local_recall.Timeline.Deletion.{DeletionState, DeletionError, Codec, JournalFile}
use local_recall.Timeline.Deletion.Journal.{
  Disk, done, lost, late, Services, Store, written, put_file, write_sync, to_json,
  max_journal_bytes, new_file,
}
use local_recall.Timeline.Deletion.Coordinator.{answered, call, delete_records}

-- The number of the faults to come, and that each error of the outside is one of them.
abbrev pub Counts : Disk → ℕ → ℕ → Type 0
Counts done before now = now ≤ before
Counts lost before now = now < before
Counts late before now = now < before

pub record Faults {S : Type 0} (services : Services S) : Type 0 where
  pub faults : S → ℕ
  pub delete_faults :
      (id : ℕ) (s : S)
      → Ends (λ _ t. faults t ≤ faults s) (λ t. faults t < faults s) (services.delete id s)
  pub remove_faults :
      (ids : List ℕ) (s : S)
      → Ends (λ _ t. faults t ≤ faults s) (λ t. faults t < faults s) (services.remove ids s)
  pub reconcile_faults :
      (ids : List ℕ) (s : S)
      → Ends
          (λ _ t. faults t ≤ faults s)
          (λ t. faults t < faults s)
          (services.reconcile_deleted ids s)
  pub disk_faults : (s : S) → let (disk, t) = services.disk s in Counts disk (faults s) (faults t)

module _ {S : Type 0} (codec : Codec) {services : Services S} (few : Faults services) where
  abbrev pub Pays : {A : Type 0} → Store S → Outcome (Store S) DeletionError A → Type 0
  Pays s o =
      Ends (λ _ t. few.faults t.outside ≤ few.faults s.outside)
        (λ t. few.faults t.outside < few.faults s.outside) o

  -- The rest of a row of calls may use what the first call leaves.
  pub Pays-bind :
      {A B : Type 0} (Q : A → Store S → Type 0) (R : Store S → Type 0) (s : Store S)
      (o : Outcome (Store S) DeletionError A) (f : A → Exec (Store S) DeletionError B)
      → Ends Q R o
      → Pays s o
      → ((a : A) (t : Store S) → Q a t → Pays t (f a t))
      → Pays s (continue o f)
  Pays-bind Q R s (returned a t) f h p k =
      Ends-weaken _ _ _ _ (f a t) (λ b u l. omega arith) (λ u l. omega arith) (k a t h)
  Pays-bind Q R s (raised e t) f h p k = p

  answered-Pays :
      (o : Outcome S Unit Unit) (s : Store S)
      → Ends
          (λ _ t. few.faults t ≤ few.faults s.outside)
          (λ t. few.faults t < few.faults s.outside)
          o
      → Pays s (answered codec services o s)
  unfolding answered
  answered-Pays (returned u t) s h = h
  answered-Pays (raised e t) s h = h

  pub call-Pays :
      (service : Exec S Unit Unit) (s : Store S)
      → Ends
          (λ _ t. few.faults t ≤ few.faults s.outside)
          (λ t. few.faults t < few.faults s.outside)
          (service s.outside)
      → Pays s (call codec services service s)
  unfolding call
  call-Pays service s h = answered-Pays (service s.outside) s h

  pub delete_records-Pays :
      (ids : List ℕ) (s : Store S) → Pays s (delete_records codec services ids s)
  unfolding delete_records
  delete_records-Pays [] s = omega arith
  delete_records-Pays (id ∷ ids) s =
      Pays-bind (λ _ _. Unit) (λ _. Unit) s (call codec services (services.delete id) s) _
        (Ends-weaken _ _ _ _ (call codec services (services.delete id) s) (λ u t h. tt) (λ t h. tt)
          (call-Pays (services.delete id) s (few.delete_faults id s.outside)))
        (call-Pays (services.delete id) s (few.delete_faults id s.outside))
        (λ u t h. delete_records-Pays ids t)

  written-Pays :
      (disk : Disk) (t : S) (file : Option JournalFile) (s : Store S)
      → Counts disk (few.faults s.outside) (few.faults t)
      → Pays s (written codec services disk t file s)
  unfolding written
  written-Pays done t file s h = h
  written-Pays lost t file s h = h
  written-Pays late t file s h = h

  pub put_file-Pays :
      (file : Option JournalFile) (s : Store S) → Pays s (put_file codec services file s)
  unfolding put_file
  put_file-Pays file s =
      written-Pays (services.disk s.outside).0 (services.disk s.outside).1 file s
        (few.disk_faults s.outside)

  pub write_sync-Pays :
      (state : DeletionState) (s : Store S)
      → length (codec.dumps (to_json codec state)) ≤ max_journal_bytes
      → Pays s (write_sync codec services state s)
  unfolding write_sync
  write_sync-Pays state s small =
      let fits : ltb max_journal_bytes (length (codec.dumps (to_json codec state))) ≡ false =
        ground arith in
      rw fits (put_file-Pays (some (new_file (codec.dumps (to_json codec state)))) s)
