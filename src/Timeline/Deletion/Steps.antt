-- ===== src/Timeline/Deletion/Steps.antt =====
-- src/local_recall/timeline/deletion.py: what each step of a transaction leaves, whether it returns or
-- raises. The services keep a promise: what is gone stays gone, and what they removed is gone.
use local_recall.Common.{ℕ, ◌≡◌, ◌⊎◌, inl, inr, refl, Bool, false, Option, List, [], ◌∷◌, All}
use local_recall.Common.Exec.{Outcome, returned, raised, Exec, Ends}
use local_recall.Timeline.Deletion.{
  DeletionPhase, planned, records_deleted, derived_reconciled, Codec, JournalFile,
}
use local_recall.Timeline.Deletion.Journal.{
  Disk, done, lost, late, Services, Store, written, put_file,
}
use local_recall.Timeline.Deletion.Coordinator.{answered, call}

-- Where a record has left something.
pub data Place : Type 0 where
  storage index activity : Place

pub record Promise {S : Type 0} (services : Services S) : Type 0 where
  pub lives : Place → S → ℕ → Bool
  pub delete_law :
      (id : ℕ) (s : S)
      → Ends
          (λ _ t.
            ((p : Place) (j : ℕ) → lives p s j ≡ false → lives p t j ≡ false)
            × (lives storage t id ≡ false))
          (λ t. (p : Place) (j : ℕ) → lives p s j ≡ false → lives p t j ≡ false)
          (services.delete id s)
  pub remove_law :
      (ids : List ℕ) (s : S)
      → Ends
          (λ _ t.
            ((p : Place) (j : ℕ) → lives p s j ≡ false → lives p t j ≡ false)
            × All (λ id. lives index t id ≡ false) ids)
          (λ t. (p : Place) (j : ℕ) → lives p s j ≡ false → lives p t j ≡ false)
          (services.remove ids s)
  pub reconcile_law :
      (ids : List ℕ) (s : S)
      → Ends
          (λ _ t.
            ((p : Place) (j : ℕ) → lives p s j ≡ false → lives p t j ≡ false)
            × All (λ id. lives activity t id ≡ false) ids)
          (λ t. (p : Place) (j : ℕ) → lives p s j ≡ false → lives p t j ≡ false)
          (services.reconcile_deleted ids s)
  pub disk_law :
      (s : S) (p : Place) (j : ℕ) → lives p s j ≡ false → lives p (services.disk s).1 j ≡ false

module _ {S : Type 0} {services : Services S} (promise : Promise services) where
  abbrev pub Kept : S → S → Type 0
  Kept s t = (p : Place) (j : ℕ) → promise.lives p s j ≡ false → promise.lives p t j ≡ false

  abbrev pub Gone : Place → List ℕ → S → Type 0
  Gone p ids s = All (λ id. promise.lives p s id ≡ false) ids

  -- What a journal in this phase says is done.
  abbrev pub Passed : DeletionPhase → List ℕ → S → Type 0
  Passed planned ids s = Unit
  Passed records_deleted ids s = Gone storage ids s
  Passed derived_reconciled ids s = Gone storage ids s × Gone index ids s × Gone activity ids s

  pub Gone-Kept : (p : Place) (ids : List ℕ) (s t : S) → Kept s t → Gone p ids s → Gone p ids t
  Gone-Kept p [] s t k g = tt
  Gone-Kept p (id ∷ ids) s t k (a, b) = (k p id a, Gone-Kept p ids s t k b)

  pub Passed-Kept :
      (phase : DeletionPhase) (ids : List ℕ) (s t : S)
      → Kept s t
      → Passed phase ids s
      → Passed phase ids t
  Passed-Kept planned ids s t k g = tt
  Passed-Kept records_deleted ids s t k g = Gone-Kept storage ids s t k g
  Passed-Kept derived_reconciled ids s t k (a, b, c) =
      (Gone-Kept storage ids s t k a, Gone-Kept index ids s t k b, Gone-Kept activity ids s t k c)

-- A call of a service leaves the journal as it is.
module _ {S : Type 0} (codec : Codec) (services : Services S) where
  answered-Ends :
      (Q : Unit → S → Type 0) (R : S → Type 0) (o : Outcome S Unit Unit) (s : Store S)
      → Ends Q R o
      → Ends
          (λ u t. (t.file ≡ s.file) × Q tt t.outside)
          (λ t. (t.file ≡ s.file) × R t.outside)
          (answered codec services o s)
  unfolding answered
  answered-Ends Q R (returned tt t) s h = (refl, h)
  answered-Ends Q R (raised e t) s h = (refl, h)

  pub call-Ends :
      (Q : Unit → S → Type 0) (R : S → Type 0) (service : Exec S Unit Unit) (s : Store S)
      → Ends Q R (service s.outside)
      → Ends
          (λ u t. (t.file ≡ s.file) × Q tt t.outside)
          (λ t. (t.file ≡ s.file) × R t.outside)
          (call codec services service s)
  unfolding call
  call-Ends Q R service s h = answered-Ends Q R (service s.outside) s h

  answered-file :
      (o : Outcome S Unit Unit) (s : Store S)
      → Ends (λ u t. t.file ≡ s.file) (λ t. t.file ≡ s.file) (answered codec services o s)
  unfolding answered
  answered-file (returned u t) s = refl
  answered-file (raised e t) s = refl

  pub call-file :
      (service : Exec S Unit Unit) (s : Store S)
      → Ends (λ u t. t.file ≡ s.file) (λ t. t.file ≡ s.file) (call codec services service s)
  unfolding call
  call-file service s = answered-file (service s.outside) s

  written-Ends :
      (disk : Disk) (t : S) (file : Option JournalFile) (s : Store S) (K : S → Type 0)
      → K t
      → Ends
          (λ u v. (v.file ≡ file) × K v.outside)
          (λ v. ((v.file ≡ s.file) ⊎ (v.file ≡ file)) × K v.outside)
          (written codec services disk t file s)
  unfolding written
  written-Ends done t file s K k = (refl, k)
  written-Ends lost t file s K k = (inl refl, k)
  written-Ends late t file s K k = (inr refl, k)

  -- A write is done, or it raises with the old or the new journal.
  pub put_file-Ends :
      (file : Option JournalFile) (s : Store S) (K : S → Type 0)
      → K (services.disk s.outside).1
      → Ends
          (λ u v. (v.file ≡ file) × K v.outside)
          (λ v. ((v.file ≡ s.file) ⊎ (v.file ≡ file)) × K v.outside)
          (put_file codec services file s)
  unfolding put_file
  put_file-Ends file s K k =
      written-Ends (services.disk s.outside).0 (services.disk s.outside).1 file s K k
