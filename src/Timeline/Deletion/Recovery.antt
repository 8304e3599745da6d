-- ===== src/Timeline/Deletion/Recovery.antt =====
-- src/local_recall/timeline/deletion.py: a transaction that was begun is finished or still owed, and
-- a call that returns has finished it.
use local_recall.Common.{
  ℕ, ◌≡◌, ◌⊎◌, inl, inr, refl, false, Bool-cases, Option, none, some, List, [], ◌∷◌, ◌∙◌, not, ◌||◌,
  ◌+◌, ltb, length, Text, arith,
}
use local_recall.Common.Exec.{ok, returned, Ends, Ends-weaken, Ends-bind}
use local_recall.Timeline.Deletion.{
  DeletionPhase, planned, records_deleted, derived_reconciled, DeletionState, make_state, Codec,
  validate_request_id, validate_record_ids, JournalFile, phase_rank,
}
use local_recall.Timeline.Deletion.Journal.{
  Services, Store, put_file, write_sync, load_sync, load, to_json, max_journal_bytes, new_file,
  clear_file, clear_sync, advance, advance_from,
}
use local_recall.Timeline.Deletion.RoundTrip.{IsLawful, load_sync-new_file}
use local_recall.Timeline.Deletion.Coordinator.{
  call, delete_records, resume_planned, resume_deleted, resume_reconciled,
}
use local_recall.Timeline.Deletion.Steps.{
  storage, index, activity, Promise, Kept, Gone, Passed, Gone-Kept, Passed-Kept, call-Ends,
  put_file-Ends,
}

-- A journal that reads as a state is cleared by a write.
pub clear_file-some :
    {S : Type 0} (codec : Codec) (services : Services S) (f : Option JournalFile)
    (state : DeletionState) (s : Store S)
    → load_sync codec f ≡ ok (some state)
    → clear_file codec services f s ≡ put_file codec services none s
unfolding load_sync clear_file
clear_file-some codec services none state s e = cc
clear_file-some codec services (some file) state s e =
    let plain : (file.is_link || not file.is_regular) ≡ false = ground arith in
    rw (clear_file, plain) refl

module _ {S : Type 0} (codec : Codec) {services : Services S} (lawful : IsLawful codec)
    (promise : Promise services) (request_id : Text) (ids : List ℕ)
    (valid_request : validate_request_id request_id ≡ ok tt)
    (valid_ids : validate_record_ids ids ≡ ok tt) where
  abbrev pub at : DeletionPhase → DeletionState
  at phase = record { request_id = request_id; record_ids = ids; phase = phase }

  -- The journal is in this phase, and what the phase says is done.
  abbrev pub IsAt : DeletionPhase → Store S → Type 0
  IsAt phase s =
      (load_sync codec s.file ≡ ok (some (at phase))) × Passed promise phase ids s.outside

  abbrev pub IsOver : Store S → Type 0
  IsOver s = (s.file ≡ none) × Passed promise derived_reconciled ids s.outside

  abbrev pub IsOwed : Store S → Type 0
  IsOwed s = IsOver s ⊎ ((phase : DeletionPhase) × IsAt phase s)

  pub make_state-at : (phase : DeletionPhase) → make_state request_id ids phase ≡ ok (at phase)
  unfolding make_state
  make_state-at phase = ground arith

  -- A write is read back, or it raises with the old journal or with the new one.
  pub write_sync-Ends :
      (phase : DeletionPhase) (s : Store S)
      → Ends
          (λ u v.
            (load_sync codec v.file ≡ ok (some (at phase))) × Kept promise s.outside v.outside)
          (λ v.
            ((v.file ≡ s.file) ⊎ (load_sync codec v.file ≡ ok (some (at phase))))
            × Kept promise s.outside v.outside)
          (write_sync codec services (at phase) s)
  unfolding write_sync
  write_sync-Ends phase s =
      let payload = codec.dumps (to_json codec (at phase)) in
      elim (Bool-cases (ltb max_journal_bytes (length payload))) [
        | inl e ↦ rw (write_sync, e) (inl refl, λ p j h. h)
        | inr e ↦
            let back : load_sync codec (some (new_file payload)) ≡ ok (some (at phase)) =
              load_sync-new_file codec lawful (at phase) (make_state-at phase) (ground arith) in
            rw (write_sync, e)
              (Ends-weaken
                (λ u v. (v.file ≡ some (new_file payload)) × Kept promise s.outside v.outside)
                (λ u v.
                  (load_sync codec v.file ≡ ok (some (at phase)))
                  × Kept promise s.outside v.outside)
                (λ v.
                  ((v.file ≡ s.file) ⊎ (v.file ≡ some (new_file payload)))
                  × Kept promise s.outside v.outside)
                (λ v.
                  ((v.file ≡ s.file) ⊎ (load_sync codec v.file ≡ ok (some (at phase))))
                  × Kept promise s.outside v.outside)
                (put_file codec services (some (new_file payload)) s) (λ u v (a, k). (rw a back, k))
                (λ v (a, k). (elim a [ inl b ↦ inl b | inr b ↦ inr (rw b back) ], k))
                (put_file-Ends codec services (some (new_file payload)) s
                  (λ t. Kept promise s.outside t) (promise.disk_law s.outside)))
      ]

  -- To the next phase, when what it says is done.
  pub advance-Ends :
      (p q : DeletionPhase) (s : Store S)
      → phase_rank q ≡ phase_rank p + 1
      → IsAt p s
      → Passed promise q ids s.outside
      → Ends (λ state v. (state ≡ at q) × IsAt q v) IsOwed (advance codec services q s)
  unfolding advance
  advance-Ends p q s next (reads, past) passed =
      let forward : ltb (phase_rank q) (phase_rank p) ≡ false = ground arith in
      let single : ltb (phase_rank p + 1) (phase_rank q) ≡ false = ground arith in
      let made = make_state-at q in
      rw (advance, load, reads, advance_from, forward, single, made)
        (Ends-bind (λ u v. IsAt q v) (λ state v. (state ≡ at q) × IsAt q v) IsOwed
          (write_sync codec services (at q) s) (λ u v. returned (at q) v)
          (Ends-weaken
            (λ u v. (load_sync codec v.file ≡ ok (some (at q))) × Kept promise s.outside v.outside)
            (λ u v. IsAt q v)
            (λ v.
              ((v.file ≡ s.file) ⊎ (load_sync codec v.file ≡ ok (some (at q))))
              × Kept promise s.outside v.outside)
            IsOwed (write_sync codec services (at q) s)
            (λ u v (a, k). (a, Passed-Kept promise q ids s.outside v.outside k passed))
            (λ v (a, k). elim a [
              | inl b ↦ inr (p, (rw b reads, Passed-Kept promise p ids s.outside v.outside k past))
              | inr b ↦ inr (q, (b, Passed-Kept promise q ids s.outside v.outside k passed))
            ])
            (write_sync-Ends q s))
          (λ u v h. (refl, h)))

  pub delete_records-Ends :
      (todo : List ℕ) (s : Store S)
      → Ends
          (λ u t.
            (t.file ≡ s.file)
            × Kept promise s.outside t.outside
            × Gone promise storage todo t.outside)
          (λ t. t.file ≡ s.file)
          (delete_records codec services todo s)
  unfolding delete_records
  delete_records-Ends [] s = (refl, λ p j h. h, tt)
  delete_records-Ends (id ∷ todo) s =
      Ends-bind
        (λ u t.
          (t.file ≡ s.file)
          × Kept promise s.outside t.outside
          × (promise.lives storage t.outside id ≡ false))
        (λ u t.
          (t.file ≡ s.file)
          × Kept promise s.outside t.outside
          × Gone promise storage (id ∷ todo) t.outside)
        (λ t. t.file ≡ s.file) (call codec services (services.delete id) s)
        (λ u t. delete_records codec services todo t)
        (Ends-weaken _ _ _ _ (call codec services (services.delete id) s)
          (λ u t (e, (k, gone)). (e, k, gone)) (λ t (e, k). e)
          (call-Ends codec services _ _ (services.delete id) s (promise.delete_law id s.outside)))
        (λ u t (e, k, gone).
          Ends-weaken _ _ _ _ (delete_records codec services todo t)
            (λ v w (f, l, rest). (f ∙ e, λ p j h. l p j (k p j h), (l storage id gone, rest)))
            (λ w f. f ∙ e) (delete_records-Ends todo t))

  IsAt-file :
      (phase : DeletionPhase) (s t : Store S)
      → t.file ≡ s.file
      → IsAt phase s
      → Passed promise phase ids t.outside
      → IsAt phase t
  IsAt-file phase s t e (reads, past) passed = (rw e reads, passed)

  -- The records are deleted, or the transaction is owed.
  pub resume_planned-Ends :
      (phase : DeletionPhase) (s : Store S)
      → IsAt phase s
      → Ends
          (λ state t.
            ((state ≡ at records_deleted) × IsAt records_deleted t)
            ⊎ ((state ≡ at derived_reconciled) × IsAt derived_reconciled t))
          IsOwed
          (resume_planned codec services (at phase) s)
  unfolding resume_planned
  resume_planned-Ends records_deleted s h = inl (refl, h)
  resume_planned-Ends derived_reconciled s h = inr (refl, h)
  resume_planned-Ends planned s h =
      Ends-bind (λ u t. IsAt planned t × Gone promise storage ids t.outside) _ IsOwed
        (delete_records codec services ids s) (λ u t. advance codec services records_deleted t)
        (Ends-weaken _ _ _ _ (delete_records codec services ids s)
          (λ u t (e, k, gone). (IsAt-file planned s t e h tt, gone))
          (λ t e. inr (planned, IsAt-file planned s t e h tt)) (delete_records-Ends ids s))
        (λ u t (at_planned, gone).
          Ends-weaken _ _ IsOwed _ (advance codec services records_deleted t) (λ state v r. inl r)
            (λ v r. r) (advance-Ends planned records_deleted t (omega arith) at_planned gone))

  -- The index and the activity are reconciled, or the transaction is owed.
  pub resume_deleted-Ends :
      (s : Store S)
      → IsAt records_deleted s
      → Ends
          (λ state t. (state ≡ at derived_reconciled) × IsAt derived_reconciled t)
          IsOwed
          (resume_deleted codec services (at records_deleted) s)
  unfolding resume_deleted
  resume_deleted-Ends s h =
      Ends-bind (λ u t. IsAt records_deleted t × Gone promise index ids t.outside) _ IsOwed
        (call codec services (services.remove ids) s) _
        (Ends-weaken _ _ _ _ (call codec services (services.remove ids) s)
          (λ u t (e, (k, gone)). (
            IsAt-file records_deleted s t e h
                (Gone-Kept promise storage ids s.outside t.outside k h.1),
            gone,
          ))
          (λ t (e, k). inr (
            records_deleted,
            IsAt-file records_deleted s t e h
                (Gone-Kept promise storage ids s.outside t.outside k h.1),
          ))
          (call-Ends codec services _ _ (services.remove ids) s (promise.remove_law ids s.outside)))
        (λ u t (g, gone).
          Ends-bind
            (λ v w.
              IsAt records_deleted w
              × Gone promise index ids w.outside
              × Gone promise activity ids w.outside)
            _ IsOwed (call codec services (services.reconcile_deleted ids) t) _
            (Ends-weaken _ _ _ _ (call codec services (services.reconcile_deleted ids) t)
              (λ v w (e, (k, also)). (
                IsAt-file records_deleted t w e g
                    (Gone-Kept promise storage ids t.outside w.outside k g.1),
                Gone-Kept promise index ids t.outside w.outside k gone,
                also,
              ))
              (λ w (e, k). inr (
                records_deleted,
                IsAt-file records_deleted t w e g
                    (Gone-Kept promise storage ids t.outside w.outside k g.1),
              ))
              (call-Ends codec services _ _ (services.reconcile_deleted ids) t
                (promise.reconcile_law ids t.outside)))
            (λ v w (g2, one, two).
              advance-Ends records_deleted derived_reconciled w (omega arith) g2 (g2.1, one, two)))

  -- The journal is cleared, or it is not and the transaction is owed.
  pub resume_reconciled-Ends :
      (s : Store S)
      → IsAt derived_reconciled s
      → Ends (λ u t. IsOver t) IsOwed (resume_reconciled codec services (at derived_reconciled) s)
  unfolding resume_reconciled
  resume_reconciled-Ends s (reads, past) =
      rw (clear_sync, clear_file-some codec services s.file (at derived_reconciled) s reads)
        (Ends-weaken _ _ _ _ (put_file codec services none s)
          (λ u v (f, k). (f, Passed-Kept promise derived_reconciled ids s.outside v.outside k past))
          (λ v (f, k). elim f [
            | inl g ↦ inr (
              derived_reconciled,
              IsAt-file derived_reconciled s v g (reads, past)
                  (Passed-Kept promise derived_reconciled ids s.outside v.outside k past),
            )
            | inr g ↦ inl (g, Passed-Kept promise derived_reconciled ids s.outside v.outside k past)
          ])
          (put_file-Ends codec services none s (λ t. Kept promise s.outside t)
            (promise.disk_law s.outside)))
