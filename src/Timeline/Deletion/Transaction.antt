-- ===== src/Timeline/Deletion/Transaction.antt =====
-- src/local_recall/timeline/deletion.py: `delete` and `recover` as a whole, over any faults.
use local_recall.Common.{
  ℕ, ◌≡◌, ◌⊎◌, inl, inr, refl, Bool, true, false, none, some, List, ◌∙◌, Text, ap, same_text_refl,
}
use local_recall.Common.Exec.{ok, returned, continue, Ends, Ends-weaken, Ends-bind}
use local_recall.Timeline.Deletion.{
  DeletionPhase, planned, records_deleted, derived_reconciled, DeletionState, Codec,
  validate_request_id, validate_record_ids,
}
use local_recall.Timeline.Deletion.Journal.{
  Services, Store, write_sync, load_sync, load, begin, begin_from,
}
use local_recall.Timeline.Deletion.RoundTrip.{IsLawful}
use local_recall.Timeline.Deletion.Coordinator.{
  resume_planned, resume_deleted, resume_reconciled, resume, result_of, delete, recover,
  recover_from,
}
use local_recall.Timeline.Deletion.Steps.{Promise}
use local_recall.Timeline.Deletion.Recovery.{
  IsAt, IsOver, make_state-at, IsOwed, write_sync-Ends, resume_planned-Ends, resume_deleted-Ends,
  resume_reconciled-Ends,
}

module _ {S : Type 0} (codec : Codec) {services : Services S} (lawful : IsLawful codec)
    (promise : Promise services) (request_id : Text) (ids : List ℕ)
    (valid_request : validate_request_id request_id ≡ ok tt)
    (valid_ids : validate_record_ids ids ≡ ok tt) where
  abbrev Over : Store S → Type 0
  Over s = IsOver codec lawful promise request_id ids valid_request valid_ids s

  abbrev Owed : Store S → Type 0
  Owed s = IsOwed codec lawful promise request_id ids valid_request valid_ids s

  abbrev Stands : DeletionPhase → Store S → Type 0
  Stands phase s = IsAt codec lawful promise request_id ids valid_request valid_ids phase s

  abbrev state_at : DeletionPhase → DeletionState
  state_at phase = record { request_id = request_id; record_ids = ids; phase = phase }

  resume_rest-Ends :
      (recovered : Bool) (s : Store S)
      → Stands derived_reconciled s
      → Ends
          (λ r t. (r ≡ result_of (state_at derived_reconciled) recovered) × Over t)
          Owed
          (continue
            (resume_reconciled codec services (state_at derived_reconciled) s)
            (λ u t. returned (result_of (state_at derived_reconciled) recovered) t))
  resume_rest-Ends recovered s h =
      Ends-bind (λ u t. Over t) _ Owed
        (resume_reconciled codec services (state_at derived_reconciled) s) _
        (resume_reconciled-Ends codec lawful promise request_id ids valid_request valid_ids s h)
        (λ u t over. (refl, over))

  -- From any phase, the transaction is finished when the resumption returns, and owed otherwise.
  pub resume-Ends :
      (phase : DeletionPhase) (recovered : Bool) (s : Store S)
      → Stands phase s
      → Ends
          (λ r t. (r ≡ result_of (state_at derived_reconciled) recovered) × Over t)
          Owed
          (resume codec services (state_at phase) recovered s)
  unfolding resume resume_deleted
  resume-Ends phase recovered s h =
      Ends-bind
        (λ state t.
          ((state ≡ state_at records_deleted) × Stands records_deleted t)
          ⊎ ((state ≡ state_at derived_reconciled) × Stands derived_reconciled t))
        (λ r t. (r ≡ result_of (state_at derived_reconciled) recovered) × Over t) Owed
        (resume_planned codec services (state_at phase) s) _
        (resume_planned-Ends codec lawful promise request_id ids valid_request valid_ids phase s h)
        (λ state t cases. elim cases [
          | inl (e, g) ↦ rw e (
              Ends-bind
                (λ next u. (next ≡ state_at derived_reconciled) × Stands derived_reconciled u)
                (λ r u. (r ≡ result_of (state_at derived_reconciled) recovered) × Over u) Owed
                (resume_deleted codec services (state_at records_deleted) t) _
                (resume_deleted-Ends codec lawful promise request_id ids valid_request valid_ids t
                  g)
                (λ next u (f, k). rw f (resume_rest-Ends recovered u k)))
          | inr (e, g) ↦ rw e (resume_rest-Ends recovered t g)
        ])

  pub recover_pending-Ends :
      (phase : DeletionPhase) (s : Store S)
      → Stands phase s
      → Ends
          (λ r t. (r ≡ some (result_of (state_at derived_reconciled) true)) × Over t)
          Owed
          (recover codec services s)
  unfolding recover recover_from load
  recover_pending-Ends phase s (reads, past) = rw reads (
      Ends-bind _ _ Owed (resume codec services (state_at phase) true s) _
        (resume-Ends phase true s (reads, past)) (λ r t (e, over). (ap some e, over)))

  -- A deletion that is begun, or begun already.
  begun-Ends :
      (s : Store S)
      → (s.file ≡ none) ⊎ ((phase : DeletionPhase) × Stands phase s)
      → Ends
          (λ state t. (phase : DeletionPhase) × (state ≡ state_at phase) × Stands phase t)
          (λ t. (t.file ≡ none) ⊎ Owed t)
          (begin codec services request_id ids s)
  unfolding begin load begin_from
  begun-Ends s (inr (phase, (reads, past))) =
      let one = same_text_refl request_id in
      let two = same_text_refl ids in
      let made =
        make_state-at codec lawful promise request_id ids valid_request valid_ids planned in
      rw (made, reads, one, two) (phase, refl, (reads, past))
  begun-Ends s (inl empty) =
      let reads : load_sync codec s.file ≡ ok none = rw empty refl in
      let made =
        make_state-at codec lawful promise request_id ids valid_request valid_ids planned in
      rw (made, reads)
        (Ends-bind (λ u t. Stands planned t) _ (λ t. (t.file ≡ none) ⊎ Owed t)
          (write_sync codec services (state_at planned) s) _
          (Ends-weaken _ _ _ _ (write_sync codec services (state_at planned) s)
            (λ u t (back, k). (back, tt))
            (λ t (how, k). elim how [
              | inl e ↦ inl (e ∙ empty)
              | inr back ↦ inr (inr (planned, (back, tt)))
            ])
            (write_sync-Ends codec lawful promise request_id ids valid_request valid_ids planned s))
          (λ u t h. (planned, refl, h)))

  pub delete_pending-Ends :
      (s : Store S)
      → (s.file ≡ none) ⊎ ((phase : DeletionPhase) × Stands phase s)
      → Ends
          (λ r t. (r ≡ result_of (state_at derived_reconciled) false) × Over t)
          (λ t. (t.file ≡ none) ⊎ Owed t)
          (delete codec services request_id ids s)
  unfolding delete
  delete_pending-Ends s start =
      rw (valid_request, valid_ids)
        (Ends-bind _ _ (λ t. (t.file ≡ none) ⊎ Owed t) (begin codec services request_id ids s) _
          (begun-Ends s start)
          (λ state t (phase, e, h). rw e (
            Ends-weaken _ _ _ _ (resume codec services (state_at phase) false t) (λ r u f. f)
              (λ u owed. inr owed) (resume-Ends phase false t h))))
