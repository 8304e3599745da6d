-- ===== src/Timeline/Deletion/Coordinator.antt =====
-- src/local_recall/timeline/deletion.py, `DeletionCoordinator`: a transaction runs from the phase that
-- its journal holds. An exception, and in the same way a crash, leaves what was done before it.
use local_recall.Common.{ℕ, Bool, true, false, Option, none, some, List, [], ◌∷◌, length, Text}
use local_recall.Common.Exec.{Outcome, returned, raised, Exec, continue, lift, after}
use local_recall.Timeline.Deletion.{
  planned, records_deleted, derived_reconciled, service_failed, DeletionState,
  DeletionTransactionResult, validate_request_id, validate_record_ids, Codec,
}
use local_recall.Timeline.Deletion.Journal.{
  Services, Store, Deletion, load, begin, advance, clear_sync,
}

abbrev pub result_of : DeletionState → Bool → DeletionTransactionResult
result_of state recovered = record {
  request_id = state.request_id;
  deleted_count = length state.record_ids;
  recovered = recovered;
}

-- A call of the coordinator.
pub data Call : Type 0 where
  delete_call : Text → List ℕ → Call
  recover_call : Call

module _ {S : Type 0} (codec : Codec) (services : Services S) where
  unfoldable pub answered : Outcome S Unit Unit → Deletion codec services Unit
  answered (returned u t) s = returned tt (record s { outside = t })
  answered (raised e t) s = raised service_failed (record s { outside = t })

  unfoldable pub call : Exec S Unit Unit → Deletion codec services Unit
  unfolding answered
  call service s = answered (service s.outside) s

  -- The loop over the records of the transaction.
  unfoldable pub delete_records : List ℕ → Deletion codec services Unit
  unfolding call
  delete_records [] s = returned tt s
  delete_records (id ∷ rest) s =
      continue (call (services.delete id) s) (λ u t. delete_records rest t)

  unfoldable pub resume_planned : DeletionState → Deletion codec services DeletionState
  unfolding delete_records advance
  resume_planned state s = elim state.phase [
    | planned ↦
        continue (delete_records state.record_ids s)
          (λ u t. advance codec services records_deleted t)
    | _ ↦ returned state s
  ]

  unfoldable pub resume_deleted : DeletionState → Deletion codec services DeletionState
  unfolding call advance
  resume_deleted state s = elim state.phase [
    | records_deleted ↦ continue (call (services.remove state.record_ids) s) (λ u t.
        continue (call (services.reconcile_deleted state.record_ids) t)
          (λ v w. advance codec services derived_reconciled w))
    | _ ↦ returned state s
  ]

  unfoldable pub resume_reconciled : DeletionState → Deletion codec services Unit
  unfolding clear_sync
  resume_reconciled state s = elim state.phase [
    | derived_reconciled ↦ clear_sync codec services s
    | _ ↦ returned tt s
  ]

  unfoldable pub resume : DeletionState → Bool → Deletion codec services DeletionTransactionResult
  unfolding resume_planned resume_deleted resume_reconciled
  resume state recovered s = continue (resume_planned state s) (λ deleted t.
      continue (resume_deleted deleted t) (λ reconciled u.
        continue (resume_reconciled reconciled u)
          (λ v w. returned (result_of reconciled recovered) w)))

  unfoldable pub delete : Text → List ℕ → Deletion codec services DeletionTransactionResult
  unfolding validate_request_id validate_record_ids begin resume
  delete request_id record_ids s = continue (lift (validate_request_id request_id) s) (λ a t.
      continue (lift (validate_record_ids record_ids) t) (λ b u.
        continue (begin codec services request_id record_ids u) (λ state v. resume state false v)))

  unfoldable pub recover_from :
      Option DeletionState → Deletion codec services (Option DeletionTransactionResult)
  unfolding resume
  recover_from none s = returned none s
  recover_from (some state) s = continue (resume state true s) (λ r t. returned (some r) t)

  unfoldable pub recover : Deletion codec services (Option DeletionTransactionResult)
  unfolding load recover_from
  recover s = continue (load codec services s) (λ state t. recover_from state t)

  unfoldable pub run : Call → Store S → Store S
  unfolding delete recover
  run (delete_call request_id record_ids) s = after (delete request_id record_ids s)
  run recover_call s = after (recover s)

  unfoldable pub run_all : List Call → Store S → Store S
  unfolding run
  run_all [] s = s
  run_all (c ∷ calls) s = run_all calls (run c s)
