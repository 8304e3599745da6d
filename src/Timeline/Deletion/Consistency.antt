-- ===== src/Timeline/Deletion/Consistency.antt =====
-- src/local_recall/timeline/deletion.py: the journal never says more than is done, and a call that
-- returns leaves nothing of the transaction's records.
use local_recall.Common.{
  ℕ, ◌≡◌, inl, inr, refl, true, false, none, some, List, ◌*◌, ◌≤◌, ◌<◌, ltb, not, ◌||◌, ◌&&◌,
  length, Text, arith, same_text,
}
use local_recall.Common.Exec.{ok, raised, Result-cases}
use local_recall.Timeline.Deletion.{
  planned, derived_reconciled, DeletionState, make_state, Codec, validate_request_id,
  validate_record_ids, DeletionError, another_in_progress, exceeds_size_limit,
  DeletionTransactionResult,
}
use local_recall.Timeline.Deletion.Journal.{
  Services, Store, load_sync, load, begin, begin_from, to_json, max_journal_bytes, write_sync,
}
use local_recall.Timeline.Deletion.RoundTrip.{IsLawful}
use local_recall.Timeline.Deletion.Coordinator.{delete}
use local_recall.Timeline.Deletion.Steps.{Promise, Passed}

made_valid :
    (r : Text) (ids : List ℕ)
    → validate_request_id r ≡ ok tt
    → validate_record_ids ids ≡ ok tt
    → make_state r ids planned ≡ ok (record { request_id = r; record_ids = ids; phase = planned })
unfolding make_state
made_valid r ids v w = ground arith

module _ {S : Type 0} (codec : Codec) {services : Services S} (lawful : IsLawful codec)
    (promise : Promise services) where
  -- What the journal says is done, is done.
  pub record IsConsistent (s : Store S) : Type 0 where
    pub passed :
        (state : DeletionState)
        → load_sync codec s.file ≡ ok (some state)
        → Passed promise state.phase state.record_ids s.outside

  abbrev Finished : Text → List ℕ → DeletionTransactionResult → Store S → Type 0
  Finished r ids result t =
      (result ≡ record { request_id = r; deleted_count = length ids; recovered = false })
      × (t.file ≡ none)
      × Passed promise derived_reconciled ids t.outside

-- While the journal holds a transaction, a deletion with another identifier or with other records
-- raises, and changes nothing.
pub delete-refused :
    {S : Type 0} (codec : Codec) (services : Services S) (r : Text) (ids : List ℕ) (s : Store S)
    (state : DeletionState)
    → load_sync codec s.file ≡ ok (some state)
    → (same_text state.request_id r && same_text state.record_ids ids) ≡ false
    → (e : DeletionError) × (delete codec services r ids s ≡ raised e s)
unfolding delete begin load begin_from
delete-refused codec services r ids s state e other = elim (Result-cases (validate_request_id r)) [
  | inl (tt, v) ↦ elim (Result-cases (validate_record_ids ids)) [
    | inl (tt, w) ↦
        let made = made_valid r ids v w in
        let differs : (not (same_text state.request_id r) || not (same_text state.record_ids ids))
            ≡ true =
          ground arith in
        rw (v, w, made, e, differs) (another_in_progress, refl)
    | inr (x, w) ↦ rw (v, w) (x, refl)
  ]
  | inr (x, v) ↦ rw v (x, refl)
]

-- Without a journal, and when JSON prints at least 39 bytes for each record, a deletion of more than
-- 1,680 records raises and changes nothing: its journal would exceed the limit of the size.
pub delete-too_many :
    {S : Type 0} (codec : Codec) (services : Services S) (r : Text) (ids : List ℕ) (s : Store S)
    → ((state : DeletionState)
        → 39 * length state.record_ids ≤ length (codec.dumps (to_json codec state)))
    → s.file ≡ none
    → 1680 < length ids
    → (e : DeletionError) × (delete codec services r ids s ≡ raised e s)
unfolding delete begin load load_sync begin_from write_sync
delete-too_many codec services r ids s prints empty many =
    elim (Result-cases (validate_request_id r)) [
      | inl (tt, v) ↦ elim (Result-cases (validate_record_ids ids)) [
        | inl (tt, w) ↦
            let made = made_valid r ids v w in
            let state : DeletionState = record {
              request_id = r;
              record_ids = ids;
              phase = planned;
            } in
            let long = prints state in
            let big : ltb max_journal_bytes (length (codec.dumps (to_json codec state))) ≡ true =
              ground arith in
            let reads : load_sync codec s.file ≡ ok none = rw empty refl in
            rw (v, w, made, reads, big) (exceeds_size_limit, refl)
        | inr (x, w) ↦ rw (v, w) (x, refl)
      ]
      | inr (x, v) ↦ rw v (x, refl)
    ]
