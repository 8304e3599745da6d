-- ===== src/Timeline/Deletion/Stored.antt =====
-- src/local_recall/timeline/deletion.py: what can be read from a journal's file.
use local_recall.Common.{
  ℕ, ◌≡◌, inl, inr, refl, true, Bool-cases, Option, none, some, List, Text, arith, ◌==◌,
}
use local_recall.Common.Exec.{ok, Result-cases}
use local_recall.Timeline.Deletion.{
  DeletionPhase, DeletionState, make_state, Codec, validate_request_id, validate_record_ids,
  JournalFile, Json, text, number, array, object,
}
use local_recall.Timeline.Deletion.Journal.{
  load_sync, decode, state_of, checked_state, value_of, phase_of, ids_of,
}

-- What a journal holds is valid.
checked_state-valid :
    (r : Text) (l : Option (List ℕ)) (p : Option DeletionPhase) (state : DeletionState)
    → checked_state r l p ≡ some state
    → (validate_request_id state.request_id ≡ ok tt)
      × (validate_record_ids state.record_ids ≡ ok tt)
unfolding checked_state make_state
checked_state-valid r (some ids) (some phase) state e =
    elim (Result-cases (validate_request_id r)) [
      | inl (tt, u) ↦ elim (Result-cases (validate_record_ids ids)) [
        | inl (tt, v) ↦ (ground arith, ground arith)
        | inr (x, v) ↦ ground arith
      ]
      | inr (x, u) ↦ ground arith
    ]
checked_state-valid r none p state e = cc
checked_state-valid r (some ids) none state e = cc

state_of-valid :
    (codec : Codec) (a b c d : Option Json) (state : DeletionState)
    → state_of codec a b c d ≡ some state
    → (validate_request_id state.request_id ≡ ok tt)
      × (validate_record_ids state.record_ids ≡ ok tt)
unfolding state_of
state_of-valid codec (some (text p)) (some (array l)) (some (text r)) (some (number n)) state e =
    elim (Bool-cases (n == 1)) [
      | inl one ↦
          checked_state-valid r (ids_of codec l) (phase_of p) state
            (let same : (n == 1) ≡ true = one in ground arith)
      | inr other ↦ ground arith
    ]
state_of-valid codec _ _ _ _ state e = cc

decode-valid :
    (codec : Codec) (json : Option Json) (state : DeletionState)
    → decode codec json ≡ some state
    → (validate_request_id state.request_id ≡ ok tt)
      × (validate_record_ids state.record_ids ≡ ok tt)
unfolding decode
decode-valid codec (some (object fields)) state e =
    state_of-valid codec (value_of "phase" fields) (value_of "record_ids" fields)
      (value_of "request_id" fields) (value_of "version" fields) state (ground arith)
decode-valid codec _ state e = cc

pub load_sync-valid :
    (codec : Codec) (f : Option JournalFile) (state : DeletionState)
    → load_sync codec f ≡ ok (some state)
    → (validate_request_id state.request_id ≡ ok tt)
      × (validate_record_ids state.record_ids ≡ ok tt)
unfolding load_sync
load_sync-valid codec none state e = cc
load_sync-valid codec (some file) state e =
    decode-valid codec (codec.loads file.bytes) state (ground arith)

-- Only a journal that is not there reads as none.
pub load_sync-none :
    (codec : Codec) (f : Option JournalFile) → load_sync codec f ≡ ok none → f ≡ none
unfolding load_sync
load_sync-none codec none e = refl
load_sync-none codec (some file) e = ground arith
