-- ===== src/Timeline/Deletion/RoundTrip.antt =====
-- src/local_recall/timeline/deletion.py: what `_write_sync` writes, `_load_sync` reads.
use local_recall.Common.{ℕ, ◌≤◌, ◌≡◌, refl, some, List, [], ◌∷◌, length, arith}
use local_recall.Common.Exec.{ok}
use local_recall.Timeline.Deletion.{
  DeletionPhase, planned, records_deleted, derived_reconciled, DeletionState, make_state, Codec,
}
use local_recall.Timeline.Deletion.Journal.{
  max_journal_bytes, phase_value, phase_of, ids_of, uuid_items, load_sync, decode, state_of,
  checked_state, to_json, new_file, value_of, only_known,
}

-- What the journal relies on: `json` and `UUID` read what they print, and nothing is printed empty.
pub record IsLawful (codec : Codec) : Type 0 where
  pub loads-dumps :
      (state : DeletionState)
      → codec.loads (codec.dumps (to_json codec state)) ≡ some (to_json codec state)
  pub dumps-length : (state : DeletionState) → 1 ≤ length (codec.dumps (to_json codec state))
  pub uuid-uuid_text : (id : ℕ) → codec.uuid (codec.uuid_text id) ≡ some id

pub phase_of-phase_value : (p : DeletionPhase) → phase_of (phase_value p) ≡ some p
unfolding phase_of phase_value
phase_of-phase_value planned = refl
phase_of-phase_value records_deleted = refl
phase_of-phase_value derived_reconciled = refl

module _ (codec : Codec) (lawful : IsLawful codec) where
  ids_of-uuid_items : (ids : List ℕ) → ids_of codec (uuid_items codec ids) ≡ some ids
  unfolding ids_of
  ids_of-uuid_items [] = refl
  ids_of-uuid_items (id ∷ ids) =
      let law = lawful.uuid-uuid_text id in let ih = ids_of-uuid_items ids in rw (law, ih) refl

  decode-to_json :
      (state : DeletionState)
      → make_state state.request_id state.record_ids state.phase ≡ ok state
      → decode codec (some (to_json codec state)) ≡ some state
  unfolding decode to_json state_of value_of only_known
  decode-to_json state e =
      let ids = ids_of-uuid_items state.record_ids in
      let phase = phase_of-phase_value state.phase in rw (ids, phase, checked_state, e) refl

  -- The journal reads back the state that it wrote, when the state is valid and its JSON within the
  -- limit of the size.
  pub load_sync-new_file :
      (state : DeletionState)
      → make_state state.request_id state.record_ids state.phase ≡ ok state
      → length (codec.dumps (to_json codec state)) ≤ max_journal_bytes
      → load_sync codec (some (new_file (codec.dumps (to_json codec state)))) ≡ ok (some state)
  unfolding load_sync
  load_sync-new_file state e small =
      let positive = lawful.dumps-length state in
      let reads = lawful.loads-dumps state in let back = decode-to_json state e in ground arith
