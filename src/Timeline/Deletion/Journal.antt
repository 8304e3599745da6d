-- ===== src/Timeline/Deletion/Journal.antt =====
-- src/local_recall/timeline/deletion.py, `DeletionJournal`. Its file is read and written under one
-- lock. The payload goes to a temporary file that replaces the journal's at once, so a write is done
-- or not; the disk, part of the outside, says which, and whether it raises in either case.
use local_recall.Common.{
  ℕ, ◌+◌, Bool, true, false, not, ◌&&◌, ◌||◌, Option, none, some, List, [], ◌∷◌, String, str_eq,
  ◌==◌, ltb, length, if◌then◌else◌, Text, same_text, codes,
}
use local_recall.Common.Exec.{Result, ok, err, returned, raised, Exec, continue, lift}
use local_recall.Timeline.Deletion.{
  DeletionPhase, planned, records_deleted, derived_reconciled, DeletionError, another_in_progress,
  not_active, cannot_move_backward, invalid_transition, unsafe_file, not_owner_only, invalid_size,
  invalid_journal, exceeds_size_limit, write_failed, DeletionState, phase_rank, make_state, Json,
  Items, Fields, Codec, JournalFile, text, number, array, object, end_items, item, end_fields,
  field,
}

-- `_MAX_JOURNAL_BYTES`
abbrev pub max_journal_bytes : ℕ
max_journal_bytes = 65536

unfoldable pub phase_value : DeletionPhase → Text
phase_value planned = codes "planned"
phase_value records_deleted = codes "records-deleted"
phase_value derived_reconciled = codes "derived-reconciled"

-- `DeletionPhase(phase)`, which raises on another text.
unfoldable pub phase_of : Text → Option DeletionPhase
phase_of value =
    if same_text value (codes "planned")
    then some planned
    else if same_text value (codes "records-deleted")
    then some records_deleted
    else if same_text value (codes "derived-reconciled")
    then some derived_reconciled
    else none

unfoldable pub value_of : String → Fields → Option Json
value_of key end_fields = none
value_of key (field k value rest) =
    let later = value_of key rest in if str_eq k key then some value else later

-- `{"phase", "record_ids", "request_id", "version"}`
unfoldable pub is_known : String → Bool
is_known key =
    str_eq key "phase" || str_eq key "record_ids" || str_eq key "request_id" || str_eq key "version"

unfoldable pub only_known : Fields → Bool
unfolding is_known
only_known end_fields = true
only_known (field k value rest) = is_known k && only_known rest

abbrev pub uuid_items : Codec → List ℕ → Items
uuid_items codec [] = end_items
uuid_items codec (id ∷ rest) = item (text (codec.uuid_text id)) (uuid_items codec rest)

abbrev join : Option ℕ → Option (List ℕ) → Option (List ℕ)
join (some id) (some ids) = some (id ∷ ids)
join _ _ = none

-- `tuple(UUID(item) for item in raw_ids)`, where each item is a text.
unfoldable pub ids_of : Codec → Items → Option (List ℕ)
ids_of codec end_items = some []
ids_of codec (item (text t) rest) = join (codec.uuid t) (ids_of codec rest)
ids_of codec (item _ rest) = none

unfoldable pub checked_state : Text → Option (List ℕ) → Option DeletionPhase → Option DeletionState
unfolding make_state
checked_state request_id (some record_ids) (some phase) =
    elim (make_state request_id record_ids phase) [ ok state ↦ some state | err e ↦ none ]
checked_state request_id _ _ = none

-- `DeletionState(...)`, from the parts; a part of another kind raises.
unfoldable pub state_of :
    Codec → Option Json → Option Json → Option Json → Option Json → Option DeletionState
unfolding ids_of phase_of checked_state
state_of codec (some (text p)) (some (array ids)) (some (text request_id)) (some (number n)) =
    if not (n == 1) then none else checked_state request_id (ids_of codec ids) (phase_of p)
state_of codec _ _ _ _ = none

unfoldable pub decode : Codec → Option Json → Option DeletionState
unfolding state_of value_of only_known
decode codec (some (object fields)) =
    if not (only_known fields)
    then none
    else state_of codec (value_of "phase" fields) (value_of "record_ids" fields)
        (value_of "request_id" fields) (value_of "version" fields)
decode codec _ = none

unfoldable pub load_sync : Codec → Option JournalFile → Result DeletionError (Option DeletionState)
unfolding decode
load_sync codec none = ok none
load_sync codec (some file) =
    if file.is_link || not file.is_regular
    then err unsafe_file
    else if not file.is_own || not file.is_owner_only
    then err not_owner_only
    else if length file.bytes == 0 || ltb max_journal_bytes (length file.bytes)
    then err invalid_size
    else elim (decode codec (codec.loads file.bytes)) [
      | some state ↦ ok (some state)
      | none ↦ err invalid_journal
    ]

unfoldable pub to_json : Codec → DeletionState → Json
unfolding phase_value
to_json codec state = object (
    field "phase" (text (phase_value state.phase)) (
      field "record_ids" (array (uuid_items codec state.record_ids))
        (field "request_id" (text state.request_id) (field "version" (number 1) end_fields))))

-- What comes of a write to the disk: done; an error before it; an error after it.
pub data Disk : Type 0 where
  done lost late : Disk

-- The outside of the deletion, with a state `S`: the services, which may raise at any point of what
-- they do, and the disk.
pub record Services (S : Type 0) : Type 0 where
  pub delete : ℕ → Exec S Unit Unit
  pub remove : List ℕ → Exec S Unit Unit
  pub reconcile_deleted : List ℕ → Exec S Unit Unit
  pub disk : S → Disk × S

pub record Store (S : Type 0) : Type 0 where
  pub file : Option JournalFile
  pub outside : S

-- `os.open(temporary, O_CREAT | O_EXCL, 0o600)`, and its bytes.
abbrev pub new_file : List ℕ → JournalFile
new_file bytes = record {
  is_link = false;
  is_regular = true;
  is_own = true;
  is_owner_only = true;
  bytes = bytes;
}

module _ {S : Type 0} (codec : Codec) (services : Services S) where
  abbrev pub Deletion : Type 0 → Type 0
  Deletion A = Exec (Store S) DeletionError A

  unfoldable pub written : Disk → S → Option JournalFile → Deletion Unit
  written done t file s = returned tt (record { file = file; outside = t })
  written lost t file s = raised write_failed (record { file = s.file; outside = t })
  written late t file s = raised write_failed (record { file = file; outside = t })

  unfoldable pub put_file : Option JournalFile → Deletion Unit
  unfolding written
  put_file file s = let (disk, t) = services.disk s.outside in written disk t file s

  unfoldable pub write_sync : DeletionState → Deletion Unit
  unfolding put_file to_json
  write_sync state s =
      let payload = codec.dumps (to_json codec state) in
      if ltb max_journal_bytes (length payload)
      then raised exceeds_size_limit s
      else put_file (some (new_file payload)) s

  unfoldable pub clear_file : Option JournalFile → Deletion Unit
  unfolding put_file
  clear_file none s = returned tt s
  clear_file (some file) s =
      if file.is_link || not file.is_regular then raised unsafe_file s else put_file none s

  -- `clear`, `_clear_sync`
  unfoldable pub clear_sync : Deletion Unit
  unfolding clear_file
  clear_sync s = clear_file s.file s

  unfoldable pub load : Deletion (Option DeletionState)
  unfolding load_sync
  load s = lift (load_sync codec s.file) s

  unfoldable pub begin_from : DeletionState → Option DeletionState → Deletion DeletionState
  unfolding write_sync
  begin_from state (some current) s =
      if not (same_text current.request_id state.request_id)
        || not (same_text current.record_ids state.record_ids)
      then raised another_in_progress s
      else returned current s
  begin_from state none s = continue (write_sync state s) (λ u t. returned state t)

  unfoldable pub begin : Text → List ℕ → Deletion DeletionState
  unfolding make_state load begin_from
  begin request_id record_ids s =
      continue (lift (make_state request_id record_ids planned) s)
        (λ state t. continue (load t) (λ current u. begin_from state current u))

  unfoldable pub advance_from : DeletionPhase → Option DeletionState → Deletion DeletionState
  unfolding write_sync phase_rank make_state
  advance_from phase none s = raised not_active s
  advance_from phase (some current) s =
      if ltb (phase_rank phase) (phase_rank current.phase)
      then raised cannot_move_backward s
      else if ltb (phase_rank current.phase + 1) (phase_rank phase)
      then raised invalid_transition s
      else continue (lift (make_state current.request_id current.record_ids phase) s)
          (λ replacement t. continue (write_sync replacement t) (λ u v. returned replacement v))

  unfoldable pub advance : DeletionPhase → Deletion DeletionState
  unfolding load advance_from
  advance phase s = continue (load s) (λ current t. advance_from phase current t)
