-- ===== src/Timeline/Deletion.antt =====
-- src/local_recall/timeline/deletion.py: the values of a deletion, and its journal file as JSON.
pub mod Journal
pub mod Coordinator
pub mod RoundTrip
pub mod Steps
pub mod Recovery
pub mod Stored
pub mod Transaction
pub mod Consistency
pub mod Faults
pub mod Retry
use local_recall.Common.{
  ℕ, ◌≡◌, Bool, true, false, not, ◌&&◌, ◌||◌, Option, none, some, List, [], ◌∷◌, String, str_eq,
  ◌==◌, leb, ltb, length, contains, all, if◌then◌else◌, Text, same_text, codes,
}
use local_recall.Common.Exec.{Result, ok, err}

pub data DeletionPhase : Type 0 where
  planned records_deleted derived_reconciled : DeletionPhase

pub data DeletionError : Type 0 where
  invalid_request_id invalid_record_ids another_in_progress not_active : DeletionError
  cannot_move_backward invalid_transition : DeletionError
  unsafe_file not_owner_only invalid_size invalid_journal exceeds_size_limit : DeletionError
  service_failed write_failed : DeletionError

pub record DeletionState : Type 0 where
  pub request_id : Text
  pub record_ids : List ℕ
  pub phase : DeletionPhase

pub record DeletionTransactionResult : Type 0 where
  pub request_id : Text
  pub deleted_count : ℕ
  pub recovered : Bool

unfoldable pub phase_rank : DeletionPhase → ℕ
phase_rank planned = 0
phase_rank records_deleted = 1
phase_rank derived_reconciled = 2

-- `character.isascii() and (character.isalnum() or character in "-_")`
unfoldable pub is_opaque : ℕ → Bool
is_opaque c =
    (leb 48 c && leb c 57)
    || (leb 65 c && leb c 90)
    || (leb 97 c && leb c 122)
    || (c == 45)
    || (c == 95)

unfoldable pub validate_request_id : Text → Result DeletionError Unit
unfolding is_opaque
validate_request_id request_id =
    if not (leb 1 (length request_id) && leb (length request_id) 128)
    then err invalid_request_id
    else if not (all is_opaque request_id)
    then err invalid_request_id
    else ok tt

unfoldable pub has_duplicate : List ℕ → Bool
has_duplicate [] = false
has_duplicate (id ∷ rest) = if contains id rest then true else has_duplicate rest

unfoldable pub validate_record_ids : List ℕ → Result DeletionError Unit
unfolding has_duplicate
validate_record_ids [] = err invalid_record_ids
validate_record_ids (id ∷ rest) =
    if ltb 10000 (length (id ∷ rest))
    then err invalid_record_ids
    else if has_duplicate (id ∷ rest)
    then err invalid_record_ids
    else ok tt

-- `DeletionState(...)` with its `__post_init__`.
unfoldable pub make_state : Text → List ℕ → DeletionPhase → Result DeletionError DeletionState
make_state request_id record_ids phase = elim (validate_request_id request_id) [
  | err e ↦ err e
  | ok u ↦ elim (validate_record_ids record_ids) [
    | err e ↦ err e
    | ok v ↦ ok (record { request_id = request_id; record_ids = record_ids; phase = phase })
  ]
]

mutual
  -- A decoded JSON value. A Boolean counts as its number, and `other` is null or another number.
  pub data Json : Type 0 where
    text : Text → Json
    number : ℕ → Json
    array : Items → Json
    object : Fields → Json
    other : Json

  pub data Items : Type 0 where
    end_items : Items
    item : Json → Items → Items

  -- The items of a `dict`, each key once.
  pub data Fields : Type 0 where
    end_fields : Fields
    field : String → Json → Fields → Fields

-- The library functions on texts: `json.loads`, `json.dumps(...).encode()`, `UUID` and `str`.
pub record Codec : Type 0 where
  pub loads : List ℕ → Option Json
  pub dumps : Json → List ℕ
  pub uuid : Text → Option ℕ
  pub uuid_text : ℕ → Text

-- The journal's file, when its path exists: what `lstat` says of it, and its bytes.
pub record JournalFile : Type 0 where
  pub is_link : Bool
  pub is_regular : Bool
  pub is_own : Bool
  pub is_owner_only : Bool
  pub bytes : List ℕ
