-- ===== src/Timeline/Scope.antt =====
-- src/local_recall/timeline/scope.py: what a deletion request selects. Times are microseconds from the
-- start of the first day. The storage, the decryption, the activity and the digest of a cluster are
-- answered from outside; a cluster's identifier and an application are text.
pub mod Resolver
pub mod Days
pub mod Resolves
mod Tests
use local_recall.Common.{
  ℕ, zero, suc, ◌+◌, ◌*◌, ◌/◌, ◌-◌, Bool, true, false, not, ◌&&◌, ◌||◌, Option, none, some, is_some,
  List, [], ◌∷◌, ◌++◌, ◌==◌, leb, ltb, length, any, all, contains, if◌then◌else◌, Text, same_text,
}
use local_recall.Common.Exec.{Result, ok, err}

pub data DeletionScopeKind : Type 0 where
  record_scope activity_cluster application_scope time_range : DeletionScopeKind

-- The `ValueError`s, the `ScopeResolutionFailure`s, and what the storage or the decryption raises;
-- `overflow_error` is that of a date before the first one.
pub data ScopeError : Type 0 where
  value_error : ScopeError
  unknown_cluster incomplete_bounds limit_exceeded identity_mismatch nothing_selected : ScopeError
  overflow_error : ScopeError
  outside_error : ScopeError

pub record DeletionScope : Type 0 where
  pub kind : DeletionScopeKind
  pub record_ids : List ℕ
  pub cluster_id : Option Text
  pub application : Option Text
  pub start_at : Option ℕ
  pub end_at : Option ℕ

-- What is read of a decrypted record; `application` is none unless it is text.
pub record RedactedRecord : Type 0 where
  pub record_id : ℕ
  pub captured_at : ℕ
  pub application : Option Text

pub record ActivityEntry : Type 0 where
  pub cluster_identifier : Text
  pub source_record_ids : List ℕ

-- `read` is `get` and `decrypt`: no record where `get` answers `None`.
pub record ScopeSources : Type 0 where
  pub list_candidates : ℕ → Result ScopeError (List ℕ)
  pub read : ℕ → Result ScopeError (Option RedactedRecord)
  pub entries : Option (List ActivityEntry)
  pub casefold : Text → Text

abbrev pub day_length : ℕ
day_length = 86400000000

abbrev pub day_query_limit : ℕ
day_query_limit = 10000

abbrev pub max_scope_records : ℕ
max_scope_records = 10000

unfoldable pub has_duplicate : List ℕ → Bool
has_duplicate [] = false
has_duplicate (id ∷ rest) =
    let later = has_duplicate rest in if contains id rest then true else later

unfoldable pub validate_record_ids : List ℕ → Bool
unfolding has_duplicate
validate_record_ids ids =
    leb 1 (length ids) && leb (length ids) max_scope_records && not (has_duplicate ids)

unfoldable pub validate_window : ℕ → ℕ → Bool
validate_window start_at end_at = ltb start_at end_at && leb end_at (start_at + 366 * day_length)

unfoldable pub validate_application : Text → Bool
validate_application t = leb 1 (length t) && leb (length t) 256 && not (any (λ c. ltb c 32) t)

abbrev pub is_hex : ℕ → Bool
is_hex c = (leb 48 c && leb c 57) || (leb 97 c && leb c 102)

abbrev pub is_empty : List ℕ → Bool
is_empty [] = true
is_empty (id ∷ rest) = false

unfoldable pub has_own_value : DeletionScope → Bool
has_own_value s = elim s.kind [
  | record_scope ↦ not (is_empty s.record_ids)
  | activity_cluster ↦ is_some s.cluster_id
  | application_scope ↦ is_some s.application
  | time_range ↦ true
]

unfoldable pub has_other_value : DeletionScope → Bool
has_other_value s = elim s.kind [
  | record_scope ↦
      is_some s.cluster_id || is_some s.application || is_some s.start_at || is_some s.end_at
  | activity_cluster ↦
      not (is_empty s.record_ids) || is_some s.application || is_some s.start_at || is_some s.end_at
  | application_scope ↦ not (is_empty s.record_ids) || is_some s.cluster_id
  | time_range ↦ not (is_empty s.record_ids) || is_some s.cluster_id || is_some s.application
]

-- The checks of `DeletionScope.__post_init__`.
unfoldable pub make_scope : DeletionScope → Result ScopeError DeletionScope
make_scope s = if not (has_own_value s) || has_other_value s then err value_error else ok s

unfoldable pub for_records : List ℕ → Result ScopeError DeletionScope
unfolding make_scope
for_records ids =
    if not (validate_record_ids ids)
    then err value_error
    else make_scope (record {
      kind = record_scope;
      record_ids = ids;
      cluster_id = none;
      application = none;
      start_at = none;
      end_at = none;
    })

unfoldable pub for_cluster : Text → Result ScopeError DeletionScope
unfolding make_scope
for_cluster cluster_id =
    if not (length cluster_id == 32 && all is_hex cluster_id)
    then err value_error
    else make_scope (record {
      kind = activity_cluster;
      record_ids = [];
      cluster_id = some cluster_id;
      application = none;
      start_at = none;
      end_at = none;
    })

unfoldable pub for_application : Text → ℕ → ℕ → Result ScopeError DeletionScope
unfolding make_scope
for_application application start_at end_at =
    if not (validate_window start_at end_at) || not (validate_application application)
    then err value_error
    else make_scope (record {
      kind = application_scope;
      record_ids = [];
      cluster_id = none;
      application = some application;
      start_at = some start_at;
      end_at = some end_at;
    })

unfoldable pub for_time_range : ℕ → ℕ → Result ScopeError DeletionScope
unfolding make_scope
for_time_range start_at end_at =
    if not (validate_window start_at end_at)
    then err value_error
    else make_scope (record {
      kind = time_range;
      record_ids = [];
      cluster_id = none;
      application = none;
      start_at = some start_at;
      end_at = some end_at;
    })
