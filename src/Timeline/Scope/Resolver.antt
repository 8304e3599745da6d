-- ===== src/Timeline/Scope/Resolver.antt =====
-- src/local_recall/timeline/scope.py, `DeletionScopeResolver`: the records that a scope selects.
use local_recall.Common.{
  ℕ, zero, suc, ◌+◌, ◌/◌, ◌-◌, Bool, false, not, ◌&&◌, Option, none, some, List, [], ◌∷◌, ◌++◌,
  ◌==◌, leb, ltb, length, if◌then◌else◌, Text, same_text,
}
use local_recall.Common.Exec.{Result, ok, err}
use local_recall.Timeline.Scope.{
  DeletionScope, record_scope, activity_cluster, application_scope, time_range, ScopeError,
  value_error, unknown_cluster, incomplete_bounds, limit_exceeded, identity_mismatch,
  nothing_selected, overflow_error, RedactedRecord, ActivityEntry, ScopeSources, day_length,
  day_query_limit, validate_record_ids,
}

unfoldable pub require_selected : List ℕ → Result ScopeError (List ℕ)
require_selected [] = err nothing_selected
require_selected (id ∷ rest) = ok (id ∷ rest)

unfoldable pub in_range : ℕ → ℕ → RedactedRecord → Bool
in_range start_at end_at r = leb start_at r.captured_at && ltb r.captured_at end_at

-- The selected records after one more candidate.
unfoldable pub take_record :
    ℕ → (RedactedRecord → Bool) → List ℕ → Option RedactedRecord → Result ScopeError (List ℕ)
take_record candidate_limit matches selected none = ok selected
take_record candidate_limit matches selected (some r) =
    if not (matches r)
    then ok selected
    else if ltb candidate_limit (length selected + 1)
    then err limit_exceeded
    else ok (selected ++ (r.record_id ∷ []))

unfoldable pub find_cluster : Text → List ActivityEntry → Result ScopeError (List ℕ)
find_cluster cluster_id [] = err unknown_cluster
find_cluster cluster_id (entry ∷ rest) =
    let later = find_cluster cluster_id rest in
    if same_text entry.cluster_identifier cluster_id
    then if validate_record_ids entry.source_record_ids
      then ok entry.source_record_ids
      else err value_error
    else later

module _ (sources : ScopeSources) where
  unfoldable pub decrypt : ℕ → Result ScopeError (Option RedactedRecord)
  decrypt id = elim (sources.read id) [
    | err e ↦ err e
    | ok none ↦ ok none
    | ok (some r) ↦ if r.record_id == id then ok (some r) else err identity_mismatch
  ]

  unfoldable pub application_matches : Text → RedactedRecord → Bool
  application_matches expected r = elim r.application [
    | none ↦ false
    | some value ↦ same_text (sources.casefold value) expected
  ]

  unfoldable pub resolve_cluster : Option Text → Result ScopeError (List ℕ)
  resolve_cluster none = err unknown_cluster
  resolve_cluster (some cluster_id) = elim sources.entries [
    | none ↦ err unknown_cluster
    | some entries ↦ find_cluster cluster_id entries
  ]

module _ (sources : ScopeSources) (candidate_limit : ℕ) where
  unfoldable pub take_candidate :
      (RedactedRecord → Bool) → ℕ → List ℕ → ℕ → Result ScopeError (List ℕ)
  take_candidate matches scanned selected id =
      if ltb candidate_limit (scanned + 1) then err limit_exceeded else elim (decrypt sources id) [
        | err e ↦ err e
        | ok r ↦ take_record candidate_limit matches selected r
      ]

  -- The candidates of a day, `scanned` of them were read before.
  unfoldable pub take_day :
      (RedactedRecord → Bool) → ℕ → List ℕ → List ℕ → Result ScopeError (List ℕ)
  take_day matches scanned selected [] = ok selected
  take_day matches scanned selected (id ∷ rest) =
      elim (take_candidate matches scanned selected id) [
        | err e ↦ err e
        | ok chosen ↦ take_day matches (scanned + 1) chosen rest
      ]

  -- `n` days from `day` on.
  unfoldable pub take_days :
      (RedactedRecord → Bool) → ℕ → ℕ → ℕ → List ℕ → Result ScopeError (List ℕ)
  take_days matches zero day scanned selected = ok selected
  take_days matches (suc n) day scanned selected = elim (sources.list_candidates day) [
    | err e ↦ err e
    | ok found ↦
        if leb day_query_limit (length found)
        then err limit_exceeded
        else elim (take_day matches scanned selected found) [
          | err e ↦ err e
          | ok chosen ↦ take_days matches n (day + 1) (scanned + length found) chosen
        ]
  ]

  -- The days of a window, the day of its last instant included.
  unfoldable pub resolve_window : (RedactedRecord → Bool) → ℕ → ℕ → Result ScopeError (List ℕ)
  resolve_window matches start_at end_at =
      if end_at == 0
      then err overflow_error
      else let first = start_at / day_length in
        let last = (end_at - 1) / day_length in
        elim (take_days matches (last + 1 - first) first 0 []) [
          | err e ↦ err e
          | ok selected ↦ require_selected selected
        ]

  unfoldable pub resolve_time_range : Option ℕ → Option ℕ → Result ScopeError (List ℕ)
  resolve_time_range (some start_at) (some end_at) =
      resolve_window (in_range start_at end_at) start_at end_at
  resolve_time_range _ _ = err incomplete_bounds

  unfoldable pub resolve_application :
      Option Text → Option ℕ → Option ℕ → Result ScopeError (List ℕ)
  resolve_application (some application) (some start_at) (some end_at) =
      resolve_window (application_matches sources (sources.casefold application)) start_at end_at
  resolve_application _ _ _ = err incomplete_bounds

  unfoldable pub resolve : DeletionScope → Result ScopeError (List ℕ)
  resolve scope = elim scope.kind [
    | record_scope ↦ ok scope.record_ids
    | activity_cluster ↦ resolve_cluster sources scope.cluster_id
    | application_scope ↦ resolve_application scope.application scope.start_at scope.end_at
    | time_range ↦ resolve_time_range scope.start_at scope.end_at
  ]
