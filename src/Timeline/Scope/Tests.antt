-- ===== src/Timeline/Scope/Tests.antt =====
-- A concrete storage with two records of one day.
use local_recall.Common.{ℕ, zero, suc, Option, none, some, [], ◌∷◌, ◌==◌, codes, if◌then◌else◌}
use local_recall.Common.Exec.{Result, ok}
use local_recall.Timeline.Scope.{ScopeSources, ScopeError, RedactedRecord}

abbrev morning : RedactedRecord
morning = record { record_id = 1; captured_at = 100; application = some (codes "mail") }

abbrev evening : RedactedRecord
evening = record { record_id = 2; captured_at = 900; application = some (codes "mail") }

abbrev read : ℕ → Result ScopeError (Option RedactedRecord)
read (suc zero) = ok (some morning)
read (suc (suc zero)) = ok (some evening)
read _ = ok none

abbrev store : ScopeSources
store = record {
  list_candidates = λ day. if day == 0 then ok (1 ∷ 2 ∷ []) else ok [];
  read = read;
  entries = none;
  casefold = λ t. t;
}
