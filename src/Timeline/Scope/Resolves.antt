-- ===== src/Timeline/Scope/Resolves.antt =====
-- src/local_recall/timeline/scope.py: the scopes with a window select the records that they say.
use local_recall.Common.{ℕ, ◌/◌, ◌≡◌, true, some}
use local_recall.Common.Exec.{ok}
use local_recall.Timeline.Scope.{ScopeSources, RedactedRecord, day_length}
use local_recall.Timeline.Scope.Days.{listed_on}

-- Every record that can be read is listed on the day of its capture.
pub record IsFiled (sources : ScopeSources) : Type 0 where
  pub filed :
      (id : ℕ) (r : RedactedRecord)
      → sources.read id ≡ ok (some r)
      → listed_on sources (r.captured_at / day_length) id ≡ true
