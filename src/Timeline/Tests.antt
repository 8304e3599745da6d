-- ===== src/Timeline/Tests.antt =====
-- Concrete deletions, over a small codec and a storage that fails a number of times.
use local_recall.Common.{◌≡◌, refl, none, some, [], ◌∷◌, Text, arith}
use local_recall.Common.Exec.{ok, raised}
use local_recall.Timeline.Deletion.{
  DeletionState, planned, DeletionError, make_state, validate_request_id, validate_record_ids,
}
use local_recall.Timeline.Deletion.Journal.{Store, to_json, load_sync, new_file}
use local_recall.Timeline.Deletion.Coordinator.{delete}
use local_recall.Timeline.Deletion.RoundTrip.{load_sync-new_file}
use local_recall.Timeline.Deletion.Consistency.{delete-too_many}
use local_recall.Timeline.Codecs.{
  print, dump, codec, codec-IsLawful, wide_codec, wide_prints, below, length-below,
}
use local_recall.Timeline.Worlds.{World, services}

abbrev request : Text
request = 114 ∷ 49 ∷ []

abbrev world : World
world = record { held = 3 ∷ 4 ∷ 5 ∷ []; indexed = 3 ∷ []; shown = 5 ∷ []; failures = 1 }

abbrev empty_store : Store World
empty_store = record { file = none; outside = world }

abbrev begun : DeletionState
begun = record { request_id = request; record_ids = 3 ∷ 5 ∷ []; phase = planned }

abbrev begun_store : Store World
begun_store = record { file = some (new_file (dump (to_json codec begun))); outside = world }

load_sync-new_file_example :
    load_sync codec (some (new_file (dump (to_json codec begun)))) ≡ ok (some begun)
unfolding make_state validate_request_id validate_record_ids to_json print
load_sync-new_file_example = load_sync-new_file codec codec-IsLawful begun refl (omega arith)

delete-too_many_example :
    (e : DeletionError) × (delete wide_codec services request (below 2000) empty_store
      ≡ raised e empty_store)
delete-too_many_example =
    delete-too_many wide_codec services request (below 2000) empty_store wide_prints refl
      (omega (arith, length-below 2000))
