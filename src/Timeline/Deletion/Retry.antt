-- ===== src/Timeline/Deletion/Retry.antt =====
-- src/local_recall/timeline/deletion.py: recovery is tried again until it returns, and it does.
use local_recall.Common.{ℕ, zero, suc, ◌≡◌, ◌≤◌, List, [], ◌∷◌, length, Text}
use local_recall.Common.Exec.{ok, Exec}
use local_recall.Timeline.Deletion.{
  DeletionPhase, DeletionState, Codec, validate_request_id, validate_record_ids,
}
use local_recall.Timeline.Deletion.Journal.{Services, Store, to_json, max_journal_bytes}
use local_recall.Timeline.Deletion.RoundTrip.{IsLawful}
use local_recall.Timeline.Deletion.Coordinator.{Call, recover_call}
use local_recall.Timeline.Deletion.Steps.{Promise}
use local_recall.Timeline.Deletion.Recovery.{IsAt, IsOver}
use local_recall.Timeline.Deletion.Faults.{Faults}

-- `recover`, a number of times.
unfoldable pub recoveries : ℕ → List Call
recoveries zero = []
recoveries (suc n) = recover_call ∷ recoveries n

module _ {S : Type 0} (codec : Codec) {services : Services S} (lawful : IsLawful codec)
    (promise : Promise services) (few : Faults services) (request_id : Text) (ids : List ℕ)
    (v : validate_request_id request_id ≡ ok tt) (w : validate_record_ids ids ≡ ok tt)
    (fits : (phase : DeletionPhase)
      → length (
          codec.dumps
            (to_json codec (record { request_id = request_id; record_ids = ids; phase = phase })))
        ≤ max_journal_bytes) where
  abbrev Stands : DeletionPhase → Store S → Type 0
  Stands phase s = IsAt codec lawful promise request_id ids v w phase s

  abbrev at : DeletionPhase → DeletionState
  at phase = record { request_id = request_id; record_ids = ids; phase = phase }

  abbrev Over : Store S → Type 0
  Over s = IsOver codec lawful promise request_id ids v w s
