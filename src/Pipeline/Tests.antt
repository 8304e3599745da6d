-- ===== src/Pipeline/Tests.antt =====
-- The theorems of the pipeline at concrete ledgers, registries and ingresses.
use local_recall.Common.{
  codes, List, ◌+◌, ◌<◌, ◌≡◌, refl, true, false, none, some, [], ◌∷◌, length, all, arith,
}
use local_recall.Common.Exec.{after}
use local_recall.Lifecycle.Gate.{CaptureGate, CaptureWorkPermit, cancelled}
use local_recall.Lifecycle.Gate as Gate
use local_recall.Pipeline.Credits.{CreditLedger, in_use, total, get}
use local_recall.Pipeline.Credits.Tables.{IsDict}
use local_recall.Pipeline.Credits.Laws.{IsWithin, LedgerCall, call_all, call_all-IsWithin}
use local_recall.Pipeline.Cancellation.{
  token, CancellationRegistry, RegistryCall, attach, cancel, token_cancelled, cancelled_forever,
  spares,
}
use local_recall.Pipeline.Cancellation as Registry
use local_recall.Pipeline.Ingress.{
  coalesce_latest, RawStageItem, Transport, PipelineIngress, encodes, submit, flush_coalesced,
  close,
}
use local_recall.Pipeline.Ingress.Custody.{
  custody, one, submit-custody, submit-credit, submit-leaks, flush_coalesced-custody, close-custody,
}

abbrev ledger : CreditLedger
ledger = record { capacity = 2; in_use_by_generation = (1, 1) ∷ [] }

ledger-IsWithin : IsWithin ledger
unfolding in_use total IsDict get
ledger-IsWithin = record { bounded = omega arith; counted = (refl, omega arith, tt) }

call_all-IsWithin_example :
    IsWithin
      (call_all (LedgerCall.acquires 1 ∷ LedgerCall.acquires 2 ∷ LedgerCall.releases 1 ∷ []) ledger)
call_all-IsWithin_example =
    call_all-IsWithin (LedgerCall.acquires 1 ∷ LedgerCall.acquires 2 ∷ LedgerCall.releases 1 ∷ [])
      ledger ledger-IsWithin

room : in_use ledger < 2
unfolding in_use total
room = omega arith

abbrev permit : CaptureWorkPermit
permit = record { generation = 1; configuration_revision = "r1"; cancel_event = 0 }

spared : all (spares 1) (RegistryCall.asks 1 ∷ RegistryCall.clears 2 ∷ []) ≡ true
unfolding spares
spared = refl

abbrev asked : List RegistryCall
asked = RegistryCall.asks 1 ∷ RegistryCall.clears 2 ∷ []

cancelled_forever_example :
    let later = RegistryCall.clears 1 ∷ [] in
    (token_cancelled
        (attach permit Registry.new).0
        (Registry.call_all later
          (cancel 1 (Registry.call_all asked (attach permit Registry.new).1)))
        Gate.new
      ≡ true)
    × (token_cancelled
          (token 1 Registry.new).0
          (Registry.call_all later (cancel 1 (Registry.call_all asked (token 1 Registry.new).1)))
          Gate.new
        ≡ true)
    × (token_cancelled
          (token 1 (Registry.call_all asked (cancel 1 Registry.new))).0
          (Registry.call_all later (token 1 (Registry.call_all asked (cancel 1 Registry.new))).1)
          Gate.new
        ≡ true)
cancelled_forever_example =
    cancelled_forever permit Registry.new asked (RegistryCall.clears 1 ∷ []) Gate.new spared

abbrev item : RawStageItem
item = record {
  record_id = 9;
  generation = 1;
  configuration_revision = codes "c1";
  deadline_monotonic_ns = 50;
  frames = (1 ∷ 2 ∷ []) ∷ [];
}

abbrev too_large : RawStageItem
too_large = record {
  record_id = 8;
  generation = 1;
  configuration_revision = codes "c1";
  deadline_monotonic_ns = 50;
  frames = (1 ∷ 2 ∷ 3 ∷ 4 ∷ 5 ∷ []) ∷ [];
}

abbrev open_ingress : PipelineIngress
open_ingress = record {
  owner_thread = 3;
  credit = ledger;
  limits = record {
    overload_policy = coalesce_latest;
    max_header_bytes = 100;
    max_frames = 2;
    max_payload_bytes = 4;
  };
  cancellation = Registry.new;
  held = none;
  closed = false;
  sent = [];
  destroyed = [];
}

abbrev refusing : Transport
refusing = record { sends = λ _. false; header_bytes = λ _. 40 }

item-encodes : encodes open_ingress.limits refusing item ≡ true
unfolding encodes
item-encodes = refl

too_large-encodes : encodes open_ingress.limits refusing too_large ≡ false
unfolding encodes
too_large-encodes = refl

not_cancelled : cancelled permit Gate.new ≡ false
unfolding cancelled
not_cancelled = refl

submit-custody_example :
    custody 9 (after (submit 3 refusing item permit Gate.new open_ingress))
    ≡ custody 9 open_ingress + one 9 item
submit-custody_example =
    submit-custody 9 3 refusing item permit Gate.new open_ingress refl item-encodes

submit-credit_example :
    let t = after (submit 3 refusing item permit Gate.new open_ingress) in
    in_use t.credit + 0 ≡ in_use ledger + length t.sent
submit-credit_example =
    submit-credit 3 refusing item permit Gate.new open_ingress ledger-IsWithin item-encodes

submit-leaks_example :
    let t = after (submit 3 refusing too_large permit Gate.new open_ingress) in
    (in_use t.credit ≡ in_use ledger + 1) × (custody 8 t ≡ custody 8 open_ingress)
submit-leaks_example =
    submit-leaks 8 3 refusing too_large permit Gate.new open_ingress refl refl not_cancelled room
      too_large-encodes

abbrev holding : PipelineIngress
holding = record open_ingress { held = some item }

flush_coalesced-custody_example :
    custody 9 (after (flush_coalesced 3 refusing permit Gate.new holding)) ≡ custody 9 holding
flush_coalesced-custody_example = flush_coalesced-custody 9 3 refusing permit Gate.new holding

close-custody_example : custody 9 (after (close 3 holding)) ≡ custody 9 holding
close-custody_example = close-custody 9 3 holding
