-- ===== src/Timeline/Codecs.antt =====
-- Small codecs for the tests of the deletion.
use local_recall.Common.{
  ℕ, zero, suc, ◌+◌, ◌*◌, ◌≤◌, ◌≡◌, refl, Option, none, some, List, [], ◌∷◌, ◌==◌, length,
  if◌then◌else◌, Text, codes, arith,
}
use local_recall.Timeline.Deletion.{
  Json, text, number, array, object, Items, end_items, item, end_fields, field, Codec,
  DeletionState, DeletionPhase, planned, records_deleted, derived_reconciled,
}
use local_recall.Timeline.Deletion.Journal.{to_json, uuid_items, phase_value}
use local_recall.Timeline.Deletion.RoundTrip.{IsLawful}

abbrev pub phase_text : ℕ → Text
phase_text p =
    if p == 112
    then codes "planned"
    else if p == 114
    then codes "records-deleted"
    else codes "derived-reconciled"

unfoldable pub print : Items → Text → List ℕ
print (item (text (x ∷ [])) rest) t = suc x ∷ print rest t
print _ t = 0 ∷ t

unfoldable pub items_in : List ℕ → Items
items_in (suc x ∷ rest) = item (text (x ∷ [])) (items_in rest)
items_in _ = end_items

unfoldable pub text_in : List ℕ → Text
text_in (suc x ∷ rest) = text_in rest
text_in (zero ∷ rest) = rest
text_in [] = []

abbrev pub fields_in : ℕ → List ℕ → Json
fields_in p rest = object (
    field "phase" (text (phase_text p)) (
      field "record_ids" (array (items_in rest))
        (field "request_id" (text (text_in rest)) (field "version" (number 1) end_fields))))

abbrev pub dump : Json → List ℕ
dump (object (field a (text (p ∷ q)) (field b (array ids) (field c (text t) rest)))) =
    p ∷ print ids t
dump _ = 0 ∷ []

abbrev pub load_json : List ℕ → Option Json
load_json (p ∷ rest) = some (fields_in p rest)
load_json [] = none

abbrev pub read_uuid : Text → Option ℕ
read_uuid (x ∷ []) = some x
read_uuid _ = none

abbrev pub codec : Codec
codec = record { loads = load_json; dumps = dump; uuid = read_uuid; uuid_text = λ id. id ∷ [] }

pub items_in-print :
    (ids : List ℕ) (t : Text) → items_in (print (uuid_items codec ids) t) ≡ uuid_items codec ids
unfolding items_in print
items_in-print [] t = refl
items_in-print (id ∷ ids) t = let ih = items_in-print ids t in rw ih refl

pub text_in-print : (ids : List ℕ) (t : Text) → text_in (print (uuid_items codec ids) t) ≡ t
unfolding text_in print
text_in-print [] t = refl
text_in-print (id ∷ ids) t = text_in-print ids t

pub loads-to_json :
    (r : Text) (ids : List ℕ) (phase : DeletionPhase)
    → let state : DeletionState = record { request_id = r; record_ids = ids; phase = phase } in
      load_json (dump (to_json codec state)) ≡ some (to_json codec state)
unfolding to_json phase_value
loads-to_json r ids planned = rw (items_in-print ids r, text_in-print ids r) refl
loads-to_json r ids records_deleted = rw (items_in-print ids r, text_in-print ids r) refl
loads-to_json r ids derived_reconciled = rw (items_in-print ids r, text_in-print ids r) refl

pub dump-length :
    (r : Text) (ids : List ℕ) (phase : DeletionPhase)
    → let state : DeletionState = record { request_id = r; record_ids = ids; phase = phase } in
      1 ≤ length (dump (to_json codec state))
unfolding to_json phase_value
dump-length r ids planned = omega arith
dump-length r ids records_deleted = omega arith
dump-length r ids derived_reconciled = omega arith

pub codec-IsLawful : IsLawful codec
codec-IsLawful = record {
  loads-dumps = λ state. loads-to_json state.request_id state.record_ids state.phase;
  dumps-length = λ state. dump-length state.request_id state.record_ids state.phase;
  uuid-uuid_text = λ id. refl;
}

-- A codec that prints 39 bytes for each record.
unfoldable pub pads : ℕ → List ℕ → List ℕ
pads zero l = l
pads (suc n) l = 0 ∷ pads n l

unfoldable pub wide : Items → List ℕ
wide (item _ rest) = pads 39 (wide rest)
wide end_items = []

abbrev pub wide_dump : Json → List ℕ
wide_dump (object (field a p (field b (array ids) rest))) = wide ids
wide_dump _ = []

abbrev pub wide_codec : Codec
wide_codec = record codec { dumps = wide_dump }

pub length-pads : (n : ℕ) (l : List ℕ) → length (pads n l) ≡ n + length l
unfolding pads
length-pads zero l = omega arith
length-pads (suc n) l = omega (arith, length-pads n l)

pub length-wide : (ids : List ℕ) → 39 * length ids ≤ length (wide (uuid_items wide_codec ids))
unfolding wide
length-wide [] = omega arith
length-wide (id ∷ ids) =
    omega (arith, length-wide ids, length-pads 39 (wide (uuid_items wide_codec ids)))

pub wide_prints :
    (state : DeletionState)
    → 39 * length state.record_ids ≤ length (wide_codec.dumps (to_json wide_codec state))
unfolding to_json
wide_prints state = length-wide state.record_ids

unfoldable pub below : ℕ → List ℕ
below zero = []
below (suc n) = n ∷ below n

pub length-below : (n : ℕ) → length (below n) ≡ n
unfolding below
length-below zero = refl
length-below (suc n) = omega (arith, length-below n)
