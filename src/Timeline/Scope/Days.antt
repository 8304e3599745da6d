-- ===== src/Timeline/Scope/Days.antt =====
-- src/local_recall/timeline/scope.py: what the walk over the days of a window selects.
use local_recall.Common.{
  ℕ, zero, suc, ◌+◌, ◌/◌, ◌-◌, ◌≤◌, ◌<◌, ◌≡◌, ◌⊎◌, refl, sym, ap, ◌∙◌, Bool, Bool-cases, inl, inr,
  true, false, ◌&&◌, ◌||◌, Option, none, some, List, [], ◌∷◌, ◌++◌, ◌==◌, length, contains,
  if◌then◌else◌, arith,
}
use local_recall.Common.Exec.{ok, err, Result-cases}
use local_recall.Timeline.Scope.{ScopeSources, RedactedRecord, day_length}
use local_recall.Timeline.Scope.Resolver.{
  decrypt, take_record, take_candidate, take_day, take_days, resolve_window, require_selected,
}

contains-append :
    (id x : ℕ) (l : List ℕ) → contains id (l ++ (x ∷ [])) ≡ (contains id l || (x == id))
contains-append id x [] = ground arith
contains-append id x (y ∷ l) = let ih = contains-append id x l in ground arith

pub and_false : (a w : Bool) → w ≡ false → (a && w) ≡ w
and_false true w e = refl
and_false false w e = sym e

or_and_false : (a q : Bool) → a ≡ (a || (q && false))
or_and_false true q = refl
or_and_false false true = refl
or_and_false false false = refl

or_and_true : (a q : Bool) → (a || q) ≡ (a || (q && true))
or_and_true true q = refl
or_and_true false true = refl
or_and_true false false = refl

or_false : (a q v : Bool) → q ≡ false → a ≡ (a || (q && v))
or_false true q v e = refl
or_false false true v e = cc
or_false false false v e = refl

either_or : (a q k v : Bool) → ((a || (q && v)) || (k && v)) ≡ (a || ((if q then true else k) && v))
either_or true q k v = refl
either_or false true k true = refl
either_or false true true false = refl
either_or false true false false = refl
either_or false false k v = refl

require_selected-same : (l out : List ℕ) → require_selected l ≡ ok out → l ≡ out
unfolding require_selected
require_selected-same [] out e = cc
require_selected-same (id ∷ rest) out e = cc

take_record-contains :
    (limit : ℕ) (m : RedactedRecord → Bool) (sel out : List ℕ) (r : RedactedRecord) (id : ℕ)
    → take_record limit m sel (some r) ≡ ok out
    → contains id out ≡ (contains id sel || ((r.record_id == id) && m r))
unfolding take_record
take_record-contains limit m sel out r id e =
    let step = contains-append id r.record_id sel in
    elim (Bool-cases (m r)) [
      | inr f ↦
          let same : sel ≡ out = ground arith in
          ap (contains id) (sym same)
          ∙ or_and_false _ (r.record_id == id)
          ∙ ap (λ b. contains id sel || ((r.record_id == id) && b)) (sym f)
      | inl f ↦
          let same : sel ++ (r.record_id ∷ []) ≡ out = ground arith in
          ap (contains id) (sym same)
          ∙ step
          ∙ or_and_true _ (r.record_id == id)
          ∙ ap (λ b. contains id sel || ((r.record_id == id) && b)) (sym f)
    ]

-- The storage lists a record on a day.
abbrev pub listed_on : ScopeSources → ℕ → ℕ → Bool
listed_on sources day id = elim (sources.list_candidates day) [
  | err e ↦ false
  | ok found ↦ contains id found
]

-- It lists it on one of `n` days from `day` on.
unfoldable pub listed : ScopeSources → ℕ → ℕ → ℕ → Bool
listed sources zero day id = false
listed sources (suc n) day id =
    let later = listed sources n (day + 1) id in if listed_on sources day id then true else later

module _ (sources : ScopeSources) where
  decrypt-cases :
      (c : ℕ) (x : Option RedactedRecord)
      → decrypt sources c ≡ ok x
      → (x ≡ none) × (sources.read c ≡ ok none)
        ⊎ ((r : RedactedRecord) × (x ≡ some r) × (sources.read c ≡ ok (some r)) × (r.record_id ≡ c))
  unfolding decrypt
  decrypt-cases c x e = elim (Result-cases (sources.read c)) [
    | inr (z, f) ↦ ground arith
    | inl (none, f) ↦ inl (ground arith, f)
    | inl (some r, f) ↦ elim (Bool-cases (r.record_id == c)) [
      | inl g ↦ inr (r, ground arith, f, ground arith)
      | inr g ↦ ground arith
    ]
  ]

module _ (sources : ScopeSources) (limit : ℕ) (m : RedactedRecord → Bool) (id : ℕ)
    (r : RedactedRecord) (stored : sources.read id ≡ ok (some r)) where
  take_candidate-contains :
      (scanned : ℕ) (sel out : List ℕ) (c : ℕ)
      → take_candidate sources limit m scanned sel c ≡ ok out
      → contains id out ≡ (contains id sel || ((c == id) && m r))
  unfolding take_candidate take_record
  take_candidate-contains scanned sel out c e = elim (Result-cases (decrypt sources c)) [
    | inr (z, f) ↦ ground arith
    | inl (x, f) ↦
        let taken : take_record limit m sel x ≡ ok out = ground arith in
        elim (decrypt-cases sources c x f) [
          | inl (g, h) ↦
              let kept : sel ≡ out = cc in
              elim (Bool-cases (c == id)) [
                | inl q ↦ let c_is : c ≡ id = ground arith in cc
                | inr q ↦ ap (contains id) (sym kept) ∙ or_false _ (c == id) (m r) q
              ]
          | inr (s, g, h, k) ↦
              let taken' : take_record limit m sel (some s) ≡ ok out = cc in
              let step = take_record-contains limit m sel out s id taken' in
              elim (Bool-cases (c == id)) [
                | inl q ↦
                    let c_is : c ≡ id = ground arith in
                    let same : s ≡ r = cc in
                    step
                    ∙ ap (λ n. contains id sel || ((n == id) && m s)) k
                    ∙ ap (λ x. contains id sel || ((c == id) && m x)) same
                | inr q ↦
                    step
                    ∙ ap (λ n. contains id sel || ((n == id) && m s)) k
                    ∙ sym (or_false _ (c == id) (m s) q)
                    ∙ or_false _ (c == id) (m r) q
              ]
        ]
  ]

  take_day-contains :
      (scanned : ℕ) (sel found out : List ℕ)
      → take_day sources limit m scanned sel found ≡ ok out
      → contains id out ≡ (contains id sel || (contains id found && m r))
  unfolding take_day
  take_day-contains scanned sel [] out e =
      let kept : sel ≡ out = cc in ap (contains id) (sym kept) ∙ or_false _ false (m r) refl
  take_day-contains scanned sel (c ∷ found) out e =
      elim (Result-cases (take_candidate sources limit m scanned sel c)) [
        | inr (z, f) ↦ ground arith
        | inl (chosen, f) ↦
            let rest : take_day sources limit m (scanned + 1) chosen found ≡ ok out =
              ground arith in
            let ih = take_day-contains (scanned + 1) chosen found out rest in
            let step = take_candidate-contains scanned sel chosen c f in
            ih
            ∙ ap (λ b. b || (contains id found && m r)) step
            ∙ either_or (contains id sel) (c == id) (contains id found) (m r)
      ]

  -- The candidates of `n` days from `day` on.
  take_days-contains :
      (n day scanned : ℕ) (sel out : List ℕ)
      → take_days sources limit m n day scanned sel ≡ ok out
      → contains id out ≡ (contains id sel || (listed sources n day id && m r))
  unfolding take_days listed
  take_days-contains zero day scanned sel out e =
      let kept : sel ≡ out = cc in ap (contains id) (sym kept) ∙ or_false _ false (m r) refl
  take_days-contains (suc n) day scanned sel out e =
      elim (Result-cases (sources.list_candidates day)) [
        | inr (z, f) ↦ ground arith
        | inl (found, f) ↦ elim (Result-cases (take_day sources limit m scanned sel found)) [
          | inr (z, g) ↦ ground arith
          | inl (chosen, g) ↦
              let rest : take_days sources limit m n (day + 1) (scanned + length found) chosen
                  ≡ ok out =
                ground arith in
              let ih = take_days-contains n (day + 1) (scanned + length found) chosen out rest in
              let step = take_day-contains scanned sel found chosen g in
              let here : listed_on sources day id ≡ contains id found = rw (listed_on, f) refl in
              ih
              ∙ ap (λ b. b || (listed sources n (day + 1) id && m r)) step
              ∙ either_or (contains id sel) (contains id found) (listed sources n (day + 1) id)
                  (m r)
              ∙ ap
                  (λ b.
                    contains id sel || ((if b then true else listed sources n (day + 1) id) && m r))
                  (sym here)
        ]
      ]

  pub resolve_window-contains :
      (start_at end_at : ℕ) (out : List ℕ)
      → resolve_window sources limit m start_at end_at ≡ ok out
      → (0 < end_at)
        × (contains id out ≡ (
            listed sources
              ((end_at - 1) / day_length + 1 - start_at / day_length)
              (start_at / day_length)
              id
            && m r))
  unfolding resolve_window require_selected
  resolve_window-contains start_at end_at out e = elim (Bool-cases (end_at == 0)) [
    | inl z ↦ ground arith
    | inr z ↦
        elim (Result-cases (
          take_days sources limit m ((end_at - 1) / day_length + 1 - start_at / day_length)
            (start_at / day_length) 0 [])) [
              | inr (y, g) ↦ ground arith
              | inl (chosen, g) ↦
                  let kept : chosen ≡ out = require_selected-same chosen out (ground arith) in
                  (ground arith, ap (contains id) (sym kept) ∙ take_days-contains _ _ 0 [] chosen g)
            ]
  ]

pub listed-some :
    (sources : ScopeSources) (n first day id : ℕ)
    → first ≤ day
    → day < first + n
    → listed_on sources day id ≡ true
    → listed sources n first id ≡ true
unfolding listed
listed-some sources zero first day id low high on = absurd (omega arith)
listed-some sources (suc n) first day id low high on = elim (Bool-cases (first == day)) [
  | inl e ↦
      let same : day ≡ first = ground arith in
      let here : listed_on sources first id ≡ true =
        ap (λ d. listed_on sources d id) (sym same) ∙ on in
      rw here refl
  | inr e ↦
      let later = listed-some sources n (first + 1) day id (ground arith) (ground arith) on in
      elim (Bool-cases (listed_on sources first id)) [ inl f ↦ rw f refl | inr f ↦ rw f later ]
]
