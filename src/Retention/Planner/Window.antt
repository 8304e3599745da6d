-- ===== src/Retention/Planner/Window.antt =====
-- The window between the least and the greatest cutoff: outside of it the planner decides without
-- decrypting, and decides the same.
use local_recall.Common.{
  ℕ, ◌≤◌, ◌<◌, ◌≡◌, Bool, true, false, inl, inr, Bool-cases, Option-cases, none, some, List, [],
  ◌∷◌, ◌++◌, leb, ltb, if◌then◌else◌, arith,
}
use mathlib.Core.List.{append-nil, append_assoc}
use local_recall.Common.Exec.{ok, Result-cases}
use local_recall.Retention.Rules.{ContextRetentionRule}
use local_recall.Retention.Planner.{
  Candidate, Metadata, Sources, least, greatest, matched, effective, expires_in_window, Gathered,
  examine, examine_all,
}

greatest-start : (s : ℕ) (l : List (ContextRetentionRule × ℕ)) → s ≤ greatest s l
unfolding greatest
greatest-start s [] = omega arith
greatest-start s ((r, c) ∷ l) = let ih = greatest-start s l in ground arith

greatest-other :
    (c s : ℕ) (l : List (ContextRetentionRule × ℕ))
    → greatest c l ≤ (if leb c (greatest s l) then greatest s l else c)
unfolding greatest
greatest-other c s [] = ground arith
greatest-other c s ((r, d) ∷ l) = let ih = greatest-other c s l in ground arith

effective-greatest : (g : ℕ) (l : List (ContextRetentionRule × ℕ)) → effective g l ≤ greatest g l
unfolding effective greatest
effective-greatest g [] = omega arith
effective-greatest g ((r, c) ∷ l) = greatest-other c g l

least-greatest : (g : ℕ) (l : List (ContextRetentionRule × ℕ)) → least g l ≤ greatest g l
unfolding least greatest
least-greatest g [] = omega arith
least-greatest g ((r, c) ∷ l) = let ih = least-greatest g l in ground arith

module _ (sources : Sources) where
  matched-greatest :
      (g : ℕ) (m : Metadata) (l : List (ContextRetentionRule × ℕ))
      → greatest g (matched sources m l) ≤ greatest g l
  unfolding matched greatest
  matched-greatest g m [] = omega arith
  matched-greatest g m ((r, c) ∷ l) = let ih = matched-greatest g m l in ground arith

  least-effective :
      (g : ℕ) (m : Metadata) (l : List (ContextRetentionRule × ℕ))
      → least g l ≤ effective g (matched sources m l)
  unfolding least matched effective
  least-effective g m [] = omega arith
  least-effective g m ((r, c) ∷ l) =
      let ih = least-effective g m l in
      let first = greatest-start c (matched sources m l) in ground arith

  -- The policy: a record expires by the latest cutoff of the rules that match, which is that of their
  -- shortest age, or by the global cutoff if none matches; one that is gone, by the latest of all.
  unfoldable pub expires : ℕ → List (ContextRetentionRule × ℕ) → Candidate → Bool
  unfolding matched effective greatest
  expires global_cutoff cutoffs candidate = elim (sources.read candidate.record_id) [
    | none ↦ ltb candidate.day_bucket (greatest global_cutoff cutoffs)
    | some metadata ↦
        ltb candidate.day_bucket (effective global_cutoff (matched sources metadata cutoffs))
  ]

  -- The records that the policy expires, in the order of the catalog.
  unfoldable pub expired_of : ℕ → List (ContextRetentionRule × ℕ) → List Candidate → List ℕ
  unfolding expires
  expired_of global_cutoff cutoffs [] = []
  expired_of global_cutoff cutoffs (c ∷ rest) =
      let others = expired_of global_cutoff cutoffs rest in
      if expires global_cutoff cutoffs c then c.record_id ∷ others else others

  module _ (budget global_cutoff : ℕ) (cutoffs : List (ContextRetentionRule × ℕ)) where
    expires-below :
        (c : Candidate)
        → c.day_bucket < least global_cutoff cutoffs
        → expires global_cutoff cutoffs c ≡ true
    unfolding expires
    expires-below c h = elim (Option-cases (sources.read c.record_id)) [
      | inl e ↦ let b = least-greatest global_cutoff cutoffs in rw (expires, e) (ground arith)
      | inr (m, e) ↦
          let b = least-effective global_cutoff m cutoffs in rw (expires, e) (ground arith)
    ]

    expires-above :
        (c : Candidate)
        → greatest global_cutoff cutoffs ≤ c.day_bucket
        → expires global_cutoff cutoffs c ≡ false
    unfolding expires
    expires-above c h = elim (Option-cases (sources.read c.record_id)) [
      | inl e ↦ rw (expires, e) (ground arith)
      | inr (m, e) ↦
          let b = matched-greatest global_cutoff m cutoffs in
          let d = effective-greatest global_cutoff (matched sources m cutoffs) in
          rw (expires, e) (ground arith)
    ]

    expires-window :
        (c : Candidate) (b : Bool)
        → c.day_bucket < greatest global_cutoff cutoffs
        → expires_in_window sources global_cutoff cutoffs c ≡ ok b
        → expires global_cutoff cutoffs c ≡ b
    unfolding expires expires_in_window
    expires-window c b h e = ground arith

    -- An entry that is examined without an error joins the candidates, and it joins the expired records
    -- exactly when the policy expires it, inside and outside of the window.
    pub examine_lem :
        (c : Candidate) (g h : Gathered)
        → examine sources budget global_cutoff cutoffs c g ≡ ok h
        → (h.expired ≡ g.expired ++ expired_of global_cutoff cutoffs (c ∷ []))
          × (h.candidates ≡ g.candidates ++ c ∷ [])
    unfolding examine expired_of
    examine_lem c g h e = elim (Bool-cases (ltb c.day_bucket (least global_cutoff cutoffs))) [
      | inl below ↦ let f = expires-below c (ground arith) in ground arith
      | inr not_below ↦ elim (Bool-cases (leb (greatest global_cutoff cutoffs) c.day_bucket)) [
        | inl above ↦
            let f = expires-above c (ground arith) in let n = append-nil g.expired in ground arith
        | inr inside ↦
            let n = append-nil g.expired in
            elim (Result-cases (expires_in_window sources global_cutoff cutoffs c)) [
              | inl (b, w) ↦ let f = expires-window c b (ground arith) w in ground arith
              | inr (x, w) ↦ ground arith
            ]
      ]
    ]

    split :
        (c : Candidate) (cs : List Candidate)
        → expired_of global_cutoff cutoffs (c ∷ []) ++ expired_of global_cutoff cutoffs cs
          ≡ expired_of global_cutoff cutoffs (c ∷ cs)
    unfolding expired_of
    split c cs = ground arith

    pub examine_all_lem :
        (cs : List Candidate) (g h : Gathered)
        → examine_all sources budget global_cutoff cutoffs cs g ≡ ok h
        → (h.expired ≡ g.expired ++ expired_of global_cutoff cutoffs cs)
          × (h.candidates ≡ g.candidates ++ cs)
    unfolding examine_all expired_of
    examine_all_lem [] g h e =
        let n = append-nil g.expired in let n' = append-nil g.candidates in ground arith
    examine_all_lem (c ∷ cs) g h e =
        elim (Result-cases (examine sources budget global_cutoff cutoffs c g)) [
          | inl (g', w) ↦
              let first = examine_lem c g g' w in
              let tail : examine_all sources budget global_cutoff cutoffs cs g' ≡ ok h =
                ground arith in
              let rest = examine_all_lem cs g' h tail in
              let n =
                append_assoc g.expired (expired_of global_cutoff cutoffs (c ∷ []))
                  (expired_of global_cutoff cutoffs cs) in
              let n' = append_assoc g.candidates (c ∷ []) cs in let n'' = split c cs in (cc, cc)
          | inr (x, w) ↦ ground arith
        ]
