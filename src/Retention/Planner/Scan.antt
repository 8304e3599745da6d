-- ===== src/Retention/Planner/Scan.antt =====
-- The loop over the pages of the catalog: it ends, and the plan is that of the whole catalog.
use local_recall.Common.{
  ℕ, suc, ◌≡◌, refl, ap, Bool, true, false, ◌⊎◌, inl, inr, Option, none, some, List, [], ◌∷◌, ◌++◌,
  arith,
}
use local_recall.Common.Exec.{ok, err, Result-cases}
use local_recall.Retention.Rules.{ContextRetentionRule, RetentionRules, RetentionError}
use local_recall.Retention.Planner.{
  Candidate, CatalogPage, Sources, RetentionPlan, last_of, Gathered, examine, examine_all, scan,
  conclude, plan_with,
}
use local_recall.Retention.Planner.Window.{expired_of, examine_all_lem}

-- The storage serves the entries from a cursor on in at most so many pages: only the last page is complete,
-- and every other page has a last entry, from which the next page goes on.
pub data Serves (page_ready : Option (ℕ × ℕ) → CatalogPage)
    : ℕ → Option (ℕ × ℕ) → List Candidate → Type 0 where
  last_page :
      (n : ℕ) (after : Option (ℕ × ℕ))
      → (page_ready after).complete ≡ true
      → Serves page_ready (suc n) after (page_ready after).entries
  next_page :
      (n : ℕ) (after : Option (ℕ × ℕ)) (cursor : ℕ × ℕ) (rest : List Candidate)
      → (page_ready after).complete ≡ false
      → last_of (page_ready after).entries ≡ some cursor
      → Serves page_ready n (some cursor) rest
      → Serves page_ready (suc n) after ((page_ready after).entries ++ rest)

module _ (sources : Sources) (budget global_cutoff : ℕ)
    (cutoffs : List (ContextRetentionRule × ℕ)) where
  examine_all-append :
      (xs ys : List Candidate) (g h : Gathered)
      → examine_all sources budget global_cutoff cutoffs xs g ≡ ok h
      → examine_all sources budget global_cutoff cutoffs (xs ++ ys) g
        ≡ examine_all sources budget global_cutoff cutoffs ys h
  unfolding examine_all
  examine_all-append [] ys g h e = ground arith
  examine_all-append (x ∷ xs) ys g h e =
      elim (Result-cases (examine sources budget global_cutoff cutoffs x g)) [
        | inl (g', w) ↦
            let tail : examine_all sources budget global_cutoff cutoffs xs g' ≡ ok h =
              ground arith in
            rw (examine_all, w) (examine_all-append xs ys g' h tail)
        | inr (x, w) ↦ ground arith
      ]

  examine_all-refused :
      (xs ys : List Candidate) (g : Gathered) (x : RetentionError)
      → examine_all sources budget global_cutoff cutoffs xs g ≡ err x
      → examine_all sources budget global_cutoff cutoffs (xs ++ ys) g ≡ err x
  unfolding examine_all
  examine_all-refused [] ys g x e = ground arith
  examine_all-refused (c ∷ xs) ys g x e =
      elim (Result-cases (examine sources budget global_cutoff cutoffs c g)) [
        | inl (g', w) ↦
            let tail : examine_all sources budget global_cutoff cutoffs xs g' ≡ err x =
              ground arith in
            rw (examine_all, w) (examine_all-refused xs ys g' x tail)
        | inr (y, w) ↦ ground arith
      ]

  -- The loop over the pages ends with a unit of fuel per page, and examines the entries as if
  -- they came in one list.
  pub scan_lem :
      (n : ℕ) (after : Option (ℕ × ℕ)) (entries : List Candidate) (g : Gathered)
      → Serves sources.page_ready n after entries
      → scan sources budget global_cutoff cutoffs n after g
        ≡ some (examine_all sources budget global_cutoff cutoffs entries g)
  unfolding scan
  scan_lem _ _ _ g (last_page n after c) =
      elim (Result-cases
        (examine_all sources budget global_cutoff cutoffs (sources.page_ready after).entries g)) [
          | inl (h, w) ↦ rw (scan, w, c) refl
          | inr (x, w) ↦ rw (scan, w) refl
        ]
  scan_lem _ _ _ g (next_page n after cursor rest c l s) =
      elim (Result-cases
        (examine_all sources budget global_cutoff cutoffs (sources.page_ready after).entries g)) [
          | inl (h, w) ↦
              rw (scan, w, c, l, examine_all-append _ rest g h w)
                (scan_lem n (some cursor) rest h s)
          | inr (x, w) ↦ rw (scan, w, examine_all-refused _ rest g x w) refl
        ]

  -- With fuel for the pages that the storage serves the planner comes to an end, and a plan that it
  -- makes expires exactly the records of the catalog that the policy expires, in their order.
  pub plan_with-expired :
      (rules : RetentionRules) (dry_run : Bool) (n : ℕ) (entries : List Candidate)
      → Serves sources.page_ready n none entries
      → ((x : RetentionError) × (plan_with sources budget rules dry_run n global_cutoff cutoffs
            ≡ some (err x)))
        ⊎ ((p : RetentionPlan) × (plan_with sources budget rules dry_run n global_cutoff cutoffs
              ≡ some (ok p))
            × (p.expired ≡ expired_of sources global_cutoff cutoffs entries)
            × (p ≡ conclude rules dry_run entries p.expired))
  unfolding plan_with conclude
  plan_with-expired rules dry_run n entries s =
      elim (Result-cases (
        examine_all sources budget global_cutoff cutoffs entries
          (record { expired = []; candidates = []; decrypted = 0 }))) [
            | inl (h, w) ↦
                let (e, c) =
                  examine_all_lem sources budget global_cutoff cutoffs entries
                    (record { expired = []; candidates = []; decrypted = 0 }) h w in
                inr (
                  conclude rules dry_run h.candidates h.expired,
                  rw
                      (
                        plan_with,
                        scan_lem n none entries
                            (record { expired = []; candidates = []; decrypted = 0 }) s,
                        w,
                      )
                      refl,
                  e,
                  ap (λ cs. conclude rules dry_run cs h.expired) c,
                )
            | inr (x, w) ↦ inl (
              x,
              rw
                  (
                    plan_with,
                    scan_lem n none entries
                        (record { expired = []; candidates = []; decrypted = 0 }) s,
                    w,
                  )
                  refl,
            )
          ]
