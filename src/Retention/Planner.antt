-- ===== src/Retention/Planner.antt =====
-- src/local_recall/retention/planner.py: the retention planner. The catalog of the storage, the
-- records that it decrypts and `str.casefold` are answered from outside.
pub mod Window
pub mod Scan
pub mod Eviction
use local_recall.Common.{
  Text, same_text, ℕ, zero, suc, ◌+◌, ◌-◌, ◌≡◌, refl, Bool, true, false, not, ◌&&◌, ◌||◌, Option,
  none, some, List, [], ◌∷◌, ◌++◌, ◌==◌, leb, ltb, length, any, all, sum_of, contains, map,
  if◌then◌else◌,
}
use local_recall.Common.Exec.{Result, ok, err}
use local_recall.Retention.Rules.{
  FieldName, ContextRetentionRule, RetentionRules, RetentionError, overflow_error,
  scope_budget_exceeded,
}

-- An entry of a catalog page, and the candidate that the planner makes of it.
pub record Candidate : Type 0 where
  pub record_id : ℕ
  pub day_bucket : ℕ
  pub blob_bytes : ℕ

pub record CatalogPage : Type 0 where
  pub entries : List Candidate
  pub complete : Bool

pub record RetentionPlan : Type 0 where
  pub expired : List ℕ
  pub evicted : List ℕ
  pub reclaimed_bytes : ℕ
  pub dry_run : Bool

-- The metadata of a redacted record: the text of a field, if it is text.
abbrev pub Metadata : Type 0
Metadata = FieldName → Option Text

pub record Sources : Type 0 where
  pub page_ready : Option (ℕ × ℕ) → CatalogPage
  pub has_encryption : Bool
  pub read : ℕ → Option Metadata  -- `get` and `decrypt`; no record where `get` answers `None`
  pub casefold : Text → Text

-- `today - max_age_days * _DAY`; day 1 is the first.
unfoldable pub cutoff : ℕ → ℕ → Result RetentionError ℕ
cutoff today days = if leb today days then err overflow_error else ok (today - days)

-- The rules with their cutoffs.
unfoldable pub with_cutoffs :
    ℕ → List ContextRetentionRule → Result RetentionError (List (ContextRetentionRule × ℕ))
unfolding cutoff
with_cutoffs today [] = ok []
with_cutoffs today (rule ∷ rules) = elim (cutoff today rule.max_age_days) [
  | err e ↦ err e
  | ok c ↦ elim (with_cutoffs today rules) [ err e ↦ err e | ok rest ↦ ok ((rule, c) ∷ rest) ]
]

abbrev pub smaller : ℕ → ℕ → ℕ
smaller a b = if leb a b then a else b

abbrev pub larger : ℕ → ℕ → ℕ
larger a b = if leb a b then b else a

-- `min((start, *cutoffs))` and `max((start, *cutoffs))`
unfoldable pub least : ℕ → List (ContextRetentionRule × ℕ) → ℕ
least start [] = start
least start ((rule, c) ∷ rest) = smaller c (least start rest)

unfoldable pub greatest : ℕ → List (ContextRetentionRule × ℕ) → ℕ
greatest start [] = start
greatest start ((rule, c) ∷ rest) = larger c (greatest start rest)

-- `max(matched) if matched else global_cutoff`
unfoldable pub effective : ℕ → List (ContextRetentionRule × ℕ) → ℕ
unfolding greatest
effective global_cutoff [] = global_cutoff
effective global_cutoff ((rule, c) ∷ rest) = greatest c rest

-- What the loop of `plan` has gathered.
pub record Gathered : Type 0 where
  pub expired : List ℕ
  pub candidates : List Candidate
  pub decrypted : ℕ

-- The cursor after a page: its last entry.
unfoldable pub last_of : List Candidate → Option (ℕ × ℕ)
last_of [] = none
last_of (candidate ∷ []) = some (candidate.day_bucket, candidate.record_id)
last_of (candidate ∷ next ∷ rest) = last_of (next ∷ rest)

module _ (sources : Sources) where
  abbrev text_matches : Option Text → Text → Bool
  text_matches none wanted = false
  text_matches (some text) wanted = same_text (sources.casefold text) (sources.casefold wanted)

  unfoldable pub matches_rule : Metadata → ContextRetentionRule → Bool
  matches_rule metadata rule = text_matches (metadata rule.field_name) rule.value

  unfoldable pub matched :
      Metadata → List (ContextRetentionRule × ℕ) → List (ContextRetentionRule × ℕ)
  unfolding matches_rule
  matched metadata [] = []
  matched metadata ((rule, c) ∷ rest) =
      let others = matched metadata rest in
      if matches_rule metadata rule then (rule, c) ∷ others else others

  unfoldable pub expires_in_window :
      ℕ → List (ContextRetentionRule × ℕ) → Candidate → Result RetentionError Bool
  unfolding matched effective
  expires_in_window global_cutoff cutoffs candidate =
      if not sources.has_encryption
      then err scope_budget_exceeded
      else elim (sources.read candidate.record_id) [
        | none ↦ ok true
        | some metadata ↦
            ok (ltb candidate.day_bucket (effective global_cutoff (matched metadata cutoffs)))
      ]

  module _ (decrypt_budget global_cutoff : ℕ) (cutoffs : List (ContextRetentionRule × ℕ)) where
    abbrev mark : Candidate → Gathered → Result RetentionError Bool → Result RetentionError Gathered
    mark candidate g (err e) = err e
    mark candidate g (ok expires) = ok (record g {
      expired = if expires then g.expired ++ candidate.record_id ∷ [] else g.expired;
    })

    -- The body of the loop over the entries of a page.
    unfoldable pub examine : Candidate → Gathered → Result RetentionError Gathered
    unfolding expires_in_window least greatest
    examine candidate g =
        let seen : Gathered = record g { candidates = g.candidates ++ candidate ∷ [] } in
        if ltb candidate.day_bucket (least global_cutoff cutoffs)
        then ok (record seen { expired = g.expired ++ candidate.record_id ∷ [] })
        else if leb (greatest global_cutoff cutoffs) candidate.day_bucket
        then ok seen
        else if ltb decrypt_budget (g.decrypted + 1)
        then err scope_budget_exceeded
        else mark candidate (record seen { decrypted = g.decrypted + 1 })
            (expires_in_window global_cutoff cutoffs candidate)

    unfoldable pub examine_all : List Candidate → Gathered → Result RetentionError Gathered
    examine_all [] g = ok g
    examine_all (candidate ∷ rest) g = elim (examine candidate g) [
      | err e ↦ err e
      | ok h ↦ examine_all rest h
    ]

    -- The loop over the pages; `page.entries[-1]` raises on an empty page that is not the last.
    unfoldable pub scan : ℕ → Option (ℕ × ℕ) → Gathered → Option (Result RetentionError Gathered)
    scan zero after g = none
    scan (suc fuel) after g =
        let page = sources.page_ready after in
        elim (examine_all page.entries g) [
          | err e ↦ some (err e)
          | ok h ↦ if page.complete then some (ok h) else elim (last_of page.entries) [
            | none ↦ some (err RetentionError.index_error)
            | some cursor ↦ scan fuel (some cursor) h
          ]
        ]

-- The loop of `_eviction_set`, from what is freed and evicted so far.
unfoldable pub evict : ℕ → ℕ → List ℕ → List Candidate → ℕ → ℕ → List ℕ
evict overflow must_free already [] count freed = []
evict overflow must_free already (candidate ∷ rest) count freed =
    let chosen = not (contains candidate.record_id already) in
    let others =
      evict overflow must_free already rest (if chosen then count + 1 else count)
        (if chosen then freed + candidate.blob_bytes else freed) in
    if leb overflow count && leb must_free freed
    then []
    else if chosen
    then candidate.record_id ∷ others
    else others

unfoldable pub eviction_set : RetentionRules → List Candidate → List ℕ → List ℕ
unfolding evict
eviction_set rules candidates expired =
    let usage_bytes = sum_of (λ (c : Candidate). c.blob_bytes) candidates in
    let overflow = length candidates - rules.max_records in
    let pressure = usage_bytes - rules.max_bytes in
    let must_free = if ltb 0 pressure then usage_bytes - rules.low_watermark_bytes else 0 in
    if overflow == 0 && pressure == 0 then [] else evict overflow must_free expired candidates 0 0

-- The plan once the catalog is read.
unfoldable pub conclude : RetentionRules → Bool → List Candidate → List ℕ → RetentionPlan
unfolding eviction_set
conclude rules dry_run candidates expired =
    let evicted = eviction_set rules candidates expired in
    record {
      expired = expired;
      evicted = evicted;
      reclaimed_bytes =
          sum_of
            (λ (c : Candidate).
              if contains c.record_id (expired ++ evicted) then c.blob_bytes else 0)
            candidates;
      dry_run = dry_run;
    }

unfoldable pub plan_with :
    Sources
    → ℕ
    → RetentionRules
    → Bool
    → ℕ
    → ℕ
    → List (ContextRetentionRule × ℕ)
    → Option (Result RetentionError RetentionPlan)
plan_with sources budget rules dry_run fuel global_cutoff cutoffs =
    elim (scan sources budget global_cutoff cutoffs fuel none
      (record { expired = []; candidates = []; decrypted = 0 })) [
        | none ↦ none
        | some (err e) ↦ some (err e)
        | some (ok g) ↦ some (ok (conclude rules dry_run g.candidates g.expired))
      ]

-- `RetentionPlanner.plan`; `none` when the fuel for the pages runs out.
unfoldable pub plan :
    Sources → ℕ → ℕ → RetentionRules → Bool → ℕ → Option (Result RetentionError RetentionPlan)
unfolding cutoff with_cutoffs plan_with
plan sources budget today rules dry_run fuel = elim (cutoff today rules.max_age_days) [
  | err e ↦ some (err e)
  | ok global_cutoff ↦ elim (with_cutoffs today rules.context_rules) [
    | err e ↦ some (err e)
    | ok cutoffs ↦ plan_with sources budget rules dry_run fuel global_cutoff cutoffs
  ]
]
