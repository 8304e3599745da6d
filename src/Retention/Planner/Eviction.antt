-- ===== src/Retention/Planner/Eviction.antt =====
-- What the eviction of the planner promises.
use local_recall.Common.{
  ℕ, zero, suc, ◌+◌, ◌-◌, ◌≤◌, ◌≡◌, refl, false, any, List, [], ◌∷◌, ltb, length, sum_of, contains,
  if◌then◌else◌, arith,
}
use local_recall.Retention.Rules.{RetentionRules}
use local_recall.Retention.Planner.{Candidate, evict, eviction_set}

evict-disjoint :
    (overflow must_free : ℕ) (already : List ℕ) (cs : List Candidate) (count freed : ℕ)
    → any (λ id. contains id already) (evict overflow must_free already cs count freed) ≡ false
unfolding evict
evict-disjoint o m already [] count freed = refl
evict-disjoint o m already (c ∷ cs) count freed =
    let chosen = evict-disjoint o m already cs (count + 1) (freed + c.blob_bytes) in
    let passed = evict-disjoint o m already cs count freed in ground arith

-- The records that may be evicted: those that are not expired.
unfoldable pub unexpired : List ℕ → List Candidate → List Candidate
unexpired already [] = []
unexpired already (c ∷ cs) =
    let others = unexpired already cs in if contains c.record_id already then others else c ∷ others

unfoldable pub ids : List Candidate → List ℕ
ids [] = []
ids (c ∷ cs) = c.record_id ∷ ids cs

-- The first `n` candidates.
unfoldable pub oldest : ℕ → List Candidate → List Candidate
oldest zero cs = []
oldest (suc n) [] = []
oldest (suc n) (c ∷ cs) = c ∷ oldest n cs

unfoldable pub bytes : List Candidate → ℕ
bytes [] = 0
bytes (c ∷ cs) = c.blob_bytes + bytes cs

evict-oldest :
    (overflow must_free : ℕ) (already : List ℕ) (cs : List Candidate) (count freed : ℕ)
    → let n = length (evict overflow must_free already cs count freed) in
      evict overflow must_free already cs count freed ≡ ids (oldest n (unexpired already cs))
unfolding evict unexpired ids oldest
evict-oldest o m already [] count freed = refl
evict-oldest o m already (c ∷ cs) count freed =
    let chosen = evict-oldest o m already cs (count + 1) (freed + c.blob_bytes) in
    let passed = evict-oldest o m already cs count freed in ground arith

abbrev pub before : ℕ → ℕ
before zero = zero
before (suc n) = n

-- How many bytes the candidates take.
abbrev pub usage : List Candidate → ℕ
usage cs = sum_of (λ (c : Candidate). c.blob_bytes) cs

-- The evicted records are the first of those that are not expired, in the order of the catalog, and
-- none of them is expired.
pub eviction_set-oldest :
    (rules : RetentionRules) (cs : List Candidate) (expired : List ℕ)
    → let evicted = eviction_set rules cs expired in
      (evicted ≡ ids (oldest (length evicted) (unexpired expired cs)))
      × (any (λ id. contains id expired) evicted ≡ false)
unfolding eviction_set ids oldest
eviction_set-oldest rules cs expired =
    let o = length cs - rules.max_records in
    let u = usage cs in
    let m = if ltb 0 (u - rules.max_bytes) then u - rules.low_watermark_bytes else 0 in
    let oldest_first = evict-oldest o m expired cs 0 0 in
    let disjoint = evict-disjoint o m expired cs 0 0 in ground arith

-- Within the record cap and the high watermark nothing is evicted.
pub eviction_set-none :
    (rules : RetentionRules) (cs : List Candidate) (expired : List ℕ)
    → length cs ≤ rules.max_records
    → usage cs ≤ rules.max_bytes
    → eviction_set rules cs expired ≡ []
unfolding eviction_set
eviction_set-none rules cs expired h k = ground arith
