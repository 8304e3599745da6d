-- ===== src/Retention/Tests.antt =====
-- The theorems of the retention at a concrete catalog.
use local_recall.Common.{ℕ, ◌+◌, ◌⊎◌, ◌≡◌, refl, Bool, true, false, none, some, List, [], ◌∷◌, ◌++◌}
use local_recall.Common.Exec.{ok, err}
use local_recall.Retention.Rules.{application, ContextRetentionRule, RetentionRules, RetentionError}
use local_recall.Retention.Planner.{
  Candidate, Sources, RetentionPlan, Gathered, examine, conclude, plan_with, plan, scan,
  examine_all,
}
use local_recall.Retention.Planner.Window.{expired_of, examine_lem}
use local_recall.Retention.Planner.Scan.{last_page, plan_with-expired}
use local_recall.Retention.Engine.{RetentionSweepResult, SweepEvent, selected, apply_plan, sweep}

abbrev rule : ContextRetentionRule
rule = record { field_name = application; value = 97 ∷ []; max_age_days = 5 }

abbrev cutoffs : List (ContextRetentionRule × ℕ)
cutoffs = (rule, 95) ∷ []

abbrev old : Candidate
old = record { record_id = 1; day_bucket = 60; blob_bytes = 10 }

abbrev recent : Candidate
recent = record { record_id = 2; day_bucket = 93; blob_bytes = 10 }

abbrev catalog : List Candidate
catalog = old ∷ recent ∷ []

abbrev sources : Sources
sources = record {
  page_ready = λ _. record { entries = catalog; complete = true };
  has_encryption = true;
  read = λ _. some (λ _. some (97 ∷ []));
  casefold = λ text. text;
}

abbrev rules : RetentionRules
rules = record {
  max_age_days = 30;
  max_bytes = 15;
  max_records = 1;
  low_watermark_bytes = 12;
  context_rules = rule ∷ [];
}

abbrev wide : RetentionRules
wide = record rules { max_bytes = 50; max_records = 10 }

abbrev gathered : Gathered
gathered = record { expired = []; candidates = []; decrypted = 0 }

examined :
    examine sources 100 70 cutoffs recent gathered
    ≡ ok (record { expired = 2 ∷ []; candidates = recent ∷ []; decrypted = 1 })
unfolding examine
examined = refl

examine_lem_example :
    (2 ∷ [] ≡ [] ++ expired_of sources 70 cutoffs (recent ∷ [])) × (recent ∷ [] ≡ [] ++ recent ∷ [])
examine_lem_example =
    examine_lem sources 100 70 cutoffs recent gathered
      (record { expired = 2 ∷ []; candidates = recent ∷ []; decrypted = 1 }) examined

plan_with-expired_example :
    ((x : RetentionError) × (plan_with sources 100 rules false 1 70 cutoffs ≡ some (err x)))
    ⊎ ((p : RetentionPlan) × (plan_with sources 100 rules false 1 70 cutoffs ≡ some (ok p))
        × (p.expired ≡ expired_of sources 70 cutoffs catalog)
        × (p ≡ conclude rules false catalog p.expired))
plan_with-expired_example =
    plan_with-expired sources 100 70 cutoffs rules false 1 catalog (last_page 0 none refl)

abbrev planned : RetentionPlan
planned = record { expired = 1 ∷ 2 ∷ []; evicted = 3 ∷ []; reclaimed_bytes = 30; dry_run = false }

-- A storage that counts the records it deleted.
abbrev delete_one : ℕ → ℕ → Bool × ℕ
delete_one id s = (true, s + 1)

abbrev dry : RetentionSweepResult × SweepEvent × ℕ
dry = (
  record { planned_count = 2; deleted_count = 0; reclaimed_bytes = 0; dry_run = true },
  record { count = 0; bytes_reclaimed = 0; dry_run = true },
  4,
)

swept : sweep delete_one sources 100 rules true 1 4 ≡ some (ok dry)
unfolding sweep plan plan_with scan examine_all conclude selected apply_plan examine
swept = refl
