-- ===== src/Retention/Rules.antt =====
-- src/local_recall/retention/planner.py: the rules of the retention policy. Text is a list of code
-- points; a day is its ordinal.
use local_recall.Common.{
  Text, ℕ, ◌*◌, ◌/◌, Bool, true, false, not, ◌&&◌, ◌||◌, Option, none, some, List, [], ◌∷◌, ◌==◌,
  leb, ltb, length, any, if◌then◌else◌,
}
use local_recall.Common.Exec.{Result, ok, err}

pub data RetentionError : Type 0 where
  value_error overflow_error index_error scope_budget_exceeded : RetentionError

-- The two members of `_CONTEXT_FIELDS`, and any other name.
pub data FieldName : Type 0 where
  application workspace : FieldName
  other : Text → FieldName

pub record ContextRetentionRule : Type 0 where
  pub field_name : FieldName
  pub value : Text
  pub max_age_days : ℕ

unfoldable pub is_context_field : FieldName → Bool
is_context_field application = true
is_context_field workspace = true
is_context_field (other name) = false

-- A rule that was made has one of the two allowed names.
unfoldable pub same_field : FieldName → FieldName → Bool
same_field application application = true
same_field workspace workspace = true
same_field _ _ = false

abbrev in_range : ℕ → Bool
in_range days = leb 1 days && leb days 3650

unfoldable pub make_context_rule : FieldName → Text → ℕ → Result RetentionError ContextRetentionRule
unfolding is_context_field
make_context_rule field_name value max_age_days =
    if not (is_context_field field_name)
    then err value_error
    else if length value == 0 || ltb 256 (length value)
    then err value_error
    else if any (λ character. ltb character 32) value
    then err value_error
    else if not (in_range max_age_days)
    then err value_error
    else ok (record { field_name = field_name; value = value; max_age_days = max_age_days })

pub record RetentionRules : Type 0 where
  pub max_age_days : ℕ
  pub max_bytes : ℕ
  pub max_records : ℕ
  pub low_watermark_bytes : ℕ
  pub context_rules : List ContextRetentionRule

unfoldable pub has_twice : List ContextRetentionRule → Bool
unfolding same_field
has_twice [] = false
has_twice (rule ∷ rest) =
    any (λ (other : ContextRetentionRule). same_field rule.field_name other.field_name) rest
    || has_twice rest

-- `__post_init__` of `RetentionRules`: without a low watermark it is four fifths of the high one.
unfoldable pub low_watermark : ℕ → Option ℕ → Result RetentionError ℕ
low_watermark max_bytes none = ok (max_bytes * 4 / 5)
low_watermark max_bytes (some low) = if ltb max_bytes low then err value_error else ok low

unfoldable pub with_low :
    ℕ
    → ℕ
    → ℕ
    → List ContextRetentionRule
    → Result RetentionError ℕ
    → Result RetentionError RetentionRules
unfolding has_twice
with_low max_age_days max_bytes max_records context_rules (err e) = err e
with_low max_age_days max_bytes max_records context_rules (ok low) =
    if has_twice context_rules
    then err value_error
    else ok (record {
      max_age_days = max_age_days;
      max_bytes = max_bytes;
      max_records = max_records;
      low_watermark_bytes = low;
      context_rules = context_rules;
    })

unfoldable pub make_rules :
    ℕ → ℕ → ℕ → Option ℕ → List ContextRetentionRule → Result RetentionError RetentionRules
unfolding low_watermark with_low
make_rules max_age_days max_bytes max_records low context_rules =
    if not (in_range max_age_days)
    then err value_error
    else if leb max_bytes 0 || leb max_records 0
    then err value_error
    else with_low max_age_days max_bytes max_records context_rules (low_watermark max_bytes low)
