-- ===== src/Policy.antt =====
-- src/local_recall/domain/policy.py and domain/metadata.py: the values of the privacy policy, with the
-- settings of src/local_recall/config/models.py that it reads. Instants and durations are numbers of
-- microseconds. Regular expressions, case folding, IP addresses, time zones and the printing of
-- scalars are the `Library`'s.
pub mod Domain
pub mod Match
pub mod Engine
pub mod Decision
pub mod Evaluate
pub mod Boundary
pub mod Changes
pub mod Permits
pub mod Effects
pub mod Denials
pub mod Samples
mod Tests
use local_recall.Common.{
  ℕ, Bool, true, false, ◌&&◌, Option, none, some, List, [], ◌∷◌, ◌==◌, Text, same_text,
}
use local_recall.Lifecycle.State.{CaptureGeneration}

pub data PolicyOperation : Type 0 where
  screenshot metadata ocr indexing summarization remote_provider : PolicyOperation

pub data PolicyPhase : Type 0 where
  pre_capture post_capture downstream : PolicyPhase

pub data PolicyReasonCode : Type 0 where
  privacy_mode session_locked explicit_rule_deny explicit_rule_allow : PolicyReasonCode
  temporary_sensitive_window temporary_sensitive_workspace sensitive_application : PolicyReasonCode
  sensitive_title sensitive_workspace sensitive_domain source_unavailable : PolicyReasonCode
  required_context_missing malformed_context stale_context policy_conflict : PolicyReasonCode
  default_deny default_allow remote_not_authorized policy_unavailable : PolicyReasonCode
  stale_authorization : PolicyReasonCode

pub data SensitiveScope : Type 0 where
  window workspace : SensitiveScope

pub record PolicyDecision : Type 0 where
  pub operation : PolicyOperation
  pub phase : PolicyPhase
  pub allowed : Bool
  pub certain : Bool
  pub reason_code : PolicyReasonCode
  pub policy_revision : Text
  pub policy_generation : ℕ
  pub rule_id : Option Text

pub record PolicyAuthorization : Type 0 where
  pub operation : PolicyOperation
  pub phase : PolicyPhase
  pub policy_revision : Text
  pub policy_generation : ℕ
  pub capture_generation : CaptureGeneration

-- A metadata value. An integer has its sign, and a floating-point number is told by its bits.
pub data Scalar : Type 0 where
  text : Text → Scalar
  integer : Bool → ℕ → Scalar
  floating : ℕ → Scalar
  boolean : Bool → Scalar
  nothing : Scalar

-- Of the provenance, only the identifiers of the sources are read.
pub record ContextField : Type 0 where
  pub name : Text
  pub value : Scalar
  pub provenance : List Text

pub record ContextMetadata : Type 0 where
  pub observed_at : ℕ
  pub fields : List ContextField

pub record PolicyEvaluationContext : Type 0 where
  pub metadata : ContextMetadata
  pub evaluated_at : ℕ
  pub capture_generation : CaptureGeneration
  pub full_screen : Option Bool

pub data RuleEffect : Type 0 where
  allow deny : RuleEffect

pub data PrivacyProfile : Type 0 where
  privacy_strict local_only local_first : PrivacyProfile

-- Times of the day.
pub record PolicyTimeWindow : Type 0 where
  pub start : ℕ
  pub end : ℕ

-- The priority, from -1000 on, is counted from there.
pub record CaptureRule : Type 0 where
  pub effect : RuleEffect
  pub rule_id : Option Text
  pub enabled : Bool
  pub priority : ℕ
  pub operations : List PolicyOperation
  pub application : Option Text
  pub title_pattern : Option Text
  pub workspace : Option Text
  pub domain : Option Text
  pub include_subdomains : Bool
  pub full_screen : Option Bool
  pub metadata_source : Option Text
  pub time_window : Option PolicyTimeWindow

-- The settings of the policy; of each remote provider, whether it is enabled.
pub record LocalRecallConfig : Type 0 where
  pub profile : PrivacyProfile
  pub default_effect : RuleEffect
  pub timezone : Text
  pub max_metadata_age : ℕ
  pub rules : List CaptureRule
  pub sensitive_applications : List Text
  pub sensitive_workspaces : List Text
  pub remote_enabled : Bool
  pub remote_providers : List Bool

-- `search` is that of a compiled pattern, and `ip_address` answers an address compressed.
pub record Library : Type 0 where
  pub casefold : Text → Text
  pub strip : Text → Text
  pub printed : Scalar → Text
  pub compiles : Text → Bool
  pub search : Text → Text → Bool
  pub ip_address : Text → Option Text
  pub has_zone : Text → Bool
  pub local_time : Text → ℕ → ℕ
  pub anonymous_rule_id : CaptureRule → Text

abbrev pub same_operation : PolicyOperation → PolicyOperation → Bool
same_operation screenshot screenshot = true
same_operation metadata metadata = true
same_operation ocr ocr = true
same_operation indexing indexing = true
same_operation summarization summarization = true
same_operation remote_provider remote_provider = true
same_operation _ _ = false

abbrev pub same_scope : SensitiveScope → SensitiveScope → Bool
same_scope window window = true
same_scope workspace workspace = true
same_scope _ _ = false
