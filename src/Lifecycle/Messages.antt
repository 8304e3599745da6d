-- ===== src/Lifecycle/Messages.antt =====
-- src/local_recall/lifecycle/messages.py: the messages of the lifecycle actor.
use local_recall.Common.{Bool, true, false, String, ℕ, Option, none, some}
use local_recall.Common.Exec.{Result, ok, err}
use local_recall.Lifecycle.State.{
  CaptureState, CaptureStateSnapshot, CaptureGeneration, LifecycleError, value_error,
  TransitionReason, session_locked, session_unlocked, idle, active,
}

pub data LifecycleFaultCode : Type 0 where
  unsupported_session encryption_unavailable policy_failure preflight_failure : LifecycleFaultCode
  preflight_timeout cancellation_failure quiescence_timeout : LifecycleFaultCode
  buffer_clear_failure audit_failure actor_failure shutdown_failure : LifecycleFaultCode

pub record LifecyclePreflightResult : Type 0 where
  pub ready : Bool
  pub fault_code : Option LifecycleFaultCode
  pub start_paused_reason : Option TransitionReason

abbrev pub is_safety_reason : Option TransitionReason → Bool
is_safety_reason none = true
is_safety_reason (some session_locked) = true
is_safety_reason (some idle) = true
is_safety_reason _ = false

-- The checks of `LifecyclePreflightResult.__post_init__`.
unfoldable pub make_preflight_result :
    Bool
    → Option LifecycleFaultCode
    → Option TransitionReason
    → Result LifecycleError LifecyclePreflightResult
make_preflight_result true (some code) reason = err value_error
make_preflight_result false none reason = err value_error
make_preflight_result false (some code) (some reason) = err value_error
make_preflight_result false (some code) none =
    ok (record { ready = false; fault_code = some code; start_paused_reason = none })
make_preflight_result true none reason = elim (is_safety_reason reason) [
  | true ↦ ok (record { ready = true; fault_code = none; start_paused_reason = reason })
  | false ↦ err value_error
]

-- `LifecyclePreflightResult.failure`
abbrev pub failure : LifecycleFaultCode → LifecyclePreflightResult
failure code = record { ready = false; fault_code = some code; start_paused_reason = none }

pub record SetAutomaticCaptureBlock : Type 0 where
  pub blocked : Bool
  pub reason : TransitionReason

-- The check of `SetAutomaticCaptureBlock.__post_init__`.
unfoldable pub make_automatic_block :
    Bool → TransitionReason → Result LifecycleError SetAutomaticCaptureBlock
make_automatic_block true session_locked = ok (record { blocked = true; reason = session_locked })
make_automatic_block true idle = ok (record { blocked = true; reason = idle })
make_automatic_block false session_unlocked =
    ok (record { blocked = false; reason = session_unlocked })
make_automatic_block false active = ok (record { blocked = false; reason = active })
make_automatic_block _ _ = err value_error

-- The part of a configuration snapshot that the lifecycle reads.
pub record ConfigurationSnapshot : Type 0 where
  pub capture_permitted : Bool
  pub revision : String

pub record RunLifecyclePreflight : Type 0 where
  pub configuration : ConfigurationSnapshot
  pub generation : CaptureGeneration
  pub deadline_monotonic_ns : ℕ
  pub reason : TransitionReason

pub record CompleteLifecyclePreflight : Type 0 where
  pub generation : CaptureGeneration
  pub result : LifecyclePreflightResult
  pub reason : TransitionReason

pub data Message : Type 0 where
  get_snapshot : Message
  start pause resume stop : TransitionReason → Message
  automatic_block : SetAutomaticCaptureBlock → Message
  fault : LifecycleFaultCode → TransitionReason → Message
  preflight_complete : CompleteLifecyclePreflight → Message
  unsupported : Message  -- any other object

pub record LifecycleCommandResult : Type 0 where
  pub accepted : Bool
  pub changed : Bool
  pub snapshot : CaptureStateSnapshot
  pub reason_code : String
  pub fault_code : Option LifecycleFaultCode

pub record LifecycleAuditEvent : Type 0 where
  pub previous : CaptureState
  pub current : CaptureState
  pub reason : TransitionReason
  pub generation : ℕ
  pub configuration_revision : Option String
  pub fault_code : Option LifecycleFaultCode
