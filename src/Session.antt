-- ===== src/Session.antt =====
-- src/local_recall/session/safety.py: what is seen of the session, and how idle sources are resolved.
-- Times are nanoseconds; an age is compared by its two ends, so that it may be negative.
pub mod Controller
pub mod Resolution
pub mod Preflight
pub mod Sharing
mod Tests
use local_recall.Common.{
  ℕ, ◌+◌, Bool, true, false, not, ◌&&◌, ◌||◌, Option, none, some, List, [], ◌∷◌, ◌==◌, leb, ltb,
  length, any, if◌then◌else◌, Text, same_text, codes,
}
use local_recall.Policy.Decision.{text_ltb}

pub data LockState : Type 0 where
  locked unlocked lock_unknown : LockState

pub data IdleState : Type 0 where
  idle active idle_unknown : IdleState

pub data SessionSafetyFailureCode : Type 0 where
  unavailable timeout disconnected malformed stale permission_denied : SessionSafetyFailureCode
  wrong_session source_conflict lifecycle_rejected : SessionSafetyFailureCode

pub record LockObservation : Type 0 where
  pub state : LockState
  pub observed_at : ℕ
  pub source_id : Text
  pub source_revision : Text
  pub failure_code : Option SessionSafetyFailureCode

pub record IdleObservation : Type 0 where
  pub state : IdleState
  pub observed_at : ℕ
  pub source_id : Text
  pub source_revision : Text
  pub idle_seconds : Option ℕ
  pub failure_code : Option SessionSafetyFailureCode

pub data IdleResumeBehavior : Type 0 where
  immediate active_grace manual : IdleResumeBehavior

pub record IdleSettings : Type 0 where
  pub enabled : Bool
  pub pause_capture : Bool
  pub threshold_seconds : ℕ
  pub resume_behavior : IdleResumeBehavior
  pub active_grace_seconds : ℕ
  pub max_observation_age_seconds : ℕ

abbrev pub is_unlocked : LockState → Bool
is_unlocked unlocked = true
is_unlocked _ = false

abbrev pub is_idle : IdleState → Bool
is_idle idle = true
is_idle _ = false

abbrev pub is_active : IdleState → Bool
is_active active = true
is_active _ = false

-- Two seconds.
abbrev pub clock_skew : ℕ
clock_skew = 2000000000

-- An unknown observation in place of another one.
abbrev pub failed_idle : IdleObservation → ℕ → SessionSafetyFailureCode → IdleObservation
failed_idle o now code = record {
  state = idle_unknown;
  observed_at = now;
  source_id = o.source_id;
  source_revision = o.source_revision;
  idle_seconds = none;
  failure_code = some code;
}

unfoldable pub state_of_seconds : IdleSettings → ℕ → IdleState
state_of_seconds settings seconds = if leb settings.threshold_seconds seconds then idle else active

unfoldable pub measured : IdleSettings → IdleObservation → Option ℕ → IdleObservation
measured settings o none = o
measured settings o (some seconds) = record {
  state = state_of_seconds settings seconds;
  observed_at = o.observed_at;
  source_id = o.source_id;
  source_revision = o.source_revision;
  idle_seconds = some seconds;
  failure_code = none;
}

unfoldable pub normalize_idle : IdleSettings → ℕ → IdleObservation → IdleObservation
normalize_idle settings now o =
    if ltb (now + clock_skew) o.observed_at
    then failed_idle o now malformed
    else if ltb (o.observed_at + settings.max_observation_age_seconds) now
    then failed_idle o now stale
    else measured settings o o.idle_seconds

unfoldable pub normalize_all : IdleSettings → ℕ → List IdleObservation → List IdleObservation
normalize_all settings now [] = []
normalize_all settings now (o ∷ rest) =
    normalize_idle settings now o ∷ normalize_all settings now rest

-- `rank.get(source_id, len(rank))`
unfoldable pub rank_of : List Text → Text → ℕ
rank_of [] source = 0
rank_of (s ∷ rest) source =
    let later = rank_of rest source in if same_text s source then 0 else later + 1

unfoldable pub comes_first : List Text → IdleObservation → IdleObservation → Bool
comes_first order a b =
    ltb (rank_of order a.source_id) (rank_of order b.source_id)
    || (rank_of order a.source_id == rank_of order b.source_id && text_ltb a.source_id b.source_id)

-- `min(candidates, key=...)`
unfoldable pub first_of : List Text → IdleObservation → List IdleObservation → IdleObservation
first_of order best [] = best
first_of order best (o ∷ rest) = first_of order (if comes_first order o best then o else best) rest

unfoldable pub having : (IdleState → Bool) → List IdleObservation → List IdleObservation
having p [] = []
having p (o ∷ rest) = let others = having p rest in if p o.state then o ∷ others else others

abbrev pub no_idle : ℕ → IdleObservation
no_idle now = record {
  state = idle_unknown;
  observed_at = now;
  source_id = codes "none";
  source_revision = codes "none-v1";
  idle_seconds = none;
  failure_code = some unavailable;
}

abbrev pub select : List Text → ℕ → List IdleObservation → IdleObservation
select order now [] = no_idle now
select order now (o ∷ rest) = first_of order o rest

-- `resolve_idle_observations`: the observation that counts, and whether the sources disagree.
unfoldable pub resolve_idle_observations :
    IdleSettings → List Text → ℕ → List IdleObservation → IdleObservation × Bool
resolve_idle_observations settings order now observations =
    let normalized = normalize_all settings now observations in
    let has_idle = any (λ o. is_idle o.state) normalized in
    let has_active = any (λ o. is_active o.state) normalized in
    (
      select order now (
          if has_idle
          then having is_idle normalized
          else if has_active
          then having is_active normalized
          else normalized),
      has_idle && has_active,
    )
