-- ===== src/Session/Preflight.antt =====
-- src/local_recall/session/safety.py, `SessionSafetyPreflight`: the check before a capture starts. What
-- the sources and the check behind it answer is given, with the time at which an answer failed.
pub mod Start
use local_recall.Common.{
  ℕ, Bool, true, false, not, ◌&&◌, Option, none, some, List, [], ◌∷◌, if◌then◌else◌, Text, codes,
}
use local_recall.Common.Exec.{Outcome, returned, raised, Exec}
use local_recall.Lifecycle.State.{session_locked, idle as idle_reason}
use local_recall.Lifecycle.Messages.{LifecyclePreflightResult}
use local_recall.Policy.Engine.{PolicyEngine, set_session_locked}
use local_recall.Session.{
  lock_unknown, idle_unknown, unavailable, LockObservation, IdleObservation, IdleSettings,
  is_unlocked, is_idle, resolve_idle_observations,
}

-- A source, what it observed unless it raised, and the time if it raised.
pub record Source (A : Type 0) : Type 0 where
  pub source_id : Text
  pub observed : Option A
  pub failed_at : ℕ

pub record SessionSafetyPreflight : Type 0 where
  pub base : Option LifecyclePreflightResult  -- none where it raises
  pub lock_source : Source LockObservation
  pub idle_settings : IdleSettings
  pub idle_sources : List (Source IdleObservation)
  pub source_order : List Text
  pub cancelled : Option ℕ  -- the time, where the collection is cancelled
  pub now : ℕ

unfoldable pub unknown_lock : Text → ℕ → LockObservation
unknown_lock source_id now = record {
  state = lock_unknown;
  observed_at = now;
  source_id = source_id;
  source_revision = codes "source-v1";
  failure_code = some unavailable;
}

unfoldable pub collect_lock : Source LockObservation → LockObservation
collect_lock source = elim source.observed [
  | some o ↦ o
  | none ↦ unknown_lock source.source_id source.failed_at
]

unfoldable pub observation_of : Source IdleObservation → IdleObservation
observation_of source = elim source.observed [
  | some o ↦ o
  | none ↦ record {
    state = idle_unknown;
    observed_at = source.failed_at;
    source_id = source.source_id;
    source_revision = codes "source-v1";
    idle_seconds = none;
    failure_code = some unavailable;
  }
]

unfoldable pub collect_idle : List (Source IdleObservation) → List IdleObservation
collect_idle [] = []
collect_idle (source ∷ rest) = observation_of source ∷ collect_idle rest

-- `_collect`, with what `check` puts in its place when it raises.
unfoldable pub collect : SessionSafetyPreflight → LockObservation × List IdleObservation
collect p = elim p.cancelled [
  | none ↦ (collect_lock p.lock_source, collect_idle p.idle_sources)
  | some time ↦ (unknown_lock p.lock_source.source_id time, [])
]

abbrev pub seen_idle : SessionSafetyPreflight → List IdleObservation → IdleObservation
seen_idle p l = (resolve_idle_observations p.idle_settings p.source_order p.now l).0

-- `check` once the check behind it is ready.
unfoldable pub answer_of :
    SessionSafetyPreflight
    → LockObservation
    → List IdleObservation
    → LifecyclePreflightResult
    → LifecyclePreflightResult
answer_of p lock l result =
    if not result.ready
    then result
    else if not (is_unlocked lock.state)
    then record { ready = true; fault_code = none; start_paused_reason = some session_locked }
    else if p.idle_settings.enabled
        && p.idle_settings.pause_capture
        && is_idle (seen_idle p l).state
    then record { ready = true; fault_code = none; start_paused_reason = some idle_reason }
    else result

unfoldable pub check : SessionSafetyPreflight → Exec PolicyEngine Unit LifecyclePreflightResult
check p s =
    let (lock, l) = collect p in
    let t : PolicyEngine = set_session_locked (not (is_unlocked lock.state)) s in
    elim p.base [ none ↦ raised tt t | some result ↦ returned (answer_of p lock l result) t ]
