-- ===== src/Session/Sharing.antt =====
-- src/local_recall/session/safety.py: the policy engine that the controller shares with the preflight,
-- which sets the lock of the engine by an observation of its own.
use local_recall.Common.{Bool, true, not, List, [], ◌∷◌}
use local_recall.Common.Exec.{after}
use local_recall.Session.{is_unlocked}
use local_recall.Session.Controller.{Outside, SessionSafetyController, Event, handle}
use local_recall.Session.Preflight.{SessionSafetyPreflight, collect, check}

-- A call of the controller, or a check before a start.
pub data Step : Type 0 where
  called : Event → Step
  checked : SessionSafetyPreflight → Step

module _ {S : Type 0} where
  unfoldable pub check_shared :
      SessionSafetyPreflight → SessionSafetyController S → SessionSafetyController S
  check_shared p c = record c { policy = after (check p c.policy) }

module _ {S : Type 0} (outside : Outside S) where
  unfoldable pub step : Step → SessionSafetyController S → SessionSafetyController S
  step (called e) c = handle outside e c
  step (checked p) c = check_shared p c

  unfoldable pub run_steps : List Step → SessionSafetyController S → SessionSafetyController S
  run_steps [] c = c
  run_steps (e ∷ rest) c = run_steps rest (step e c)

-- The step is no check that sees the session unlocked.
unfoldable pub keeps_lock : Step → Bool
keeps_lock (called e) = true
keeps_lock (checked p) = not (is_unlocked (collect p).0.state)
