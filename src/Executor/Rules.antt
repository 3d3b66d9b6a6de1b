-- ===== src/Executor/Rules.antt =====
-- The rules that the executor keeps between two steps.
use rover_ops_jm.Prelude.{ℕ, ◌≤◌, ◌<◌, Bool, false, List, [], Option, none, ◌≡◌}
use rover_ops_jm.Robot.State.{RobotDto}
use rover_ops_jm.Robot.Fsm.Rest.{IsAtRest}
use rover_ops_jm.Executor.State.{Executor, FollowRequest, TaskStateRequest}

-- The worker for pause and resume is known to run while it has anything to do.
pub record IsServed (running transition : Bool) (requests : List TaskStateRequest) : Type 0 where
  pub no_requests : running ≡ false → requests ≡ []
  pub no_transition : running ≡ false → transition ≡ false

-- The machine is at rest; no follow is left in the queue; the queue of pause and resume requests is
-- served; the progress of a task stays within its points.
pub record Rules (behavior : RobotDto) (follow : Option FollowRequest)
    (processing running transition : Bool) (requests : List TaskStateRequest) (total reached : ℕ)
    : Type 0 where
  pub at_rest : IsAtRest behavior
  pub no_follow : follow ≡ none
  pub not_processing : processing ≡ false
  pub served : IsServed running transition requests
  pub progress : 0 < total → reached ≤ total

-- The rules are spelled over the fields, so that a change of other fields leaves them as they are.
pub record IsSettled (e : Executor) : Type 0 where
  pub rules :
      Rules e.behavior e.pending_follow e.processing_pending_follow e.worker_running
        e.transition_active e.requests e.total_points e.reached_points

pub settled :
    {e : Executor}
    → Rules e.behavior e.pending_follow e.processing_pending_follow e.worker_running
        e.transition_active e.requests e.total_points e.reached_points
    → IsSettled e
settled r = record { rules = r }
