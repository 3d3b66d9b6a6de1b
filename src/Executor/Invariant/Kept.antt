-- ===== src/Executor/Invariant/Kept.antt =====
-- Inside a handler only a part of the rules holds: one that the handler chooses of the machine, the
-- queued follow and the flag of the queue, and the rest of the rules.
use rover_ops_jm.Prelude.{ℕ, ◌≤◌, ◌<◌, Bool, false, List, [], Option, none, ◌≡◌, refl}
use rover_ops_jm.Robot.State.{MotionMode, RobotDto}
use rover_ops_jm.Robot.Fsm.Invariant.{IsConsistent}
use rover_ops_jm.Robot.Fsm.Rest.{IsAtRest}
use rover_ops_jm.Executor.State.{Executor, FollowRequest, TaskStateRequest}
use rover_ops_jm.Executor.Rules.{IsServed, IsSettled, settled}

abbrev pub Stance : Type 1
Stance = RobotDto → Option FollowRequest → Bool → Type 0

pub record Kept (P : Stance) (behavior : RobotDto) (follow : Option FollowRequest)
    (processing running transition : Bool) (requests : List TaskStateRequest) (total reached : ℕ)
    : Type 0 where
  pub stance : P behavior follow processing
  pub served : IsServed running transition requests
  pub progress : 0 < total → reached ≤ total

pub record IsKept (P : Stance) (e : Executor) : Type 0 where
  pub parts :
      Kept P e.behavior e.pending_follow e.processing_pending_follow e.worker_running
        e.transition_active e.requests e.total_points e.reached_points

pub kept :
    {P : Stance} {e : Executor}
    → Kept P e.behavior e.pending_follow e.processing_pending_follow e.worker_running
        e.transition_active e.requests e.total_points e.reached_points
    → IsKept P e
kept r = record { parts = r }

module _ {P : Stance} {b : RobotDto} {f : Option FollowRequest} {p w t : Bool}
    {q : List TaskStateRequest} {n r : ℕ} where
  pub with_stance :
      {Q : Stance} (s : RobotDto) (g : Option FollowRequest) (p' : Bool)
      → Kept P b f p w t q n r
      → Q s g p'
      → Kept Q s g p' w t q n r
  with_stance s g p' v stance = record { stance = stance; served = v.served; progress = v.progress }

  pub with_no_requests : Kept P b f p w t q n r → Kept P b f p false false [] n r
  with_no_requests v = record {
    stance = v.stance;
    served = record { no_requests = λ h. refl; no_transition = λ h. refl };
    progress = v.progress;
  }

-- A stop is half done, with whatever is queued.
pub record IsHalting (p : Bool) (s : RobotDto) (g : Option FollowRequest) (p' : Bool) : Type 0 where
  pub consistent : IsConsistent s
  pub stopping : s.motion_mode ≡ MotionMode.stopping
  pub flag : p' ≡ p

-- At rest with an open queue, and with an empty one.
pub record IsResting (p : Bool) (s : RobotDto) (g : Option FollowRequest) (p' : Bool) : Type 0 where
  pub at_rest : IsAtRest s
  pub flag : p' ≡ p

pub record IsQuiet (p : Bool) (s : RobotDto) (g : Option FollowRequest) (p' : Bool) : Type 0 where
  pub at_rest : IsAtRest s
  pub no_follow : g ≡ none
  pub flag : p' ≡ p

pub quiet-IsSettled : (e : Executor) → IsKept (IsQuiet false) e → IsSettled e
quiet-IsSettled e v = settled (record {
  at_rest = v.parts.stance.at_rest;
  no_follow = v.parts.stance.no_follow;
  not_processing = v.parts.stance.flag;
  served = v.parts.served;
  progress = v.parts.progress;
})

pub settled-IsQuiet : (e : Executor) → IsSettled e → IsKept (IsQuiet false) e
settled-IsQuiet e v = kept (record {
  stance = record {
    at_rest = v.rules.at_rest;
    no_follow = v.rules.no_follow;
    flag = v.rules.not_processing;
  };
  served = v.rules.served;
  progress = v.rules.progress;
})
