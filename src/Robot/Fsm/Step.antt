-- ===== src/Robot/Fsm/Step.antt =====
-- The calls of the state machine of include/RobotFsm.h as data, and what a history of them reaches.
use rover_ops_jm.Prelude.{String, Bool, true, ◌||◌, ◌==◌, ◌≡◌, List, [], ◌∷◌}
use rover_ops_jm.Robot.State.{MotionMode, TaskStatus, RobotDto, mode_eq}
use rover_ops_jm.Robot.Fsm
use rover_ops_jm.Robot.Fsm.{initial}

pub data Operation : Type 0 where
  begin_navigation navigation_start_aborted begin_follow begin_stop stop_follow : Operation
  mapping_processing begin_mapping : Operation
  navigation_ready : Bool → String → Operation
  stopped : Bool → String → Bool → Operation
  follow_started : Bool → Operation
  follow_stopped : Bool → String → Operation
  task_state : TaskStatus → Operation
  localization_ready : Bool → Operation
  mapping : Bool → Operation
  mapping_failed : String → Operation

unfoldable pub apply : RobotDto → Operation → RobotDto
unfolding Fsm.begin_navigation Fsm.navigation_start_aborted Fsm.begin_follow Fsm.begin_stop
    Fsm.stop_follow Fsm.mapping_processing Fsm.begin_mapping Fsm.navigation_ready Fsm.stopped
    Fsm.follow_started Fsm.follow_stopped Fsm.task_state Fsm.localization_ready Fsm.mapping
    Fsm.mapping_failed
apply s Operation.begin_navigation = (Fsm.begin_navigation s).0
apply s Operation.navigation_start_aborted = (Fsm.navigation_start_aborted s).0
apply s Operation.begin_follow = (Fsm.begin_follow s).0
apply s Operation.begin_stop = (Fsm.begin_stop s).0
apply s Operation.stop_follow = (Fsm.stop_follow s).0
apply s Operation.mapping_processing = (Fsm.mapping_processing s).0
apply s Operation.begin_mapping = (Fsm.begin_mapping s).0
apply s (Operation.navigation_ready success reason) = Fsm.navigation_ready s success reason
apply s (Operation.stopped success reason follow) = Fsm.stopped s success reason follow
apply s (Operation.follow_started placeholder) = Fsm.follow_started s placeholder
apply s (Operation.follow_stopped success reason) = (Fsm.follow_stopped s success reason).0
apply s (Operation.task_state status) = Fsm.task_state s status
apply s (Operation.localization_ready ready) = Fsm.localization_ready s ready
apply s (Operation.mapping active) = (Fsm.mapping s active).0
apply s (Operation.mapping_failed reason) = (Fsm.mapping_failed s reason).0

unfoldable pub apply_all : RobotDto → List Operation → RobotDto
apply_all s [] = s
apply_all s (op ∷ ops) = apply_all (apply s op) ops

-- `stopped` has no guard of its own: its callers reach it only from a stop in progress or from a
-- follow that is starting.
abbrev pub is_allowed : RobotDto → Operation → Bool
is_allowed s (Operation.stopped success reason follow) =
    s.motion_mode == MotionMode.stopping || s.motion_mode == MotionMode.starting_follow
is_allowed s op = true

pub data Reach : RobotDto → Type 0 where
  here : Reach initial
  next :
      {s t : RobotDto} (op : Operation)
      → Reach s
      → is_allowed s op ≡ true
      → t ≡ apply s op
      → Reach t
