-- ===== src/Robot/Fsm.antt =====
-- include/RobotFsm.h: the operations of the behaviour state machine. Each runs under the mutex of
-- the machine, so it is one function from the old state to the new one and the result.
pub mod Step
pub mod Invariant
pub mod Diagram
pub mod Generation
pub mod Rest
use rover_ops_jm.Prelude.{
  ℕ, ◌+◌, ◌%◌, ◌^◌, String, Bool, true, false, ◌&&◌, ◌||◌, not, ◌==◌, nat_eq, if◌then◌else◌,
}
use rover_ops_jm.Robot.State.{
  HealthStatus, MotionMode, TaskStatus, LightStatus, RobotDto, health_eq, mode_eq, task_eq,
}

pub data FollowDecision : Type 0 where
  rejected already_following queued start : FollowDecision

-- The default member values of `RobotDto`.
unfoldable pub initial : RobotDto
initial = record {
  health = HealthStatus.unknow;
  motion_mode = MotionMode.idle;
  task_status = TaskStatus.idle;
  navigation_environment_ready = false;
  localization_ready = false;
  follow_placeholder = false;
  generation = 0;
  fault_reason = "";
  light_status = LightStatus.default;
}

-- `++state_.generation` on an unsigned 64-bit number.
abbrev pub next_generation : ℕ → ℕ
next_generation g = (g + 1) % 2 ^ 64

unfoldable pub is_navigation : MotionMode → Bool
is_navigation mode =
    mode == MotionMode.starting_navigation
    || mode == MotionMode.navigation_ready
    || mode == MotionMode.navigating

unfoldable pub begin_navigation : RobotDto → RobotDto × Bool
begin_navigation s =
    if not (s.motion_mode == MotionMode.idle) || s.health == HealthStatus.un_healthy
    then (s, false)
    else (
      record s {
        generation = next_generation s.generation;
        motion_mode = MotionMode.starting_navigation;
        task_status = TaskStatus.idle;
        fault_reason = "";
      },
      true,
    )

unfoldable pub navigation_current : RobotDto → ℕ → Bool
unfolding is_navigation
navigation_current s generation = generation == s.generation && is_navigation s.motion_mode

unfoldable pub navigation_ready : RobotDto → Bool → String → RobotDto
navigation_ready s success reason =
    if not (s.motion_mode == MotionMode.starting_navigation) then s else record s {
      navigation_environment_ready = success;
      motion_mode = if success then MotionMode.navigation_ready else MotionMode.failed;
      fault_reason = if success then "" else reason;
    }

unfoldable pub navigation_start_aborted : RobotDto → RobotDto × Bool
navigation_start_aborted s =
    if not (s.motion_mode == MotionMode.starting_navigation) then (s, false) else (
      record s {
        motion_mode = MotionMode.idle;
        task_status = TaskStatus.idle;
        navigation_environment_ready = false;
        localization_ready = false;
        fault_reason = "";
      },
      true,
    )

unfoldable pub begin_follow : RobotDto → RobotDto × FollowDecision
begin_follow s =
    if s.health == HealthStatus.un_healthy
      || s.motion_mode == MotionMode.mapping
      || s.motion_mode == MotionMode.mapping_processing
      || s.motion_mode == MotionMode.failed
    then (s, FollowDecision.rejected)
    else if s.motion_mode == MotionMode.starting_follow || s.motion_mode == MotionMode.following
    then (s, FollowDecision.already_following)
    else if s.motion_mode == MotionMode.stopping
    then (s, FollowDecision.queued)
    else (
      record s {
        generation = next_generation s.generation;
        motion_mode = MotionMode.stopping;
        task_status = TaskStatus.stopping;
      },
      FollowDecision.start,
    )

unfoldable pub begin_stop : RobotDto → RobotDto × Bool
begin_stop s =
    if s.motion_mode == MotionMode.following
      || s.motion_mode == MotionMode.mapping
      || s.motion_mode == MotionMode.mapping_processing
      || s.motion_mode == MotionMode.stopping
      || s.motion_mode == MotionMode.starting_follow
    then (s, false)
    else (
      record s {
        generation = next_generation s.generation;
        motion_mode = MotionMode.stopping;
        task_status = TaskStatus.stopping;
      },
      true,
    )

unfoldable pub stopped : RobotDto → Bool → String → Bool → RobotDto
stopped s success reason follow = record s {
  motion_mode =
      if success
      then (if follow then MotionMode.starting_follow else MotionMode.idle)
      else MotionMode.failed;
  task_status = if success then TaskStatus.cancelled else TaskStatus.failed;
  navigation_environment_ready = false;
  localization_ready = false;
  fault_reason = if success then "" else reason;
}

unfoldable pub follow_started : RobotDto → Bool → RobotDto
follow_started s placeholder =
    if not (s.motion_mode == MotionMode.starting_follow) then s else record s {
      motion_mode = MotionMode.following;
      task_status = TaskStatus.running;
      follow_placeholder = placeholder;
    }

unfoldable pub follow_stopped : RobotDto → Bool → String → RobotDto × Bool
follow_stopped s success reason =
    if not (s.motion_mode == MotionMode.following)
      && not (s.motion_mode == MotionMode.starting_follow)
    then (s, false)
    else (
      record s {
        generation = next_generation s.generation;
        motion_mode = if success then MotionMode.idle else MotionMode.failed;
        task_status = if success then TaskStatus.cancelled else TaskStatus.failed;
        follow_placeholder = false;
        navigation_environment_ready = false;
        localization_ready = false;
        fault_reason = if success then "" else reason;
      },
      true,
    )

unfoldable pub stop_follow : RobotDto → RobotDto × Bool
unfolding follow_stopped
stop_follow s = follow_stopped s true ""

unfoldable pub task_state : RobotDto → TaskStatus → RobotDto
unfolding is_navigation
task_state s status = if not (is_navigation s.motion_mode) then s else record s {
  task_status = status;
  motion_mode =
      if status == TaskStatus.running || status == TaskStatus.paused
      then MotionMode.navigating
      else MotionMode.navigation_ready;
}

unfoldable pub localization_ready : RobotDto → Bool → RobotDto
unfolding is_navigation
localization_ready s ready =
    if is_navigation s.motion_mode then record s { localization_ready = ready } else s

unfoldable pub mapping : RobotDto → Bool → RobotDto × Bool
mapping s active =
    if active
    then (if not (s.motion_mode == MotionMode.idle)
          && not (s.motion_mode == MotionMode.mapping)
          && not (s.motion_mode == MotionMode.mapping_processing)
        then (s, false)
        else (record s { motion_mode = MotionMode.mapping }, true))
    else if not (s.motion_mode == MotionMode.mapping)
        && not (s.motion_mode == MotionMode.mapping_processing)
    then (s, false)
    else (record s { motion_mode = MotionMode.idle }, true)

unfoldable pub mapping_processing : RobotDto → RobotDto × Bool
mapping_processing s =
    if not (s.motion_mode == MotionMode.mapping)
    then (s, false)
    else (record s { motion_mode = MotionMode.mapping_processing }, true)

unfoldable pub mapping_failed : RobotDto → String → RobotDto × Bool
mapping_failed s reason =
    if not (s.motion_mode == MotionMode.mapping)
      && not (s.motion_mode == MotionMode.mapping_processing)
    then (s, false)
    else (
      record s {
        generation = next_generation s.generation;
        motion_mode = MotionMode.failed;
        task_status = TaskStatus.failed;
        fault_reason = reason;
      },
      true,
    )

unfoldable pub begin_mapping : RobotDto → RobotDto × Bool
begin_mapping s =
    if not (s.motion_mode == MotionMode.idle) || s.health == HealthStatus.un_healthy
    then (s, false)
    else (
      record s { motion_mode = MotionMode.mapping; generation = next_generation s.generation },
      true,
    )

unfoldable pub name : MotionMode → String
name MotionMode.idle = "Idle"
name MotionMode.starting_navigation = "StartingNavigation"
name MotionMode.navigation_ready = "NavigationReady"
name MotionMode.navigating = "Navigating"
name MotionMode.starting_follow = "StartingFollow"
name MotionMode.following = "Following"
name MotionMode.mapping = "Mapping"
name MotionMode.mapping_processing = "MappingProcessing"
name MotionMode.stopping = "StoppingNavigation"
name MotionMode.failed = "Fault"

unfoldable pub task_name : TaskStatus → String
task_name TaskStatus.idle = "Idle"
task_name TaskStatus.starting = "Starting"
task_name TaskStatus.running = "Running"
task_name TaskStatus.paused = "Paused"
task_name TaskStatus.stopping = "Stopping"
task_name TaskStatus.successed = "Succeeded"
task_name TaskStatus.cancelled = "Cancelled"
task_name TaskStatus.failed = "Failed"
