-- ===== src/Executor/Rosout.antt =====
-- What the executor does with a line of /rosout (`initial_pose_rosout_callback` of
-- src/CommandExecutor.cc), told by the marker that the line holds.
use rover_ops_jm.Prelude.{
  ℕ, ◌+◌, String, true, false, ◌&&◌, not, ltb, leb, if◌then◌else◌, min, max, Option, none, some,
}
use rover_ops_jm.Robot.State.{TaskStatus}
use rover_ops_jm.Robot.Fsm
use rover_ops_jm.Executor.State.{Executor, Message, send}
use rover_ops_jm.Executor.Navigation.{
  complete_navigation_env_ready, complete_initial_pose_result, complete_navigation_task_result,
  complete_clear_waypoints_result,
}

-- A waypoint line without a positive number is `unmarked`. Lines about a planning failure go to
-- `handle_navigation_planning_rosout`, which keeps its own state.
pub data Line : Type 0 where
  task_paused task_resumed tomogram_exported waypoint_added waypoints_cleared : Line
  initialized unmarked : Line
  waypoint_reached : ℕ → Line
  recharge : String → Line

-- `/initialpose` is published by the round only where a fresh pose is at hand, which changes
-- nothing here.
unfoldable pub round_line : Executor → Option ℕ → Executor
round_line e none = e
round_line e (some round) =
    let told = send e (Message.round_completed round) in
    if ltb told.last_relocalized_round round
    then record told { last_relocalized_round = round }
    else told

unfoldable pub reach_waypoint : Executor → ℕ → Executor
reach_waypoint e index =
    let reached =
      max e.reached_points (if ltb 0 e.total_points then min index e.total_points else index) in
    let progressed = record e {
      reached_points = reached;
      execution_active =
          if ltb 0 e.total_points then ltb reached e.total_points else e.execution_active;
    } in
    if leb index e.reached_points
    then e
    else send progressed (Message.waypoint_reached index reached e.total_points)

unfoldable pub confirm_waypoint : Executor → Executor
confirm_waypoint e =
    let counted = record e { confirmed_points = e.confirmed_points + 1 } in
    if not e.navigation_task.pending
    then e
    else if ltb 0 counted.expected_points && leb counted.expected_points counted.confirmed_points
    then complete_navigation_task_result counted counted.navigation_task.id true "下发导航任务点成功！！！"
    else counted

unfoldable pub handle_line : Line → Executor → Executor
unfolding reach_waypoint confirm_waypoint
handle_line Line.task_paused e =
    let told =
      send (record e { task_paused = true }) (Message.navigation_task_state "task_paused") in
    record told { behavior = Fsm.task_state told.behavior TaskStatus.paused }
handle_line Line.task_resumed e =
    send (record e { behavior = Fsm.task_state e.behavior TaskStatus.running; task_paused = false })
      (Message.navigation_task_state "task_resumed")
handle_line (Line.waypoint_reached index) e = reach_waypoint e index
handle_line (Line.recharge stage) e = send e (Message.recharge_status stage)
handle_line Line.tomogram_exported e =
    if e.navigation_env.pending
    then complete_navigation_env_ready e e.navigation_env.id true "Tomogram exported"
    else e
handle_line Line.waypoint_added e = confirm_waypoint e
handle_line Line.waypoints_cleared e =
    if e.clear_waypoints.pending
    then complete_clear_waypoints_result e e.clear_waypoints.id true "所有航点已清除"
    else e
handle_line Line.initialized e =
    if e.initial_pose.pending
    then complete_initial_pose_result e e.initial_pose.id true "Initialize successfully!!!!!!"
    else e
handle_line Line.unmarked e = e

unfoldable pub rosout : Executor → Option ℕ → Line → Executor
unfolding round_line handle_line
rosout e round line =
    if not (Fsm.is_navigation e.behavior.motion_mode)
    then e
    else handle_line line (round_line e round)
