-- ===== src/Executor/Invariant/Rosout.antt =====
-- The lines of /rosout keep the rules.
use rover_ops_jm.Prelude.{
  ℕ, ◌≤◌, ◌<◌, ◌+◌, true, ◌&&◌, not, ltb, leb, if◌then◌else◌, min, max, Option, none, some,
  if_keeps, arith,
}
use rover_ops_jm.Robot.State.{TaskStatus}
use rover_ops_jm.Robot.Fsm
use rover_ops_jm.Robot.Fsm.Rest.{task_state-IsAtRest}
use rover_ops_jm.Executor.State.{Executor}
use rover_ops_jm.Executor.Rules.{IsSettled, settled}
use rover_ops_jm.Executor.Rosout.{
  Line, round_line, reach_waypoint, confirm_waypoint, handle_line, rosout,
}
use rover_ops_jm.Executor.Invariant.Handlers.{with_points}
use rover_ops_jm.Executor.Invariant.Mapping.{moved-IsSettled}
use rover_ops_jm.Executor.Invariant.Navigation.{
  complete_env-IsSettled, complete_pose-IsSettled, complete_task-IsSettled,
  complete_clear-IsSettled,
}

round_line-IsSettled :
    (e : Executor) (round : Option ℕ) → IsSettled e → IsSettled (round_line e round)
unfolding round_line
round_line-IsSettled e none v = v
round_line-IsSettled e (some round) v =
    if_keeps IsSettled (ltb e.last_relocalized_round round) (settled v.rules) (settled v.rules)

-- The progress that a line reports stays within the points of the task.
reached_within : (n r i : ℕ) → (0 < n → r ≤ n) → 0 < n → max r (if ltb 0 n then min i n else i) ≤ n
reached_within n r i h k = grind arith

reach_waypoint-IsSettled : (e : Executor) (i : ℕ) → IsSettled e → IsSettled (reach_waypoint e i)
unfolding reach_waypoint
reach_waypoint-IsSettled e i v = if_keeps IsSettled (leb i e.reached_points) v (
    settled
      (with_points _ _ v.rules (reached_within e.total_points e.reached_points i v.rules.progress)))

confirm_waypoint-IsSettled : (e : Executor) → IsSettled e → IsSettled (confirm_waypoint e)
unfolding confirm_waypoint
confirm_waypoint-IsSettled e v =
    if_keeps IsSettled (not e.navigation_task.pending) (settled v.rules) (
      if_keeps IsSettled (ltb 0 e.expected_points && leb e.expected_points (e.confirmed_points + 1))
        (complete_task-IsSettled _ _ true _ (settled v.rules)) (settled v.rules))

status-IsSettled :
    (e : Executor) (t : TaskStatus)
    → IsSettled e
    → IsSettled (record e { behavior = Fsm.task_state e.behavior t })
status-IsSettled e t v = moved-IsSettled e _ (task_state-IsAtRest e.behavior t v.rules.at_rest) v

handle_line-IsSettled : (l : Line) (e : Executor) → IsSettled e → IsSettled (handle_line l e)
unfolding handle_line
handle_line-IsSettled Line.task_paused e v = settled (status-IsSettled e TaskStatus.paused v).rules
handle_line-IsSettled Line.task_resumed e v =
    settled (status-IsSettled e TaskStatus.running v).rules
handle_line-IsSettled (Line.waypoint_reached index) e v = reach_waypoint-IsSettled e index v
handle_line-IsSettled (Line.recharge stage) e v = settled v.rules
handle_line-IsSettled Line.tomogram_exported e v =
    if_keeps IsSettled e.navigation_env.pending (complete_env-IsSettled e _ true _ v) v
handle_line-IsSettled Line.waypoint_added e v = confirm_waypoint-IsSettled e v
handle_line-IsSettled Line.waypoints_cleared e v =
    if_keeps IsSettled e.clear_waypoints.pending (complete_clear-IsSettled e _ true _ v) v
handle_line-IsSettled Line.initialized e v =
    if_keeps IsSettled e.initial_pose.pending (complete_pose-IsSettled e _ true _ v) v
handle_line-IsSettled Line.unmarked e v = v

pub rosout-IsSettled :
    (e : Executor) (round : Option ℕ) (l : Line) → IsSettled e → IsSettled (rosout e round l)
unfolding rosout
rosout-IsSettled e round l v =
    if_keeps IsSettled (not (Fsm.is_navigation e.behavior.motion_mode)) v
      (handle_line-IsSettled l _ (round_line-IsSettled e round v))
