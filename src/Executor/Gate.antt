-- ===== src/Executor/Gate.antt =====
-- The busy gate of src/CommandExecutor.cc: one managed command at a time.
use rover_ops_jm.Prelude.{Bool, true, false, ◌&&◌, not, ◌==◌, if◌then◌else◌, none, some}
use rover_ops_jm.Robot.State.{MotionMode, mode_eq}
use rover_ops_jm.Robot.Fsm
use rover_ops_jm.Executor.Command.{Command, command_eq}
use rover_ops_jm.Executor.State.{Executor, Message, Outcome, send, publish_fsm_state}

unfoldable pub is_managed_command : Command → Bool
is_managed_command Command.initial_pose = true
is_managed_command Command.start_navigation = true
is_managed_command Command.navigation_task = true
is_managed_command Command.stop_navigation = true
is_managed_command Command.start_mapping = true
is_managed_command Command.stop_and_uploadmap = true
is_managed_command Command.nav_upload_successful = true
is_managed_command Command.start_task = true
is_managed_command Command.clear_waypoints = true
is_managed_command Command.cancel_task = true
is_managed_command Command.start_add_task = true
is_managed_command Command.start_add_point = true
is_managed_command Command.stop_add_point = true
is_managed_command Command.stop_add_task = true
is_managed_command _ = false

unfoldable pub try_begin_command : Executor → Command → Executor × Bool
unfolding is_managed_command
try_begin_command e c = if not (is_managed_command c) then (e, true) else elim e.active_command [
  | some active ↦ (send e (Message.busy c active), false)
  | none ↦ (record e { active_command = some c }, true)
]

-- A start of navigation that ends while the machine is still starting is a failure.
unfoldable pub fail_unfinished_start : Executor → Command → Executor
unfolding Fsm.navigation_ready
fail_unfinished_start e c =
    if c == Command.start_navigation && e.behavior.motion_mode == MotionMode.starting_navigation
    then publish_fsm_state
        (record e { behavior = Fsm.navigation_ready e.behavior false "Navigation startup failed" })
        c Outcome.failed ""
    else e

unfoldable pub release_gate : Executor → Command → Executor
release_gate e c = elim e.active_command [
  | some active ↦ if active == c then record e { active_command = none } else e
  | none ↦ e
]

unfoldable pub finish_command : Executor → Command → Executor
unfolding is_managed_command fail_unfinished_start release_gate
finish_command e c =
    if not (is_managed_command c) then e else release_gate (fail_unfinished_start e c) c
