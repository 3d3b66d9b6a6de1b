-- ===== src/Executor/Request.antt =====
-- A command with its payload, and the routing table of the three handler classes
-- (src/CommandExecutor.cc, src/handlers).
use rover_ops_jm.Prelude.{ℕ, Bool, true, ◌||◌, ◌==◌, if◌then◌else◌, List, ◌++◌, Option, none, some}
use rover_ops_jm.Executor.Command.{Command, command_eq}
use rover_ops_jm.Executor.State.{Executor, Message, report_command_received}
use rover_ops_jm.Executor.Environment.{Cleanup}
use rover_ops_jm.Executor.Follow.{
  FollowAnswers, handle_start_follow, handle_follow_stop_command, ask_backend,
}
use rover_ops_jm.Executor.Service.{
  exec_rosservice_cmd, handle_task_state_request, handle_clear_waypoints_request,
}
use rover_ops_jm.Executor.Navigation.{
  Run, StartRequest, handle_start_navigation, handle_initial_pose, handle_navigation_task,
  handle_set_dock_pose,
}
use rover_ops_jm.Executor.Mapping.{
  MappingStart, Confirmation, handle_start_mapping_command, handle_stop_and_uploadmap,
  handle_nav_upload_successful_command,
}

-- A command, what its handler reads of the payload, and what the outside answers it. `arrivals` are
-- the follow requests of other threads that find a stop under way, with their choice of backend.
pub record Request : Type 0 where
  pub command : Command
  pub is_safety_stop : Bool
  pub lock_free : Bool
  pub arrivals : List Bool
  pub cleanup : Cleanup
  pub follow : FollowAnswers
  pub later_follows : ℕ → FollowAnswers
  pub backend_command : Command
  pub start : StartRequest
  pub pose_valid : Bool
  pub points : ℕ
  pub points_valid : Bool
  pub dock_valid : Bool
  pub mapping : MappingStart
  pub confirmation : Confirmation
  pub device_replies : List Message

-- `handle_follow_backend_command`, by the `cmd` of the payload.
unfoldable pub handle_follow_backend_command : Executor → Request → Executor
unfolding ask_backend
handle_follow_backend_command e r =
    if r.backend_command == Command.start_follow
    then handle_start_follow e true r.follow r.later_follows
    else if r.backend_command == Command.stop_follow || r.backend_command == Command.estop_follow
    then handle_follow_stop_command e (r.backend_command == Command.estop_follow) r.follow.reply
    else (ask_backend e r.backend_command r.follow.reply).0

-- The devices behind the other commands keep their own state; here they only answer.
unfoldable pub device_answers : Executor → Request → Executor
device_answers e r = record e { sent = r.device_replies ++ e.sent }

unfoldable pub service : Executor → Command → Run
service e c = Run.returned (exec_rosservice_cmd (report_command_received e c) c)

-- The routing table of the three handler classes; `none` if no handler is registered.
unfoldable pub run_handler : Command → Executor → Request → Option Run
unfolding service device_answers
run_handler Command.initial_pose e r =
    some (handle_initial_pose (report_command_received e Command.initial_pose) r.pose_valid)
run_handler Command.start_navigation e r =
    some (handle_start_navigation (report_command_received e Command.start_navigation) r.start)
run_handler Command.navigation_task e r = some (
    handle_navigation_task (report_command_received e Command.navigation_task) r.points
      r.points_valid)
run_handler Command.set_dock_pose e r = some (
    Run.returned
      (handle_set_dock_pose (report_command_received e Command.set_dock_pose) r.dock_valid))
run_handler Command.start_task e r = some (service e Command.start_task)
run_handler Command.cancel_task e r = some (service e Command.cancel_task)
run_handler Command.start_recharge e r = some (service e Command.start_recharge)
run_handler Command.stop_recharge e r = some (service e Command.stop_recharge)
run_handler Command.pause_task e r =
    some (Run.returned (handle_task_state_request e Command.pause_task))
run_handler Command.resume_task e r =
    some (Run.returned (handle_task_state_request e Command.resume_task))
run_handler Command.clear_waypoints e r = some (Run.returned (handle_clear_waypoints_request e))
run_handler Command.start_mapping e r =
    some (Run.returned (handle_start_mapping_command e r.mapping))
run_handler Command.stop_and_uploadmap e r = some (
    Run.returned (handle_stop_and_uploadmap (report_command_received e Command.stop_and_uploadmap)))
run_handler Command.nav_upload_successful e r =
    some (Run.returned (handle_nav_upload_successful_command e r.confirmation))
run_handler Command.upload_require_file e r =
    some (Run.returned (report_command_received e Command.upload_require_file))
run_handler Command.bsy_test e r = some (Run.returned e)
run_handler Command.action_control e r =
    some (Run.returned (report_command_received e Command.action_control))
run_handler Command.control e r = some (Run.returned (report_command_received e Command.control))
run_handler Command.hikvision e r =
    some (Run.returned (device_answers (report_command_received e Command.hikvision) r))
run_handler Command.hikvision_continuous e r = some (Run.returned (device_answers e r))
run_handler Command.set_position_upload_frequency e r = some (Run.returned (device_answers e r))
run_handler Command.set_param e r = some (Run.returned (device_answers e r))
run_handler Command.upload_broatcast e r =
    some (Run.returned (report_command_received (device_answers e r) Command.upload_broatcast))
run_handler Command.follow e r = some (Run.returned (handle_follow_backend_command e r))
run_handler _ e r = none
