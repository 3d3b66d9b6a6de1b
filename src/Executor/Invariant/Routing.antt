-- ===== src/Executor/Invariant/Routing.antt =====
-- Every handler of the routing table keeps the rules.
use rover_ops_jm.Prelude.{true, ◌||◌, ◌==◌, Option, none, some, if_keeps}
use rover_ops_jm.Robot.State.{mode_eq}
use rover_ops_jm.Executor.Command.{Command, command_eq}
use rover_ops_jm.Executor.State.{Executor}
use rover_ops_jm.Executor.Gate.{is_managed_command}
use rover_ops_jm.Executor.Navigation.{Run, handle_set_dock_pose}
use rover_ops_jm.Executor.Service.{exec_rosservice_cmd, handle_clear_waypoints_request}
use rover_ops_jm.Executor.Request.{Request, run_handler, handle_follow_backend_command}
use rover_ops_jm.Executor.Dispatch.{route}
use rover_ops_jm.Executor.Rules.{IsSettled, settled}
use rover_ops_jm.Executor.Invariant.Handlers.{
  finish_command-IsSettled, handle_task_state_request-IsSettled,
}
use rover_ops_jm.Executor.Invariant.FollowQueue.{
  handle_start_follow-IsSettled, follow_stop_command-IsSettled,
}
use rover_ops_jm.Executor.Invariant.Navigation.{
  RunIsSettled, returned, handle_start_navigation-IsSettled, handle_initial_pose-IsSettled,
  handle_navigation_task-IsSettled,
}
use rover_ops_jm.Executor.Invariant.Mapping.{
  handle_start_mapping_command-IsSettled, handle_stop_and_uploadmap-IsSettled, nav_upload-IsSettled,
}

follow_backend-IsSettled :
    (e : Executor) (r : Request) → IsSettled e → IsSettled (handle_follow_backend_command e r)
unfolding handle_follow_backend_command
follow_backend-IsSettled e r v =
    if_keeps IsSettled (r.backend_command == Command.start_follow)
      (handle_start_follow-IsSettled e true r.follow r.later_follows v)
      (if_keeps IsSettled
        (r.backend_command == Command.stop_follow || r.backend_command == Command.estop_follow)
        (follow_stop_command-IsSettled e (r.backend_command == Command.estop_follow) r.follow.reply
          v)
        (settled v.rules))

-- What a command without a handler answers, and what each handler does.
data Handled : Option Run → Type 0 where
  unhandled : Handled none
  handled : {r : Run} → RunIsSettled r → Handled (some r)

run_handler-Handled :
    (c : Command) (e : Executor) (r : Request) → IsSettled e → Handled (run_handler c e r)
unfolding run_handler handle_set_dock_pose exec_rosservice_cmd handle_clear_waypoints_request
run_handler-Handled Command.initial_pose e r v =
    handled (handle_initial_pose-IsSettled _ r.pose_valid (settled v.rules))
run_handler-Handled Command.start_navigation e r v =
    handled (handle_start_navigation-IsSettled _ r.start (settled v.rules))
run_handler-Handled Command.navigation_task e r v =
    handled (handle_navigation_task-IsSettled _ r.points r.points_valid (settled v.rules))
run_handler-Handled Command.pause_task e r v =
    handled (returned (handle_task_state_request-IsSettled e Command.pause_task v))
run_handler-Handled Command.resume_task e r v =
    handled (returned (handle_task_state_request-IsSettled e Command.resume_task v))
run_handler-Handled Command.start_mapping e r v =
    handled (returned (handle_start_mapping_command-IsSettled e r.mapping v))
run_handler-Handled Command.stop_and_uploadmap e r v =
    handled (returned (handle_stop_and_uploadmap-IsSettled _ (settled v.rules)))
run_handler-Handled Command.nav_upload_successful e r v =
    handled (returned (nav_upload-IsSettled e r.confirmation v))
run_handler-Handled Command.follow e r v = handled (returned (follow_backend-IsSettled e r v))
run_handler-Handled Command.set_dock_pose e r v = handled (returned (settled v.rules))
run_handler-Handled Command.start_task e r v = handled (returned (settled v.rules))
run_handler-Handled Command.cancel_task e r v = handled (returned (settled v.rules))
run_handler-Handled Command.start_recharge e r v = handled (returned (settled v.rules))
run_handler-Handled Command.stop_recharge e r v = handled (returned (settled v.rules))
run_handler-Handled Command.clear_waypoints e r v = handled (returned (settled v.rules))
run_handler-Handled Command.upload_require_file e r v = handled (returned (settled v.rules))
run_handler-Handled Command.bsy_test e r v = handled (returned v)
run_handler-Handled Command.action_control e r v = handled (returned (settled v.rules))
run_handler-Handled Command.control e r v = handled (returned (settled v.rules))
run_handler-Handled Command.hikvision e r v = handled (returned (settled v.rules))
run_handler-Handled Command.hikvision_continuous e r v = handled (returned (settled v.rules))
run_handler-Handled Command.set_position_upload_frequency e r v =
    handled (returned (settled v.rules))
run_handler-Handled Command.set_param e r v = handled (returned (settled v.rules))
run_handler-Handled Command.upload_broatcast e r v = handled (returned (settled v.rules))
run_handler-Handled _ e r v = unhandled

Handled-keeps :
    {o : Option Run} {d : Run}
    → Handled o
    → RunIsSettled d
    → RunIsSettled (elim o [ some done ↦ done | none ↦ d ])
Handled-keeps unhandled d = d
Handled-keeps (handled v) d = v

pub route-IsSettled : (e : Executor) (r : Request) → IsSettled e → RunIsSettled (route e r)
unfolding route
route-IsSettled e r v = Handled-keeps (run_handler-Handled r.command e r v) (
    returned (
      if_keeps IsSettled (is_managed_command r.command)
        (settled (finish_command-IsSettled e r.command v).rules) v))
