-- ===== src/Executor/Dispatch.antt =====
-- The way of a command from the gateway to its handler (src/CommandExecutor.cc): the device check,
-- the behaviour rules, the busy gate, the routing table and the exception handler.
use rover_ops_jm.Prelude.{
  String, Bool, true, false, ◌&&◌, not, ◌==◌, leb, if◌then◌else◌, none, some,
}
use rover_ops_jm.Robot.State.{MotionMode, mode_eq}
use rover_ops_jm.Robot.Fsm
use rover_ops_jm.Executor.Command.{Command, command_eq}
use rover_ops_jm.Executor.State.{Executor, Outcome, publish_fsm_state, clear_environment}
use rover_ops_jm.Executor.Gate.{is_managed_command, try_begin_command, finish_command}
use rover_ops_jm.Executor.Admission.{reject, admit_behavior_command, admit_web_motion_command}
use rover_ops_jm.Executor.Environment.{handle_stop_navigation, invalidate_navigation_requests}
use rover_ops_jm.Executor.Follow.{
  queue_arrivals, process_pending_follow_request, handle_start_follow, handle_stop_follow,
}
use rover_ops_jm.Executor.Navigation.{Run}
use rover_ops_jm.Executor.Mapping.{is_running}
use rover_ops_jm.Executor.Request.{Request, run_handler}

unfoldable pub is_behavior_command : Command → Bool
unfolding is_managed_command
is_behavior_command Command.pause_task = true
is_behavior_command Command.resume_task = true
is_behavior_command Command.start_recharge = true
is_behavior_command Command.stop_recharge = true
is_behavior_command Command.set_dock_pose = true
is_behavior_command c = is_managed_command c

-- A stop that has begun, up to the end of the clean-up.
unfoldable pub halt_navigation : Executor → Request → Executor × Bool
unfolding queue_arrivals handle_stop_navigation invalidate_navigation_requests
halt_navigation e r =
    handle_stop_navigation
      (queue_arrivals
        (invalidate_navigation_requests (record e { behavior = (Fsm.begin_stop e.behavior).0 }))
        r.arrivals)
      r.cleanup

-- Its end; a follow that was queued meanwhile is served.
unfoldable pub settle_stop : Executor → Bool → Request → Executor
unfolding process_pending_follow_request
settle_stop e is_stopped r =
    let settled = record e {
      behavior =
          Fsm.stopped e.behavior is_stopped (if is_stopped then "" else "Navigation cleanup failed")
            false;
    } in
    process_pending_follow_request r.later_follows (
      publish_fsm_state settled Command.stop_navigation
        (if is_stopped then Outcome.success else Outcome.failed) "")

-- The branch for `stop_navigation`.
unfoldable pub stop_navigation : Executor → Request → Executor
unfolding halt_navigation settle_stop reject
stop_navigation e r =
    let (cleaned, is_stopped) = halt_navigation e r in
    if not (Fsm.begin_stop e.behavior).1
    then reject e Command.stop_navigation
    else settle_stop cleaned is_stopped r

-- From the routing table on.
unfoldable pub route : Executor → Request → Run
route e r = elim (run_handler r.command e r) [
  | some done ↦ done
  | none ↦ Run.returned (
      if is_managed_command r.command
      then publish_fsm_state (finish_command e r.command) r.command Outcome.rejected "命令未实现"
      else e)
]

-- The transitions that belong to a start, once the busy gate is taken.
unfoldable pub begin_behavior : Executor → Command → Executor × Bool
begin_behavior e Command.start_navigation =
    let (s, begun) = Fsm.begin_navigation e.behavior in (record e { behavior = s }, begun)
begin_behavior e Command.start_mapping =
    let (s, begun) = Fsm.begin_mapping e.behavior in (record e { behavior = s }, begun)
begin_behavior e c = (e, true)

-- Admission, the busy gate and the routing.
unfoldable pub admit_and_route : Executor → Request → Run
unfolding begin_behavior route
admit_and_route e r =
    let (admitted, allowed) =
      if is_behavior_command r.command then admit_behavior_command e r.command else (e, true) in
    let (gated, free) = try_begin_command admitted r.command in
    let (begun, ok) = begin_behavior gated r.command in
    if not allowed
    then Run.returned admitted
    else if not free
    then Run.returned gated
    else if not ok
    then Run.returned (reject (finish_command begun r.command) r.command)
    else route begun r

unfoldable pub is_start : Command → Bool
is_start Command.start_navigation = true
is_start Command.start_mapping = true
is_start _ = false

unfoldable pub is_web_motion : Command → Bool
is_web_motion Command.action_control = true
is_web_motion Command.control = true
is_web_motion _ = false

unfoldable pub robot_bt : Executor → Request → Run
unfolding is_start is_web_motion
robot_bt e r =
    let (motion, moved) = admit_web_motion_command e r.command r.is_safety_stop r.lock_free in
    if r.command == Command.get_fsm_state
    then Run.returned (publish_fsm_state e r.command Outcome.success "")
    else if r.command == Command.start_follow
    then Run.returned (handle_start_follow e false r.follow r.later_follows)
    else if r.command == Command.stop_follow
    then Run.returned (handle_stop_follow e r.follow.reply)
    else if is_start r.command && not (e.behavior.motion_mode == MotionMode.idle)
    then Run.returned (reject e r.command)
    else if is_web_motion r.command && not moved
    then Run.returned motion
    else if r.command == Command.set_param && not (e.behavior.motion_mode == MotionMode.idle)
    then Run.returned (reject e r.command)
    else if r.command == Command.stop_navigation
    then Run.returned (stop_navigation e r)
    else admit_and_route e r

-- The `catch` of `execute`.
unfoldable pub settle_exception : Executor → Command → String → Executor
settle_exception e Command.start_navigation what =
    if not (e.behavior.motion_mode == MotionMode.starting_navigation)
    then e
    else let cleared = clear_environment e in
      if leb cleared.nav_process 0
      then record cleared { behavior = (Fsm.navigation_start_aborted cleared.behavior).0 }
      else cleared
settle_exception e Command.start_mapping what =
    if e.behavior.motion_mode == MotionMode.mapping
    then record e { behavior = (Fsm.mapping e.behavior (is_running e)).0 }
    else e
settle_exception e Command.stop_and_uploadmap what =
    if not (e.behavior.motion_mode == MotionMode.mapping)
    then e
    else if is_running e
    then record e { behavior = (Fsm.mapping e.behavior true).0 }
    else record e { behavior = (Fsm.mapping_failed e.behavior what).0 }
settle_exception e Command.nav_upload_successful what =
    if e.behavior.motion_mode == MotionMode.mapping_processing
    then record e { behavior = (Fsm.mapping_failed e.behavior what).0 }
    else e
settle_exception e c what = e

-- `for_this_robot` is false when the payload names another device.
unfoldable pub execute : Executor → Bool → Request → Executor
unfolding settle_exception
execute e for_this_robot r = if not for_this_robot then e else elim (robot_bt e r) [
  | Run.returned done ↦ done
  | Run.threw left ↦ finish_command (settle_exception left r.command "命令异常") r.command
]
