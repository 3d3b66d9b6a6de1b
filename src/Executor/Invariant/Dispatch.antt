-- ===== src/Executor/Invariant/Dispatch.antt =====
-- Every command keeps the rules, and so does every step of the executor.
use rover_ops_jm.Prelude.{
  String, Bool, true, false, ◌&&◌, not, ◌==◌, leb, refl, if_keeps, arith, subst, sym,
}
use rover_ops_jm.Robot.State.{MotionMode, mode_eq}
use rover_ops_jm.Robot.Fsm.Rest.{
  initial-IsAtRest, begin_navigation-IsAtRest, begin_mapping-IsAtRest,
  navigation_start_aborted-IsAtRest, mapping-IsAtRest, mapping_failed-IsAtRest,
}
use rover_ops_jm.Executor.Command.{Command, command_eq}
use rover_ops_jm.Executor.State.{Executor, start_state}
use rover_ops_jm.Executor.Admission.{
  reject, is_admitted, admit_behavior_command, admit_web_motion_command,
}
use rover_ops_jm.Executor.Mapping.{is_running}
use rover_ops_jm.Executor.Request.{Request}
use rover_ops_jm.Executor.Dispatch.{
  begin_behavior, is_behavior_command, admit_and_route, is_start, is_web_motion, robot_bt,
  settle_exception, execute,
}
use rover_ops_jm.Executor.Step.{Event, step, Reach}
use rover_ops_jm.Executor.Rules.{IsSettled, settled}
use rover_ops_jm.Executor.Invariant.Handlers.{
  finish_command-IsSettled, try_begin_command-IsSettled, run_service-IsSettled,
}
use rover_ops_jm.Executor.Invariant.FollowQueue.{
  handle_start_follow-IsSettled, stop_follow-IsSettled,
}
use rover_ops_jm.Executor.Invariant.Navigation.{
  RunIsSettled, returned, startup_deployed-IsSettled, startup_announced-IsSettled,
  startup_threw-IsSettled, complete_env-IsSettled, complete_pose-IsSettled, complete_task-IsSettled,
  complete_clear-IsSettled,
}
use rover_ops_jm.Executor.Invariant.Mapping.{
  moved-IsSettled, run_keeps, stop_and_upload-IsSettled, mapping_expired-IsSettled,
}
use rover_ops_jm.Executor.Invariant.Loss.{lose-IsSettled}
use rover_ops_jm.Executor.Invariant.Routing.{route-IsSettled}
use rover_ops_jm.Executor.Invariant.Stop.{stop_navigation-IsSettled}
use rover_ops_jm.Executor.Invariant.Rosout.{rosout-IsSettled}

reject-IsSettled : (e : Executor) (c : Command) → IsSettled e → IsSettled (reject e c)
unfolding reject
reject-IsSettled e c v = settled v.rules

begin_behavior-IsSettled :
    (e : Executor) (c : Command) → IsSettled e → IsSettled (begin_behavior e c).0
unfolding begin_behavior
begin_behavior-IsSettled e Command.start_navigation v =
    moved-IsSettled e _ (begin_navigation-IsAtRest e.behavior v.rules.at_rest) v
begin_behavior-IsSettled e Command.start_mapping v =
    moved-IsSettled e _ (begin_mapping-IsAtRest e.behavior v.rules.at_rest) v
begin_behavior-IsSettled e _ v = v

admit_behavior_command-IsSettled :
    (e : Executor) (c : Command) → IsSettled e → IsSettled (admit_behavior_command e c).0
unfolding admit_behavior_command
admit_behavior_command-IsSettled e c v =
    if_keeps {A = Executor × Bool} (λ r. IsSettled r.0) (is_admitted e.behavior c) v
      (settled v.rules)

admit_and_route-IsSettled :
    (e : Executor) (r : Request) → IsSettled e → RunIsSettled (admit_and_route e r)
unfolding admit_and_route is_behavior_command admit_behavior_command
admit_and_route-IsSettled e r v =
    let admitted =
      if_keeps {A = Executor × Bool} (λ r. IsSettled r.0) (is_behavior_command r.command)
        {x = admit_behavior_command e r.command} {y = (e, true)}
        (admit_behavior_command-IsSettled e r.command v) v in
    let gated = try_begin_command-IsSettled _ r.command admitted in
    let begun = begin_behavior-IsSettled _ r.command gated in
    if_keeps RunIsSettled _ (returned admitted) (
      if_keeps RunIsSettled _ (returned gated) (
        if_keeps RunIsSettled _
          (returned (reject-IsSettled _ r.command (finish_command-IsSettled _ r.command begun)))
          (route-IsSettled _ r begun)))

admit_web_motion-IsSettled :
    (e : Executor) (c : Command) (a b : Bool)
    → IsSettled e
    → IsSettled (admit_web_motion_command e c a b).0
unfolding admit_web_motion_command
admit_web_motion-IsSettled e c a b v =
    if_keeps {A = Executor × Bool} (λ r. IsSettled r.0) a v
      (if_keeps {A = Executor × Bool} (λ r. IsSettled r.0) (not b) (settled v.rules)
        (if_keeps {A = Executor × Bool} (λ r. IsSettled r.0)
          (e.behavior.motion_mode == MotionMode.idle) v (settled v.rules)))

robot_bt-IsSettled : (e : Executor) (r : Request) → IsSettled e → RunIsSettled (robot_bt e r)
unfolding robot_bt
robot_bt-IsSettled e r v =
    let idle = e.behavior.motion_mode == MotionMode.idle in
    if_keeps RunIsSettled (r.command == Command.get_fsm_state) (returned (settled v.rules)) (
      if_keeps RunIsSettled (r.command == Command.start_follow)
        (returned (handle_start_follow-IsSettled e false r.follow r.later_follows v))
        (if_keeps RunIsSettled (r.command == Command.stop_follow)
          (returned (stop_follow-IsSettled e r.follow.reply v))
          (if_keeps RunIsSettled (is_start r.command && not idle)
            (returned (reject-IsSettled e r.command v))
            (if_keeps RunIsSettled
              (is_web_motion r.command
                && not (admit_web_motion_command e r.command r.is_safety_stop r.lock_free).1)
              (returned (admit_web_motion-IsSettled e r.command r.is_safety_stop r.lock_free v))
              (if_keeps RunIsSettled (r.command == Command.set_param && not idle)
                (returned (reject-IsSettled e r.command v))
                (if_keeps RunIsSettled (r.command == Command.stop_navigation)
                  (returned (stop_navigation-IsSettled e r v))
                  (admit_and_route-IsSettled e r v)))))))

settle_exception-IsSettled :
    (e : Executor) (c : Command) (what : String)
    → IsSettled e
    → IsSettled (settle_exception e c what)
unfolding settle_exception
settle_exception-IsSettled e Command.start_navigation what v =
    if_keeps IsSettled (not (e.behavior.motion_mode == MotionMode.starting_navigation)) v (
      if_keeps IsSettled (leb e.nav_process 0)
        (settled
          (moved-IsSettled e _ (navigation_start_aborted-IsAtRest e.behavior v.rules.at_rest)
            v).rules)
        (settled v.rules))
settle_exception-IsSettled e Command.start_mapping what v =
    if_keeps IsSettled (e.behavior.motion_mode == MotionMode.mapping)
      (moved-IsSettled e _ (mapping-IsAtRest e.behavior (is_running e) v.rules.at_rest) v) v
settle_exception-IsSettled e Command.stop_and_uploadmap what v =
    if_keeps IsSettled (not (e.behavior.motion_mode == MotionMode.mapping)) v (
      if_keeps IsSettled (is_running e)
        (moved-IsSettled e _ (mapping-IsAtRest e.behavior true v.rules.at_rest) v)
        (moved-IsSettled e _ (mapping_failed-IsAtRest e.behavior what v.rules.at_rest) v))
settle_exception-IsSettled e Command.nav_upload_successful what v =
    if_keeps IsSettled (e.behavior.motion_mode == MotionMode.mapping_processing)
      (moved-IsSettled e _ (mapping_failed-IsAtRest e.behavior what v.rules.at_rest) v) v
settle_exception-IsSettled e _ what v = v

execute-IsSettled :
    (e : Executor) (mine : Bool) (r : Request) → IsSettled e → IsSettled (execute e mine r)
unfolding execute
execute-IsSettled e mine r v = if_keeps IsSettled (not mine) v (
    run_keeps (robot_bt e r) (λ d w. w)
      (λ d w.
        finish_command-IsSettled _ r.command (settle_exception-IsSettled d r.command "命令异常" w))
      (robot_bt-IsSettled e r v))

-- Every step keeps the rules, whatever the event and the answers of the outside.
pub step-IsSettled : (e : Executor) (event : Event) → IsSettled e → IsSettled (step e event)
unfolding step
step-IsSettled e (Event.command mine r) v = execute-IsSettled e mine r v
step-IsSettled e (Event.deployed generation ok pid) v =
    startup_deployed-IsSettled e generation ok pid v
step-IsSettled e (Event.announced generation waited) v =
    startup_announced-IsSettled e generation waited v
step-IsSettled e (Event.startup_exception generation what) v =
    startup_threw-IsSettled e generation what v
step-IsSettled e (Event.loss worker reason what) v = lose-IsSettled worker e reason what v
step-IsSettled e (Event.env_timeout attempt) v = complete_env-IsSettled e attempt false _ v
step-IsSettled e (Event.pose_timeout attempt) v = complete_pose-IsSettled e attempt false _ v
step-IsSettled e (Event.task_timeout attempt) v = complete_task-IsSettled e attempt false _ v
step-IsSettled e (Event.clear_timeout attempt) v = complete_clear-IsSettled e attempt false _ v
step-IsSettled e (Event.service c generation success) v =
    run_service-IsSettled e c generation success v
step-IsSettled e (Event.upload m) v = stop_and_upload-IsSettled e m v
step-IsSettled e (Event.mapping_expired attempt) v = mapping_expired-IsSettled e attempt v
step-IsSettled e (Event.log_line round line) v = rosout-IsSettled e round line v
step-IsSettled e Event.localization v = settled v.rules
step-IsSettled e (Event.localization_system ready) v = if_keeps IsSettled ready v (settled v.rules)

start_state-IsSettled : IsSettled start_state
unfolding start_state
start_state-IsSettled = settled (record {
  at_rest = initial-IsAtRest;
  no_follow = refl;
  not_processing = refl;
  served = record { no_requests = λ h. refl; no_transition = λ h. refl };
  progress = λ h. omega arith;
})

-- In every state that the executor reaches, by any commands, lines of /rosout and ends of workers in
-- any order and with any answers of the outside, its rules hold: the machine is consistent and no
-- stop is half done, no follow is left in the queue, pause and resume requests wait only while their
-- worker runs, and the progress of a task stays within its points.
pub Reach-IsSettled : {e : Executor} → Reach e → IsSettled e
Reach-IsSettled Reach.here = start_state-IsSettled
Reach-IsSettled (Reach.next event r q) =
    subst IsSettled (sym q) (step-IsSettled _ event (Reach-IsSettled r))
