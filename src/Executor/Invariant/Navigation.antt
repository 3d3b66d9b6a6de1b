-- ===== src/Executor/Invariant/Navigation.antt =====
-- The handlers of navigation and mapping, and the lines of /rosout, keep the rules.
use rover_ops_jm.Prelude.{
  ℕ, String, Bool, false, not, ◌||◌, ◌&&◌, ◌==◌, leb, nat_eq, if_keeps, arith,
}
use rover_ops_jm.Robot.State.{MotionMode, mode_eq}
use rover_ops_jm.Robot.Fsm.Rest.{
  IsAtRest, navigation_ready-IsAtRest, navigation_start_aborted-IsAtRest,
  localization_ready-IsAtRest,
}
use rover_ops_jm.Executor.Command.{Command}
use rover_ops_jm.Prelude.Texts.{text_eq}
use rover_ops_jm.Robot.Fsm
use rover_ops_jm.Executor.State.{Executor, Probe}
use rover_ops_jm.Executor.Rules.{IsSettled, settled}
use rover_ops_jm.Executor.Environment.{is_navigation_environment_running}
use rover_ops_jm.Executor.Navigation.{
  Run, StartRequest, abort_start, fail_startup, start_with_map, handle_start_navigation,
  startup_deployed, startup_threw, startup_lost, startup_announced, complete_navigation_env_ready,
  complete_initial_pose_result, complete_navigation_task_result, complete_clear_waypoints_result,
  handle_initial_pose, handle_navigation_task,
}
use rover_ops_jm.Executor.Invariant.Handlers.{with_behavior, with_points, finish_command-IsSettled}

-- A handler keeps the rules also when it throws.
pub data RunIsSettled : Run → Type 0 where
  returned : {e : Executor} → IsSettled e → RunIsSettled (Run.returned e)
  threw : {e : Executor} → IsSettled e → RunIsSettled (Run.threw e)

pub environment_check-IsSettled :
    (e : Executor) (p : Probe) → IsSettled e → IsSettled (is_navigation_environment_running e p).0
unfolding is_navigation_environment_running
environment_check-IsSettled e p v =
    if_keeps {A = Executor × Bool} (λ r. IsSettled r.0) _ v
      (if_keeps IsSettled (leb e.nav_process 0) (settled v.rules) (settled v.rules))

aborted-IsSettled :
    (e : Executor)
    → IsSettled e
    → IsSettled (record e { behavior = (Fsm.navigation_start_aborted e.behavior).0 })
aborted-IsSettled e v =
    settled (with_behavior _ v.rules (navigation_start_aborted-IsAtRest e.behavior v.rules.at_rest))

ready-IsSettled :
    (e : Executor) (success : Bool) (t : String)
    → IsSettled e
    → IsSettled (record e { behavior = Fsm.navigation_ready e.behavior success t })
ready-IsSettled e success t v =
    settled
      (with_behavior _ v.rules (navigation_ready-IsAtRest e.behavior success t v.rules.at_rest))

abort_start-IsSettled : (e : Executor) → IsSettled e → IsSettled (abort_start e)
unfolding abort_start
abort_start-IsSettled e v = finish_command-IsSettled _ _ (settled (aborted-IsSettled e v).rules)

fail_startup-IsSettled : (e : Executor) (t : String) → IsSettled e → IsSettled (fail_startup e t)
unfolding fail_startup
fail_startup-IsSettled e t v = finish_command-IsSettled _ _ (settled (aborted-IsSettled e v).rules)

start_with_map-IsSettled :
    (e : Executor) (r : StartRequest) → IsSettled e → RunIsSettled (start_with_map e r)
unfolding start_with_map
start_with_map-IsSettled e r v =
    if_keeps RunIsSettled (r.uuid == "") (returned (abort_start-IsSettled _ (settled v.rules))) (
      if_keeps RunIsSettled (not r.files_ok) (threw v) (
        if_keeps RunIsSettled (r.address == "" || r.display_name == "")
          (returned (abort_start-IsSettled _ (settled v.rules))) (returned (settled v.rules))))

pub handle_start_navigation-IsSettled :
    (e : Executor) (r : StartRequest) → IsSettled e → RunIsSettled (handle_start_navigation e r)
unfolding handle_start_navigation
handle_start_navigation-IsSettled e r v =
    let checked = environment_check-IsSettled e r.probe v in
    if_keeps RunIsSettled (is_navigation_environment_running e r.probe).1
      (returned (finish_command-IsSettled _ _ (settled checked.rules)))
      (if_keeps RunIsSettled _ (returned (settled checked.rules))
        (start_with_map-IsSettled _ r (settled checked.rules)))

pub startup_deployed-IsSettled :
    (e : Executor) (generation : ℕ) (deployed : Bool) (pid : ℕ)
    → IsSettled e
    → IsSettled (startup_deployed e generation deployed pid)
unfolding startup_deployed
startup_deployed-IsSettled e generation deployed pid v =
    if_keeps IsSettled (not (Fsm.navigation_current e.behavior generation)) v (
      if_keeps IsSettled (not deployed) (fail_startup-IsSettled e _ v)
        (if_keeps IsSettled (pid == 0) (fail_startup-IsSettled e _ v) (settled v.rules)))

pub startup_announced-IsSettled :
    (e : Executor) (generation : ℕ) (waited : Bool)
    → IsSettled e
    → IsSettled (startup_announced e generation waited)
unfolding startup_announced
startup_announced-IsSettled e generation waited v =
    if_keeps IsSettled (waited && Fsm.navigation_current e.behavior generation) (settled v.rules) v

pub startup_threw-IsSettled :
    (e : Executor) (generation : ℕ) (what : String)
    → IsSettled e
    → IsSettled (startup_threw e generation what)
unfolding startup_threw
startup_threw-IsSettled e generation what v =
    if_keeps IsSettled (not (Fsm.navigation_current e.behavior generation)) v (
      settled
        (finish_command-IsSettled _ Command.start_navigation (
          settled (
            with_behavior _ v.rules (
              if_keeps IsAtRest (leb e.nav_process 0)
                (navigation_start_aborted-IsAtRest e.behavior v.rules.at_rest)
                (navigation_ready-IsAtRest e.behavior false what v.rules.at_rest))))).rules)

pub startup_lost-IsSettled :
    (e : Executor) (reason what : String) → IsSettled e → IsSettled (startup_lost e reason what)
unfolding startup_lost
startup_lost-IsSettled e reason what v =
    settled
      (finish_command-IsSettled _ Command.start_navigation (
        settled (
          with_behavior _ v.rules (
            if_keeps IsAtRest (not (e.behavior.motion_mode == MotionMode.starting_navigation))
              v.rules.at_rest
              (if_keeps IsAtRest (leb e.nav_process 0)
                (navigation_start_aborted-IsAtRest e.behavior v.rules.at_rest)
                (navigation_ready-IsAtRest e.behavior false reason v.rules.at_rest)))))).rules

pub complete_env-IsSettled :
    (e : Executor) (attempt : ℕ) (success : Bool) (t : String)
    → IsSettled e
    → IsSettled (complete_navigation_env_ready e attempt success t)
unfolding complete_navigation_env_ready
complete_env-IsSettled e attempt success t v =
    let done = ready-IsSettled e success t v in
    if_keeps IsSettled (not e.navigation_env.pending || not (attempt == e.navigation_env.id)) v (
      if_keeps IsSettled (not (Fsm.is_navigation e.behavior.motion_mode)) (settled v.rules) (
        finish_command-IsSettled _ _
          (settled (if_keeps IsSettled success (settled done.rules) (settled done.rules)).rules)))

pub complete_pose-IsSettled :
    (e : Executor) (attempt : ℕ) (success : Bool) (t : String)
    → IsSettled e
    → IsSettled (complete_initial_pose_result e attempt success t)
unfolding complete_initial_pose_result
complete_pose-IsSettled e attempt success t v =
    if_keeps IsSettled (not (Fsm.is_navigation e.behavior.motion_mode)) v (
      if_keeps IsSettled (not e.initial_pose.pending || not (attempt == e.initial_pose.id)) v (
        finish_command-IsSettled _ _ (
          settled (
            with_behavior _ v.rules
              (localization_ready-IsAtRest e.behavior success v.rules.at_rest)))))

pub complete_task-IsSettled :
    (e : Executor) (attempt : ℕ) (success : Bool) (t : String)
    → IsSettled e
    → IsSettled (complete_navigation_task_result e attempt success t)
unfolding complete_navigation_task_result
complete_task-IsSettled e attempt success t v =
    if_keeps IsSettled (not (Fsm.is_navigation e.behavior.motion_mode)) v (
      if_keeps IsSettled (not e.navigation_task.pending || not (attempt == e.navigation_task.id)) v
        (finish_command-IsSettled _ _ (settled v.rules)))

pub complete_clear-IsSettled :
    (e : Executor) (attempt : ℕ) (success : Bool) (t : String)
    → IsSettled e
    → IsSettled (complete_clear_waypoints_result e attempt success t)
unfolding complete_clear_waypoints_result
complete_clear-IsSettled e attempt success t v =
    if_keeps IsSettled (not (Fsm.is_navigation e.behavior.motion_mode)) v (
      if_keeps IsSettled (not e.clear_waypoints.pending || not (attempt == e.clear_waypoints.id)) v
        (finish_command-IsSettled _ _ (finish_command-IsSettled _ _ (settled v.rules))))

pub handle_initial_pose-IsSettled :
    (e : Executor) (valid : Bool) → IsSettled e → RunIsSettled (handle_initial_pose e valid)
unfolding handle_initial_pose
handle_initial_pose-IsSettled e valid v =
    if_keeps RunIsSettled (not valid) (threw (settled v.rules)) (returned (settled v.rules))

pub handle_navigation_task-IsSettled :
    (e : Executor) (points : ℕ) (valid : Bool)
    → IsSettled e
    → RunIsSettled (handle_navigation_task e points valid)
unfolding handle_navigation_task
handle_navigation_task-IsSettled e points valid v =
    let fresh = with_points points 0 v.rules (λ h. omega arith) in
    if_keeps RunIsSettled (points == 0) (returned (finish_command-IsSettled e _ v))
      (if_keeps RunIsSettled valid (returned (settled fresh)) (threw (settled fresh)))
