-- ===== src/Executor/Navigation.antt =====
-- Starting navigation, relocalizing and handing out waypoints (src/CommandExecutor.cc). A handler
-- that throws leaves the state as far as it came; `execute` catches the exception.
use rover_ops_jm.Prelude.{
  ℕ, String, Bool, true, false, ◌&&◌, ◌||◌, not, ◌==◌, nat_eq, leb, if◌then◌else◌,
}
use rover_ops_jm.Prelude.Texts.{text_eq}
use rover_ops_jm.Robot.State.{MotionMode, mode_eq}
use rover_ops_jm.Robot.Fsm
use rover_ops_jm.Executor.Command.{Command}
use rover_ops_jm.Executor.State.{
  Executor, Message, Outcome, Worker, Probe, send, launch, publish_fsm_state, open_attempt,
  close_attempt, announce_map, set_env_active, clear_environment,
}
use rover_ops_jm.Executor.Gate.{finish_command}
use rover_ops_jm.Executor.Environment.{is_navigation_environment_running}

pub data Run : Type 0 where
  returned : Executor → Run
  threw : Executor → Run

-- What `start_navigation` carries and what it is answered: the map service's uuid, and whether the
-- copies of the map files succeed.
pub record StartRequest : Type 0 where
  pub address : String
  pub display_name : String
  pub probe : Probe
  pub uuid : String
  pub files_ok : Bool

unfoldable pub clear_flags : Executor → Executor
clear_flags e = record e { env_ready = false; localization_ready = false; upload_enable = false }

-- An error before any process runs: tell, go back to Idle, free the gate.
unfoldable pub abort_start : Executor → Executor
abort_start e =
    let cleared = clear_environment e in
    finish_command (record cleared { behavior = (Fsm.navigation_start_aborted cleared.behavior).0 })
      Command.start_navigation

unfoldable pub start_with_map : Executor → StartRequest → Run
unfolding abort_start clear_flags
start_with_map e r =
    if r.uuid == ""
    then Run.returned (abort_start (send e (Message.ack_start_navigation "get uuid failed")))
    else if not r.files_ok
    then Run.threw e
    else let quiet = clear_flags e in
      if r.address == "" || r.display_name == ""
      then Run.returned
          (abort_start (send quiet (Message.ack_start_navigation "Missing map information")))
      else Run.returned (launch quiet (Worker.navigation_startup quiet.behavior.generation))

unfoldable pub handle_start_navigation : Executor → StartRequest → Run
unfolding start_with_map is_navigation_environment_running
handle_start_navigation e r =
    let (checked, running) = is_navigation_environment_running e r.probe in
    if running
    then Run.returned (
        finish_command
          (send checked (Message.ack_start_navigation "Navigation environment already running"))
          Command.start_navigation)
    else let announced = announce_map checked r.address r.display_name in
      if not (Fsm.navigation_current announced.behavior e.behavior.generation)
      then Run.returned announced
      else start_with_map announced r

-- The same once the start-up worker has the mutex; it tells the map status first.
unfoldable pub fail_startup : Executor → String → Executor
unfolding clear_flags
fail_startup e what =
    let told = send (clear_environment (clear_flags e)) (Message.ack_start_navigation what) in
    finish_command (record told { behavior = (Fsm.navigation_start_aborted told.behavior).0 })
      Command.start_navigation

-- The start-up worker once it has the map (or not) and the mutex; `pid` is 0 if the fork failed.
unfoldable pub startup_deployed : Executor → ℕ → Bool → ℕ → Executor
unfolding fail_startup
startup_deployed e generation deployed pid =
    if not (Fsm.navigation_current e.behavior generation)
    then e
    else if not deployed
    then fail_startup e "Map preparation failed"
    else if pid == 0
    then fail_startup e "Script Error: fork navigation failed"
    else let running = set_env_active (record e { nav_process = pid }) in
      let waiting = record running { navigation_env = open_attempt running.navigation_env } in
      launch waiting (Worker.navigation_env_timeout waiting.navigation_env.id)

-- The same worker five seconds later; `waited` is false when the program shuts down.
unfoldable pub startup_announced : Executor → ℕ → Bool → Executor
startup_announced e generation waited =
    if waited && Fsm.navigation_current e.behavior generation
    then send e (Message.ack_start_navigation "deployed and environment started")
    else e

-- Its `catch`.
unfoldable pub startup_threw : Executor → ℕ → String → Executor
startup_threw e generation what =
    if not (Fsm.navigation_current e.behavior generation)
    then e
    else let settled = record e {
      behavior =
          if leb e.nav_process 0
          then (Fsm.navigation_start_aborted e.behavior).0
          else Fsm.navigation_ready e.behavior false what;
    } in
      publish_fsm_state (finish_command settled Command.start_navigation) Command.start_navigation
        Outcome.failed what

-- What the launcher does with an exception that leaves the worker; `reason` is `what` behind
-- "Navigation startup exception: ".
unfoldable pub startup_lost : Executor → String → String → Executor
startup_lost e reason what =
    let settled = record e {
      behavior =
          if not (e.behavior.motion_mode == MotionMode.starting_navigation)
          then e.behavior
          else if leb e.nav_process 0
          then (Fsm.navigation_start_aborted e.behavior).0
          else Fsm.navigation_ready e.behavior false reason;
    } in
    publish_fsm_state (finish_command settled Command.start_navigation) Command.start_navigation
      Outcome.failed what

outcome : Bool → Outcome
outcome success = if success then Outcome.success else Outcome.failed

-- What the end of the wait for the environment, and for the pose, does before it frees the gate.
unfoldable pub settle_env : Executor → Bool → String → Executor
settle_env e success message =
    let settled = record e { behavior = Fsm.navigation_ready e.behavior success message } in
    let published =
      publish_fsm_state settled Command.start_navigation
        (if success then Outcome.ready else Outcome.failed) message in
    let flagged = record published {
      env_ready = success;
      localization_ready = false;
      upload_enable = false;
    } in
    let told = if success then set_env_active flagged else clear_environment flagged in
    send told (Message.initial_pose_ready success)

unfoldable pub complete_navigation_env_ready : Executor → ℕ → Bool → String → Executor
unfolding settle_env
complete_navigation_env_ready e attempt success message =
    if not e.navigation_env.pending || not (attempt == e.navigation_env.id)
    then e
    else let closed = record e { navigation_env = close_attempt e.navigation_env } in
      if not (Fsm.is_navigation closed.behavior.motion_mode)
      then closed
      else finish_command (settle_env closed success message) Command.start_navigation

unfoldable pub settle_pose : Executor → Bool → String → Executor
unfolding outcome
settle_pose e success message =
    let settled = record e {
      initial_pose = close_attempt e.initial_pose;
      upload_enable = success;
      localization_ready = success;
      behavior = Fsm.localization_ready e.behavior success;
    } in
    send (publish_fsm_state settled Command.initial_pose (outcome success) message)
      (Message.ack_initial_pose success message)

unfoldable pub complete_initial_pose_result : Executor → ℕ → Bool → String → Executor
unfolding settle_pose
complete_initial_pose_result e attempt success message =
    if not (Fsm.is_navigation e.behavior.motion_mode)
    then e
    else if not e.initial_pose.pending || not (attempt == e.initial_pose.id)
    then e
    else finish_command (settle_pose e success message) Command.initial_pose

unfoldable pub complete_navigation_task_result : Executor → ℕ → Bool → String → Executor
complete_navigation_task_result e attempt success message =
    if not (Fsm.is_navigation e.behavior.motion_mode)
    then e
    else if not e.navigation_task.pending || not (attempt == e.navigation_task.id)
    then e
    else let closed = record e { navigation_task = close_attempt e.navigation_task } in
      finish_command
        (send closed (
          Message.ack_navigation_task success closed.confirmed_points closed.expected_points
            message))
        Command.navigation_task

unfoldable pub complete_clear_waypoints_result : Executor → ℕ → Bool → String → Executor
complete_clear_waypoints_result e attempt success message =
    if not (Fsm.is_navigation e.behavior.motion_mode)
    then e
    else if not e.clear_waypoints.pending || not (attempt == e.clear_waypoints.id)
    then e
    else let closed = record e { clear_waypoints = close_attempt e.clear_waypoints } in
      finish_command
        (finish_command (send closed (Message.ack_clear_waypoints success message))
          Command.clear_waypoints)
        Command.stop_add_point

-- `valid` is false when the pose in the payload is not of the shape that the handler reads.
unfoldable pub handle_initial_pose : Executor → Bool → Run
handle_initial_pose e valid =
    let waiting = record e {
      initial_pose = open_attempt e.initial_pose;
      upload_enable = false;
      localization_ready = false;
    } in
    if not valid
    then Run.threw waiting
    else Run.returned (launch waiting (Worker.initial_pose_timeout waiting.initial_pose.id))

-- `points` is the number of target points; `valid` is false when one of them cannot be read.
unfoldable pub handle_navigation_task : Executor → ℕ → Bool → Run
handle_navigation_task e points valid =
    if points == 0
    then Run.returned (finish_command e Command.navigation_task)
    else let waiting = record e {
      last_relocalized_round = 0;
      reached_points = 0;
      total_points = points;
      execution_active = true;
      navigation_task = open_attempt e.navigation_task;
      expected_points = points;
      confirmed_points = 0;
    } in
      let launched = launch waiting (Worker.navigation_task_timeout waiting.navigation_task.id) in
      if valid then Run.returned launched else Run.threw launched

unfoldable pub handle_set_dock_pose : Executor → Bool → Executor
handle_set_dock_pose e valid = send e (Message.dock_pose_reply valid)
