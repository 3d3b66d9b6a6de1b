-- ===== src/Executor/Startup/Begin.antt =====
-- A `start_navigation` in Idle reaches its start-up worker (src/CommandExecutor.cc).
use rover_ops_jm.Prelude.{
  ℕ, Bool, true, false, ◌||◌, ◌==◌, ◌≡◌, ◌≢◌, ◌∙◌, refl, Option, none, some, arith,
}
use rover_ops_jm.Prelude.Texts.{text_eq}
use rover_ops_jm.Robot.State.{MotionMode, HealthStatus, mode_eq, health_eq}
use rover_ops_jm.Robot.Fsm
use rover_ops_jm.Executor.Command.{Command, command_eq}
use rover_ops_jm.Executor.State.{Executor, Worker, report_command_received, announce_map, launch}
use rover_ops_jm.Executor.Gate.{is_managed_command, try_begin_command}
use rover_ops_jm.Executor.Admission.{is_admitted}
use rover_ops_jm.Executor.Environment.{
  is_navigation_environment_running, is_pid_still_running, forget_nav_process,
}
use rover_ops_jm.Executor.Navigation.{
  Run, StartRequest, clear_flags, start_with_map, handle_start_navigation,
}
use rover_ops_jm.Executor.Request.{Request, run_handler}
use rover_ops_jm.Executor.Dispatch.{admit_and_route, begin_behavior, route, robot_bt, execute}
use rover_ops_jm.Executor.Busy.{managed_behavior, managed_route, admitted_keeps}

-- The machine with the busy gate: where the start has come to.
pub record IsStage (mode : MotionMode) (ready located : Bool) (g : ℕ) (active : Option Command)
    (e : Executor) : Type 0 where
  pub mode_is : e.behavior.motion_mode ≡ mode
  pub is_ready : e.behavior.navigation_environment_ready ≡ ready
  pub is_located : e.behavior.localization_ready ≡ located
  pub current : e.behavior.generation ≡ g
  pub gate : e.active_command ≡ active

unfoldable pub taken : Executor → Command → Executor
taken e c = record e { active_command = some c }

pub free_route :
    (e : Executor) (r : Request)
    → e.active_command ≡ none
    → is_managed_command r.command ≡ true
    → r.command ≢ Command.stop_navigation
    → is_admitted e.behavior r.command ≡ true
    → (begin_behavior (taken e r.command) r.command).1 ≡ true
    → robot_bt e r ≡ route (begin_behavior (taken e r.command) r.command).0 r
unfolding admit_and_route try_begin_command taken
free_route e r f m n a b =
    managed_route e r m n a
    ∙ ground (arith, managed_behavior r.command m, admitted_keeps e r.command a)

-- A start that finds no environment and gets its map.
pub record IsGood (e : Executor) (s : StartRequest) : Type 0 where
  pub no_process : e.nav_process ≡ 0
  pub no_env : e.env_ready || e.localization_ready || s.probe.processes_found ≡ false
  pub uuid_given : (s.uuid == "") ≡ false
  pub files_given : s.files_ok ≡ true
  pub map_given : s.address == "" || s.display_name == "" ≡ false

no_environment :
    (e : Executor) (s : StartRequest)
    → IsGood e s
    → is_navigation_environment_running e s.probe ≡ (e, false)
unfolding is_navigation_environment_running is_pid_still_running forget_nav_process
no_environment e s v = ground (arith, v.no_process, v.no_env)

-- The start hands over to its worker.
unfoldable pub launched : Executor → StartRequest → Executor
launched e s =
    let announced = announce_map e s.address s.display_name in
    launch
      (record announced { env_ready = false; localization_ready = false; upload_enable = false })
      (Worker.navigation_startup e.behavior.generation)

handle_start-launched :
    (e : Executor) (s : StartRequest)
    → IsGood e s
    → Fsm.navigation_current e.behavior e.behavior.generation ≡ true
    → handle_start_navigation e s ≡ Run.returned (launched e s)
unfolding handle_start_navigation start_with_map clear_flags launched
handle_start-launched e s v c =
    rw (no_environment e s v) (ground (arith, v.uuid_given, v.files_given, v.map_given, c))

pub returned_run :
    (e d : Executor) (r : Request) → robot_bt e r ≡ Run.returned d → execute e true r ≡ d
unfolding execute
returned_run e d r h = rw h refl

unfoldable pub begun : Executor → Executor
begun e = record e {
  behavior = (Fsm.begin_navigation e.behavior).0;
  active_command = some Command.start_navigation;
}

module _ (e : Executor) (r : Request) (m : e.behavior.motion_mode ≡ MotionMode.idle)
    (health : (e.behavior.health == HealthStatus.un_healthy) ≡ false) (f : e.active_command ≡ none)
    (c : r.command ≡ Command.start_navigation) (v : IsGood e r.start) where
  start_goes :
      (is_managed_command r.command ≡ true)
      × (is_admitted e.behavior r.command ≡ true)
      × ((begin_behavior (taken e r.command) r.command).1 ≡ true)
  unfolding is_managed_command is_admitted begin_behavior Fsm.begin_navigation taken
  start_goes = (rw c refl, rw (c, m) refl, ground arith)

  start_current : Fsm.navigation_current (begun e).behavior (begun e).behavior.generation ≡ true
  unfolding Fsm.navigation_current Fsm.begin_navigation Fsm.is_navigation begun
  start_current = ground arith

  start-IsGood : IsGood (report_command_received (begun e) Command.start_navigation) r.start
  unfolding begun
  start-IsGood = record {
    no_process = v.no_process;
    no_env = v.no_env;
    uuid_given = v.uuid_given;
    files_given = v.files_given;
    map_given = v.map_given;
  }

  start_handled :
      route (begin_behavior (taken e r.command) r.command).0 r
      ≡ Run.returned (launched (report_command_received (begun e) Command.start_navigation) r.start)
  unfolding route run_handler begin_behavior begun taken
  start_handled = rw c (rw (handle_start-launched _ r.start start-IsGood start_current) refl)

  pub start_run :
      execute e true r
      ≡ launched (report_command_received (begun e) Command.start_navigation) r.start
  start_run =
      let (managed, admitted, begins) = start_goes in
      returned_run e _ r (free_route e r f managed (λ h. cc) admitted begins ∙ start_handled)
