-- ===== src/Executor/Recharge.antt =====
-- A stop of recharging while navigation starts up (src/CommandExecutor.cc, include/RobotFsm.h).
use rover_ops_jm.Prelude.{String, true, false, ◌≡◌, ◌∙◌, ap, arith}
use rover_ops_jm.Robot.State.{MotionMode, TaskStatus, RobotDto, mode_eq}
use rover_ops_jm.Robot.Fsm
use rover_ops_jm.Executor.Command.{Command, command_eq}
use rover_ops_jm.Executor.State.{Executor}
use rover_ops_jm.Executor.Gate.{
  finish_command, is_managed_command, release_gate, fail_unfinished_start,
}
use rover_ops_jm.Executor.Admission.{is_admitted, navigation_allows}
use rover_ops_jm.Executor.Navigation.{settle_env, complete_navigation_env_ready}
use rover_ops_jm.Executor.Service.{run_service, service_result, service_status}

-- The machine as a successful stop of recharging leaves it while navigation starts up, and as the
-- robot's report that the environment is up leaves it after that.
abbrev early_cancel : RobotDto → RobotDto
early_cancel s = Fsm.task_state s TaskStatus.cancelled

stop_recharge-behavior :
    (e : Executor)
    → Fsm.navigation_current e.behavior e.behavior.generation ≡ true
    → (run_service e Command.stop_recharge e.behavior.generation true).behavior
      ≡ early_cancel e.behavior
unfolding run_service service_result service_status finish_command is_managed_command
stop_recharge-behavior e h = ground arith

early_ready :
    (s : RobotDto) (text : String)
    → s.motion_mode ≡ MotionMode.starting_navigation
    → s.navigation_environment_ready ≡ false
    → ((early_cancel s).motion_mode ≡ MotionMode.navigation_ready)
      × ((Fsm.navigation_ready (early_cancel s) true text).navigation_environment_ready ≡ false)
unfolding Fsm.task_state Fsm.navigation_ready Fsm.is_navigation
early_ready s text h n = (ground arith, ground arith)

env-behavior :
    (e : Executor) (text : String)
    → e.navigation_env.pending ≡ true
    → e.behavior.motion_mode ≡ MotionMode.navigation_ready
    → (complete_navigation_env_ready e e.navigation_env.id true text).behavior
      ≡ Fsm.navigation_ready e.behavior true text
unfolding complete_navigation_env_ready settle_env finish_command is_managed_command release_gate
    fail_unfinished_start Fsm.is_navigation Fsm.navigation_ready
env-behavior e text p m = ground arith

stop_recharge-attempt :
    (e : Executor)
    → (run_service e Command.stop_recharge e.behavior.generation true).navigation_env
      ≡ e.navigation_env
unfolding run_service service_result service_status finish_command is_managed_command
stop_recharge-attempt e = ground arith

-- A stop of recharging is admitted while navigation starts up, and its success takes the machine
-- to NavigationReady at once. When the next thing that happens is that the robot says that the
-- environment is up, the machine does not note it: the environment is then not ready.
pub stop_recharge-early :
    (e : Executor) (text : String)
    → e.behavior.motion_mode ≡ MotionMode.starting_navigation
    → e.behavior.navigation_environment_ready ≡ false
    → e.navigation_env.pending ≡ true
    → (let early = run_service e Command.stop_recharge e.behavior.generation true in
        let up = complete_navigation_env_ready early early.navigation_env.id true text in
        (is_admitted e.behavior Command.stop_recharge ≡ true)
        × (early.behavior.motion_mode ≡ MotionMode.navigation_ready)
        × (up.behavior.navigation_environment_ready ≡ false))
unfolding is_admitted navigation_allows Fsm.is_navigation Fsm.navigation_current
stop_recharge-early e text h n p =
    let early = run_service e Command.stop_recharge e.behavior.generation true in
    let same = stop_recharge-behavior e (ground arith) in
    let (mode, lost) = early_ready e.behavior text h n in
    let ready = ap (λ s. s.motion_mode) same ∙ mode in
    (
      ground arith,
      ready,
      ap (λ s. s.navigation_environment_ready)
            (env-behavior early text (ap (λ a. a.pending) (stop_recharge-attempt e) ∙ p) ready
              ∙ ap (λ s. Fsm.navigation_ready s true text) same)
          ∙ lost,
    )
