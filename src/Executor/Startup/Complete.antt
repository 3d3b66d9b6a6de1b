-- ===== src/Executor/Startup/Complete.antt =====
-- A start of navigation, from the command in Idle to the running task (src/CommandExecutor.cc).
use rover_ops_jm.Prelude.{
  ℕ, suc, true, false, ◌==◌, List, [], ◌∷◌, ◌≡◌, sym, subst, refl, none, some, arith,
}
use rover_ops_jm.Robot.State.{MotionMode, HealthStatus, health_eq}
use rover_ops_jm.Robot.Fsm
use rover_ops_jm.Executor.Command.{Command}
use rover_ops_jm.Executor.State.{Executor}
use rover_ops_jm.Executor.Request.{Request}
use rover_ops_jm.Executor.Dispatch.{execute}
use rover_ops_jm.Executor.Rosout.{Line}
use rover_ops_jm.Executor.Step.{Event, run}
use rover_ops_jm.Executor.Startup.Begin.{IsStage, IsGood, begun, launched, start_run}
use rover_ops_jm.Executor.Startup.Stages.{deployed-IsStage, tomogram-IsStage, initialized-IsStage}
use rover_ops_jm.Executor.Startup.Task.{pose-IsStage, task-IsStage, service-IsStage}

-- An idle and healthy machine with a free gate, and a start that finds no environment and gets its
-- map.
pub record IsStartable (e : Executor) (r : Request) : Type 0 where
  pub idle : e.behavior.motion_mode ≡ MotionMode.idle
  pub healthy : (e.behavior.health == HealthStatus.un_healthy) ≡ false
  pub not_ready : e.behavior.navigation_environment_ready ≡ false
  pub not_located : e.behavior.localization_ready ≡ false
  pub free : e.active_command ≡ none
  pub command : r.command ≡ Command.start_navigation
  pub good : IsGood e r.start

start-IsStage :
    (e : Executor) (r : Request)
    → IsStartable e r
    → IsStage MotionMode.starting_navigation false false
        (Fsm.next_generation e.behavior.generation)
        (some Command.start_navigation)
        (execute e true r)
unfolding launched begun Fsm.begin_navigation
start-IsStage e r v =
    subst
      (IsStage MotionMode.starting_navigation false false
        (Fsm.next_generation e.behavior.generation) (some Command.start_navigation))
      (sym (start_run e r v.idle v.healthy v.free v.command v.good))
      (record {
        mode_is = ground (arith, v.idle, v.healthy);
        is_ready = ground (arith, v.idle, v.healthy, v.not_ready);
        is_located = ground (arith, v.idle, v.healthy, v.not_located);
        current = ground (arith, v.idle, v.healthy);
        gate = refl;
      })

-- What happens after the command: the start-up worker gets its map and its process, the robot
-- exports the map, a pose is sent and found, the task is started and its service succeeds.
abbrev pub start_events : ℕ → ℕ → Request → Request → Request → List Event
start_events g pid start pose task =
    Event.command true start
    ∷ Event.deployed g true (suc pid)
    ∷ Event.log_line none Line.tomogram_exported
    ∷ Event.command true pose
    ∷ Event.log_line none Line.initialized
    ∷ Event.command true task
    ∷ Event.service Command.start_task g true
    ∷ []

-- From an idle and healthy machine with a free gate, a start of navigation that finds no environment
-- and gets its map and its process, followed by the robot's word that the map is exported, a valid
-- pose that is found, and a start of the task whose service succeeds, ends with the robot navigating
-- and the gate free.
pub start-navigating :
    (e : Executor) (start pose task : Request) (pid : ℕ)
    → IsStartable e start
    → pose.command ≡ Command.initial_pose
    → pose.pose_valid ≡ true
    → task.command ≡ Command.start_task
    → (let done =
          run e (start_events (Fsm.next_generation e.behavior.generation) pid start pose task) in
        (done.behavior.motion_mode ≡ MotionMode.navigating) × (done.active_command ≡ none))
unfolding run
start-navigating e start pose task pid v p valid t =
    let g = Fsm.next_generation e.behavior.generation in
    let (deployed, waits) = deployed-IsStage g _ pid (start-IsStage e start v) in
    let ready = tomogram-IsStage g _ waits deployed in
    let (posed, asks) = pose-IsStage g _ pose p valid ready in
    let located = initialized-IsStage g _ asks posed in
    let done = service-IsStage g _ (task-IsStage g _ task t located) in (done.mode_is, done.gate)
