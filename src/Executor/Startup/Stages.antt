-- ===== src/Executor/Startup/Stages.antt =====
-- The stages of a start of navigation after its first command (src/CommandExecutor.cc).
use rover_ops_jm.Prelude.{
  ℕ, suc, String, Bool, true, false, ◌==◌, nat_eq, ◌≡◌, ◌≢◌, sym, subst, refl, none, some, arith,
}
use rover_ops_jm.Robot.State.{MotionMode, mode_eq}
use rover_ops_jm.Robot.Fsm
use rover_ops_jm.Executor.Command.{Command, command_eq}
use rover_ops_jm.Executor.State.{Executor, close_attempt}
use rover_ops_jm.Executor.Gate.{
  is_managed_command, finish_command, fail_unfinished_start, release_gate,
}
use rover_ops_jm.Executor.Navigation.{
  startup_deployed, settle_env, settle_pose, complete_navigation_env_ready,
  complete_initial_pose_result,
}
use rover_ops_jm.Executor.Rosout.{Line, round_line, handle_line, rosout}
use rover_ops_jm.Executor.Startup.Begin.{IsStage}

-- The end of a managed command at the gate, once the machine does not start up any more.
pub finish-IsStage :
    (mode : MotionMode) (ready located : Bool) (g : ℕ) (c : Command) (e : Executor)
    → is_managed_command c ≡ true
    → mode ≢ MotionMode.starting_navigation
    → (c == c) ≡ true
    → IsStage mode ready located g (some c) e
    → IsStage mode ready located g none (finish_command e c)
unfolding finish_command fail_unfinished_start release_gate
finish-IsStage mode ready located g c e m n same v = record {
  mode_is = ground (arith, v.mode_is, v.gate);
  is_ready = ground (arith, v.mode_is, v.is_ready, v.gate);
  is_located = ground (arith, v.mode_is, v.is_located, v.gate);
  current = ground (arith, v.mode_is, v.current, v.gate);
  gate = ground (arith, v.mode_is, v.gate);
}

module _ (g : ℕ) (e : Executor) where
  -- The map is there and the process runs: the executor waits for the environment.
  pub deployed-IsStage :
      (pid : ℕ)
      → IsStage MotionMode.starting_navigation false false g (some Command.start_navigation) e
      → IsStage MotionMode.starting_navigation false false g
          (some Command.start_navigation)
          (startup_deployed e g true (suc pid))
        × ((startup_deployed e g true (suc pid)).navigation_env.pending ≡ true)
  unfolding startup_deployed Fsm.navigation_current Fsm.is_navigation
  deployed-IsStage pid v = (
    record {
      mode_is = ground (arith, v.mode_is, v.current);
      is_ready = ground (arith, v.mode_is, v.current, v.is_ready);
      is_located = ground (arith, v.mode_is, v.current, v.is_located);
      current = ground (arith, v.mode_is, v.current);
      gate = ground (arith, v.mode_is, v.current, v.gate);
    },
    ground (arith, v.mode_is, v.current),
  )

  -- The robot says that the environment is up.
  tomogram-settle :
      e.navigation_env.pending ≡ true
      → e.behavior.motion_mode ≡ MotionMode.starting_navigation
      → rosout e none Line.tomogram_exported
        ≡ finish_command
            (settle_env
              (record e { navigation_env = close_attempt e.navigation_env })
              true
              "Tomogram exported")
            Command.start_navigation
  unfolding rosout round_line handle_line complete_navigation_env_ready Fsm.is_navigation
  tomogram-settle p m = ground arith

  settle_env-IsStage :
      (text : String)
      → IsStage MotionMode.starting_navigation false false g (some Command.start_navigation) e
      → IsStage MotionMode.navigation_ready true false g
          (some Command.start_navigation)
          (settle_env e true text)
  unfolding settle_env Fsm.navigation_ready
  settle_env-IsStage text v = record {
    mode_is = ground (arith, v.mode_is);
    is_ready = ground (arith, v.mode_is);
    is_located = ground (arith, v.mode_is, v.is_located);
    current = ground (arith, v.mode_is, v.current);
    gate = v.gate;
  }

  -- The localization finds its pose.
  settle_pose-IsStage :
      (text : String)
      → IsStage MotionMode.navigation_ready true false g (some Command.initial_pose) e
      → IsStage MotionMode.navigation_ready true true g
          (some Command.initial_pose)
          (settle_pose e true text)
  unfolding settle_pose Fsm.localization_ready Fsm.is_navigation
  settle_pose-IsStage text v = record {
    mode_is = ground (arith, v.mode_is);
    is_ready = ground (arith, v.mode_is, v.is_ready);
    is_located = ground (arith, v.mode_is, v.is_located);
    current = ground (arith, v.mode_is, v.current);
    gate = v.gate;
  }

  initialized-settle :
      e.initial_pose.pending ≡ true
      → e.behavior.motion_mode ≡ MotionMode.navigation_ready
      → rosout e none Line.initialized
        ≡ finish_command (settle_pose e true "Initialize successfully!!!!!!") Command.initial_pose
  unfolding rosout round_line handle_line complete_initial_pose_result Fsm.is_navigation
  initialized-settle p m = ground arith

module _ (g : ℕ) (e : Executor) where
  pub tomogram-IsStage :
      e.navigation_env.pending ≡ true
      → IsStage MotionMode.starting_navigation false false g (some Command.start_navigation) e
      → IsStage MotionMode.navigation_ready true false g none (rosout e none Line.tomogram_exported)
  unfolding is_managed_command
  tomogram-IsStage p v =
      let closed = record e { navigation_env = close_attempt e.navigation_env } in
      subst (IsStage MotionMode.navigation_ready true false g none)
        (sym (tomogram-settle g e p v.mode_is))
        (finish-IsStage MotionMode.navigation_ready true false g Command.start_navigation _ refl
          (λ h. cc) refl
          (settle_env-IsStage g closed "Tomogram exported" (record {
            mode_is = v.mode_is;
            is_ready = v.is_ready;
            is_located = v.is_located;
            current = v.current;
            gate = v.gate;
          })))

  pub initialized-IsStage :
      e.initial_pose.pending ≡ true
      → IsStage MotionMode.navigation_ready true false g (some Command.initial_pose) e
      → IsStage MotionMode.navigation_ready true true g none (rosout e none Line.initialized)
  unfolding is_managed_command
  initialized-IsStage p v =
      subst (IsStage MotionMode.navigation_ready true true g none)
        (sym (initialized-settle g e p v.mode_is))
        (finish-IsStage MotionMode.navigation_ready true true g Command.initial_pose _ refl
          (λ h. cc) refl (settle_pose-IsStage g e "Initialize successfully!!!!!!" v))
