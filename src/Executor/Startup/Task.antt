-- ===== src/Executor/Startup/Task.antt =====
-- The pose and the task of a start of navigation (src/CommandExecutor.cc).
use rover_ops_jm.Prelude.{ℕ, true, false, nat_eq, ◌≡◌, ◌∙◌, sym, subst, refl, none, some, arith}
use rover_ops_jm.Robot.State.{MotionMode, mode_eq}
use rover_ops_jm.Robot.Fsm
use rover_ops_jm.Executor.Command.{Command, command_eq}
use rover_ops_jm.Executor.State.{Executor, Outcome, report_command_received, publish_fsm_state}
use rover_ops_jm.Executor.Gate.{is_managed_command, finish_command}
use rover_ops_jm.Executor.Admission.{is_admitted, navigation_allows}
use rover_ops_jm.Executor.Navigation.{handle_initial_pose}
use rover_ops_jm.Executor.Service.{exec_rosservice_cmd, run_service, service_result, service_status}
use rover_ops_jm.Executor.Request.{Request, run_handler, service}
use rover_ops_jm.Executor.Dispatch.{begin_behavior, route, execute}
use rover_ops_jm.Executor.Startup.Begin.{IsStage, taken, free_route, returned_run}
use rover_ops_jm.Executor.Startup.Stages.{finish-IsStage}

module _ (g : ℕ) (e : Executor) (r : Request) where
  -- A pose is sent.
  pose-goes :
      r.command ≡ Command.initial_pose
      → IsStage MotionMode.navigation_ready true false g none e
      → (is_managed_command r.command ≡ true)
        × (is_admitted e.behavior r.command ≡ true)
        × ((begin_behavior (taken e r.command) r.command).1 ≡ true)
  unfolding is_managed_command is_admitted navigation_allows begin_behavior taken Fsm.is_navigation
  pose-goes c v = (rw c refl, ground (arith, c, v.mode_is, v.is_ready), rw c refl)

  pose-handled :
      r.command ≡ Command.initial_pose
      → r.pose_valid ≡ true
      → route (begin_behavior (taken e r.command) r.command).0 r
        ≡ handle_initial_pose
            (report_command_received (taken e Command.initial_pose) Command.initial_pose)
            true
  unfolding route run_handler begin_behavior taken
  pose-handled c p = rw (c, p) refl

  pub pose-IsStage :
      r.command ≡ Command.initial_pose
      → r.pose_valid ≡ true
      → IsStage MotionMode.navigation_ready true false g none e
      → IsStage MotionMode.navigation_ready true false g
          (some Command.initial_pose)
          (execute e true r)
        × ((execute e true r).initial_pose.pending ≡ true)
  unfolding taken handle_initial_pose
  pose-IsStage c p v =
      let (managed, admitted, begins) = pose-goes c v in
      let run =
        returned_run e _ r
          (free_route e r v.gate managed (λ h. cc) admitted begins ∙ pose-handled c p) in
      subst
        (λ d.
          IsStage MotionMode.navigation_ready true false g (some Command.initial_pose) d
          × (d.initial_pose.pending ≡ true))
        (sym run)
        (
          record {
            mode_is = v.mode_is;
            is_ready = v.is_ready;
            is_located = v.is_located;
            current = v.current;
            gate = refl;
          },
          refl,
        )

  -- The task is started by a service of the robot.
  task-goes :
      r.command ≡ Command.start_task
      → IsStage MotionMode.navigation_ready true true g none e
      → (is_managed_command r.command ≡ true)
        × (is_admitted e.behavior r.command ≡ true)
        × ((begin_behavior (taken e r.command) r.command).1 ≡ true)
  unfolding is_managed_command is_admitted navigation_allows begin_behavior taken Fsm.is_navigation
  task-goes c v = (rw c refl, ground (arith, c, v.mode_is, v.is_ready, v.is_located), rw c refl)

  task-handled :
      r.command ≡ Command.start_task
      → route (begin_behavior (taken e r.command) r.command).0 r
        ≡ service (taken e Command.start_task) Command.start_task
  unfolding route run_handler begin_behavior taken
  task-handled c = rw c refl

  pub task-IsStage :
      r.command ≡ Command.start_task
      → IsStage MotionMode.navigation_ready true true g none e
      → IsStage MotionMode.navigation_ready true true g (some Command.start_task) (execute e true r)
  unfolding taken service exec_rosservice_cmd
  task-IsStage c v =
      let (managed, admitted, begins) = task-goes c v in
      let run =
        returned_run e _ r
          (free_route e r v.gate managed (λ h. cc) admitted begins ∙ task-handled c) in
      subst (IsStage MotionMode.navigation_ready true true g (some Command.start_task)) (sym run)
        (record {
          mode_is = v.mode_is;
          is_ready = v.is_ready;
          is_located = v.is_located;
          current = v.current;
          gate = refl;
        })

module _ (g : ℕ) (e : Executor) where
  result-IsStage :
      IsStage MotionMode.navigation_ready true true g (some Command.start_task) e
      → IsStage MotionMode.navigation_ready true true g
          (some Command.start_task)
          (service_result e Command.start_task true)
  unfolding service_result
  result-IsStage v = record {
    mode_is = ground (arith, v.mode_is);
    is_ready = ground (arith, v.is_ready);
    is_located = ground (arith, v.is_located);
    current = ground (arith, v.current);
    gate = ground (arith, v.gate);
  }

  status-IsStage :
      IsStage MotionMode.navigation_ready true true g none e
      → IsStage MotionMode.navigating true true g none (service_status e Command.start_task true)
  unfolding service_status Fsm.task_state Fsm.is_navigation
  status-IsStage v = record {
    mode_is = ground (arith, v.mode_is);
    is_ready = ground (arith, v.mode_is, v.is_ready);
    is_located = ground (arith, v.mode_is, v.is_located);
    current = ground (arith, v.mode_is, v.current);
    gate = ground (arith, v.gate);
  }

module _ (g : ℕ) (e : Executor) where
  service-run :
      IsStage MotionMode.navigation_ready true true g (some Command.start_task) e
      → run_service e Command.start_task g true
        ≡ publish_fsm_state
            (service_status
              (finish_command (service_result e Command.start_task true) Command.start_task)
              Command.start_task
              true)
            Command.start_task
            Outcome.success
            ""
  unfolding run_service Fsm.navigation_current Fsm.is_navigation
  service-run v = ground (arith, v.mode_is, v.current)

  pub service-IsStage :
      IsStage MotionMode.navigation_ready true true g (some Command.start_task) e
      → IsStage MotionMode.navigating true true g none (run_service e Command.start_task g true)
  unfolding is_managed_command
  service-IsStage v =
      let freed =
        finish-IsStage MotionMode.navigation_ready true true g Command.start_task _ refl (λ h. cc)
          refl (result-IsStage g e v) in
      let done = status-IsStage g _ freed in
      subst (IsStage MotionMode.navigating true true g none) (sym (service-run v)) (record {
        mode_is = done.mode_is;
        is_ready = done.is_ready;
        is_located = done.is_located;
        current = done.current;
        gate = done.gate;
      })
