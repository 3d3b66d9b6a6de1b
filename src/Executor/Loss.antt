-- ===== src/Executor/Loss.antt =====
-- What the launcher of a worker does with an exception that leaves it (the second argument of each
-- `launch_background_task` of src/CommandExecutor.cc).
use rover_ops_jm.Prelude.{String, true, false, if◌then◌else◌}
use rover_ops_jm.Robot.Fsm
use rover_ops_jm.Executor.Command.{Command}
use rover_ops_jm.Executor.State.{Executor, Message, Outcome, Worker, send, publish_fsm_state}
use rover_ops_jm.Executor.Gate.{finish_command}
use rover_ops_jm.Executor.Navigation.{startup_lost, complete_navigation_task_result}
use rover_ops_jm.Executor.Mapping.{is_running}

-- The worker's guard has reset the flag.
unfoldable pub upload_lost : Executor → String → String → Executor
upload_lost e reason what =
    let settled = record e {
      stop_upload_running = false;
      behavior =
          if is_running e
          then (Fsm.mapping e.behavior true).0
          else (Fsm.mapping_failed e.behavior reason).0;
    } in
    finish_command
      (send (publish_fsm_state settled Command.stop_and_uploadmap Outcome.failed what)
        (Message.mapping_reply Command.stop_and_uploadmap false what))
      Command.stop_and_uploadmap

-- `what` is the text of the exception, and `reason` the same behind the worker's own prefix.
unfoldable pub lose : Worker → Executor → String → String → Executor
unfolding upload_lost
lose (Worker.navigation_startup generation) e reason what = startup_lost e reason what
lose (Worker.navigation_env_timeout attempt) e reason what =
    finish_command (record e { behavior = Fsm.navigation_ready e.behavior false reason })
      Command.start_navigation
lose (Worker.initial_pose_timeout attempt) e reason what = finish_command e Command.initial_pose
lose (Worker.navigation_task_timeout attempt) e reason what =
    finish_command (complete_navigation_task_result e attempt false what) Command.navigation_task
lose (Worker.clear_waypoints_timeout attempt) e reason what = send e (Message.background_error what)
lose (Worker.service_call c generation) e reason what =
    publish_fsm_state (finish_command e c) c Outcome.failed what
lose (Worker.mapping_processing_timeout attempt) e reason what = record e {
  behavior = (Fsm.mapping_failed e.behavior reason).0;
}
lose Worker.stop_and_upload e reason what = upload_lost e reason what
