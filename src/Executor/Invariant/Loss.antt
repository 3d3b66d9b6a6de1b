-- ===== src/Executor/Invariant/Loss.antt =====
-- A worker that is lost keeps the rules.
use rover_ops_jm.Prelude.{String, true, false, if_keeps}
use rover_ops_jm.Robot.Fsm.Rest.{
  IsAtRest, navigation_ready-IsAtRest, mapping-IsAtRest, mapping_failed-IsAtRest,
}
use rover_ops_jm.Executor.State.{Executor, Worker}
use rover_ops_jm.Executor.Rules.{IsSettled, settled}
use rover_ops_jm.Executor.Mapping.{is_running}
use rover_ops_jm.Executor.Loss.{upload_lost, lose}
use rover_ops_jm.Executor.Invariant.Handlers.{with_behavior, finish_command-IsSettled}
use rover_ops_jm.Executor.Invariant.Navigation.{startup_lost-IsSettled, complete_task-IsSettled}
use rover_ops_jm.Executor.Invariant.Mapping.{moved-IsSettled}

upload_lost-IsSettled :
    (e : Executor) (reason what : String) → IsSettled e → IsSettled (upload_lost e reason what)
unfolding upload_lost
upload_lost-IsSettled e reason what v = finish_command-IsSettled _ _ (
    settled (
      with_behavior _ v.rules (
        if_keeps IsAtRest (is_running e) (mapping-IsAtRest e.behavior true v.rules.at_rest)
          (mapping_failed-IsAtRest e.behavior reason v.rules.at_rest))))

pub lose-IsSettled :
    (w : Worker) (e : Executor) (reason what : String)
    → IsSettled e
    → IsSettled (lose w e reason what)
unfolding lose
lose-IsSettled (Worker.navigation_startup generation) e reason what v =
    startup_lost-IsSettled e reason what v
lose-IsSettled (Worker.navigation_env_timeout attempt) e reason what v =
    finish_command-IsSettled _ _
      (moved-IsSettled e _ (navigation_ready-IsAtRest e.behavior false reason v.rules.at_rest) v)
lose-IsSettled (Worker.initial_pose_timeout attempt) e reason what v =
    finish_command-IsSettled e _ v
lose-IsSettled (Worker.navigation_task_timeout attempt) e reason what v =
    finish_command-IsSettled _ _ (complete_task-IsSettled e attempt false what v)
lose-IsSettled (Worker.clear_waypoints_timeout attempt) e reason what v = settled v.rules
lose-IsSettled (Worker.service_call c generation) e reason what v =
    settled (finish_command-IsSettled e c v).rules
lose-IsSettled (Worker.mapping_processing_timeout attempt) e reason what v =
    moved-IsSettled e _ (mapping_failed-IsAtRest e.behavior reason v.rules.at_rest) v
lose-IsSettled Worker.stop_and_upload e reason what v = upload_lost-IsSettled e reason what v
