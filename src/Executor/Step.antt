-- ===== src/Executor/Step.antt =====
-- One step of the executor: a command, the end of a worker's wait, a line of /rosout, or a message
-- on the localization. The environment chooses the order, and answers as it likes.
use rover_ops_jm.Prelude.{ℕ, String, Bool, true, false, List, [], ◌∷◌, if◌then◌else◌, Option, ◌≡◌}
use rover_ops_jm.Executor.Command.{Command}
use rover_ops_jm.Executor.State.{Executor, Worker, start_state}
use rover_ops_jm.Executor.Service.{run_service}
use rover_ops_jm.Executor.Navigation.{
  startup_deployed, startup_announced, startup_threw, complete_navigation_env_ready,
  complete_initial_pose_result, complete_navigation_task_result, complete_clear_waypoints_result,
}
use rover_ops_jm.Executor.Mapping.{MappingStop, stop_and_upload, mapping_processing_expired}
use rover_ops_jm.Executor.Rosout.{Line, rosout}
use rover_ops_jm.Executor.Request.{Request}
use rover_ops_jm.Executor.Loss.{lose}
use rover_ops_jm.Executor.Dispatch.{execute}

pub data Event : Type 0 where
  command : Bool → Request → Event
  deployed : ℕ → Bool → ℕ → Event
  announced : ℕ → Bool → Event
  startup_exception : ℕ → String → Event
  loss : Worker → String → String → Event
  env_timeout : ℕ → Event
  pose_timeout : ℕ → Event
  task_timeout : ℕ → Event
  clear_timeout : ℕ → Event
  service : Command → ℕ → Bool → Event
  upload : MappingStop → Event
  mapping_expired : ℕ → Event
  log_line : Option ℕ → Line → Event
  localization : Event
  localization_system : Bool → Event

-- `localization_callback` and `loc_callback`, as far as the flags go.
localized : Executor → Executor
localized e = record e { localization_ready = true }

system_state : Executor → Bool → Executor
system_state e ready =
    if ready then e else record e { localization_ready = false; upload_enable = false }

unfoldable pub step : Executor → Event → Executor
unfolding localized system_state
step e (Event.command mine r) = execute e mine r
step e (Event.deployed generation ok pid) = startup_deployed e generation ok pid
step e (Event.announced generation waited) = startup_announced e generation waited
step e (Event.startup_exception generation what) = startup_threw e generation what
step e (Event.loss worker reason what) = lose worker e reason what
step e (Event.env_timeout attempt) =
    complete_navigation_env_ready e attempt false "Timeout waiting for Tomogram exported"
step e (Event.pose_timeout attempt) =
    complete_initial_pose_result e attempt false "Timeout waiting for Initialize successfully!!!!!!"
step e (Event.task_timeout attempt) = complete_navigation_task_result e attempt false "下发导航任务点失败！！！"
step e (Event.clear_timeout attempt) =
    complete_clear_waypoints_result e attempt false
      "Timeout waiting for clear waypoints confirmation"
step e (Event.service c generation success) = run_service e c generation success
step e (Event.upload m) = stop_and_upload e m
step e (Event.mapping_expired attempt) = mapping_processing_expired e attempt
step e (Event.log_line round line) = rosout e round line
step e Event.localization = localized e
step e (Event.localization_system ready) = system_state e ready

pub data Reach : Executor → Type 0 where
  here : Reach start_state
  next : {e d : Executor} (event : Event) → Reach e → d ≡ step e event → Reach d

unfoldable pub run : Executor → List Event → Executor
unfolding step
run e [] = e
run e (event ∷ events) = run (step e event) events
