-- ===== src/Executor/Service.antt =====
-- The services of the navigation task, and the queue of pause and resume requests
-- (src/CommandExecutor.cc).
use rover_ops_jm.Prelude.{
  ℕ, Bool, true, false, ◌&&◌, ◌||◌, not, ◌==◌, if◌then◌else◌, List, [], ◌∷◌, ◌++◌,
}
use mathlib.Core.Bool.{xor}
use rover_ops_jm.Robot.State.{TaskStatus}
use rover_ops_jm.Robot.Fsm
use rover_ops_jm.Executor.Command.{Command, command_eq}
use rover_ops_jm.Executor.State.{
  Executor, Message, Outcome, TaskStateRequest, Worker, no_request, send, launch, publish_fsm_state,
  report_command_received, open_attempt,
}
use rover_ops_jm.Executor.Gate.{finish_command}

-- The service runs on a worker, which is told the generation that it was launched under.
unfoldable pub exec_rosservice_cmd : Executor → Command → Executor
exec_rosservice_cmd e c = launch e (Worker.service_call c e.behavior.generation)

-- The loop of `process_next_task_state_request` over the queue.
unfoldable pub process_requests : List TaskStateRequest → Executor → Executor
unfolding exec_rosservice_cmd
process_requests [] e = record e { requests = []; worker_running = false }
process_requests (r ∷ rs) e =
    let rest =
      process_requests rs (send e (Message.already_in_state r.request_type e.task_paused)) in
    if xor r.target_paused e.task_paused
    then exec_rosservice_cmd
        (record e { requests = rs; active_request = r; transition_active = true })
        Command.pause_or_resume_task
    else rest

unfoldable pub process_next_task_state_request : Executor → Executor
process_next_task_state_request e = if e.transition_active then e else process_requests e.requests e

unfoldable pub enqueue_task_state_request : Executor → TaskStateRequest → Executor
enqueue_task_state_request e r =
    let queued = record e { requests = e.requests ++ r ∷ [] } in
    if e.worker_running
    then queued
    else process_next_task_state_request (record queued { worker_running = true })

unfoldable pub handle_task_state_request : Executor → Command → Executor
unfolding enqueue_task_state_request
handle_task_state_request e c =
    enqueue_task_state_request (report_command_received e c)
      (record { request_type = c; target_paused = c == Command.pause_task })

-- The end of a transition, up to the call of `process_next_task_state_request`.
unfoldable pub settle_task_state : Executor → Bool → Executor
settle_task_state e success =
    let paused = if success then e.active_request.target_paused else e.task_paused in
    let settled = record e {
      task_paused = paused;
      transition_active = false;
      active_request = no_request;
    } in
    let replied = send settled (Message.task_state e.active_request.request_type success paused) in
    let finished = finish_command replied Command.pause_or_resume_task in
    if success
    then record finished {
      behavior =
          Fsm.task_state finished.behavior
            (if paused then TaskStatus.paused else TaskStatus.running);
    }
    else finished

unfoldable pub complete_task_state_transition : Executor → Bool → Executor
unfolding settle_task_state
complete_task_state_transition e success =
    if not (Fsm.is_navigation e.behavior.motion_mode)
    then e
    else if not e.transition_active
    then e
    else process_next_task_state_request (settle_task_state e success)

unfoldable pub service_result : Executor → Command → Bool → Executor
service_result e c success =
    if not success
    then send e (Message.service_failed c)
    else if c == Command.start_task && not e.worker_running
    then record e { task_paused = false }
    else e

unfoldable pub service_status : Executor → Command → Bool → Executor
service_status e c success =
    if success && (c == Command.start_task || c == Command.start_recharge)
    then record e { behavior = Fsm.task_state e.behavior TaskStatus.running }
    else if success && (c == Command.cancel_task || c == Command.stop_recharge)
    then record e { behavior = Fsm.task_state e.behavior TaskStatus.cancelled }
    else e

-- The worker of `exec_rosservice_cmd`. It holds the behaviour mutex across the service call, and
-- what changes the machine without that mutex acts in the mapping modes only, so its two checks of
-- the generation agree.
unfoldable pub run_service : Executor → Command → ℕ → Bool → Executor
unfolding service_result service_status
run_service e c generation success =
    if not (Fsm.navigation_current e.behavior generation)
    then e
    else if c == Command.pause_or_resume_task
    then complete_task_state_transition e success
    else publish_fsm_state
        (service_status (finish_command (service_result e c success) c) c success) c
        (if success then Outcome.success else Outcome.failed) ""

unfoldable pub handle_clear_waypoints_request : Executor → Executor
unfolding exec_rosservice_cmd
handle_clear_waypoints_request e =
    let reported = report_command_received e Command.clear_waypoints in
    let waiting = record reported { clear_waypoints = open_attempt reported.clear_waypoints } in
    exec_rosservice_cmd (launch waiting (Worker.clear_waypoints_timeout waiting.clear_waypoints.id))
      Command.clear_waypoints
