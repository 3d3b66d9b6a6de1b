-- ===== src/Executor/Environment.antt =====
-- The navigation environment of src/CommandExecutor.cc: is one running, what a stop does to it, and
-- what makes every request in flight void.
use rover_ops_jm.Prelude.{
  ℕ, zero, suc, Bool, true, false, ◌&&◌, ◌||◌, not, nat_eq, leb, if◌then◌else◌, List, [], ◌∷◌, none,
}
use rover_ops_jm.Executor.State.{
  Executor, Message, PidCheck, Probe, send, cancel_attempt, clear_environment,
}

unfoldable pub is_pid_still_running : ℕ → PidCheck → Bool
is_pid_still_running pid check =
    if leb pid 0
    then false
    else if check.reaped
    then false
    else check.signalable || check.not_permitted

unfoldable pub forget_nav_process : Executor → Executor
forget_nav_process e = if leb e.nav_process 0 then e else record e { nav_process = 0 }

unfoldable pub is_navigation_environment_running : Executor → Probe → Executor × Bool
unfolding is_pid_still_running forget_nav_process
is_navigation_environment_running e probe =
    if is_pid_still_running e.nav_process probe.nav
    then (e, true)
    else (forget_nav_process e, e.env_ready || e.localization_ready || probe.processes_found)

-- The answers of one poll of `waitpid` on the clean-up script.
pub data Poll : Type 0 where
  still_running reaped poll_error : Poll

-- `while (wait_sec-- > 0)`: the value of `wait_sec` when the loop is left, plus one, since it ends
-- at -1 if no poll leaves the loop. `n` is `wait_sec` at the test.
unfoldable pub cleanup_wait : ℕ → List Poll → ℕ
cleanup_wait zero polls = 0
cleanup_wait (suc n) [] = cleanup_wait n []
cleanup_wait (suc n) (Poll.still_running ∷ polls) = cleanup_wait n polls
cleanup_wait (suc n) (Poll.reaped ∷ polls) = suc n
cleanup_wait (suc n) (Poll.poll_error ∷ polls) = suc n

-- `if (wait_sec <= 0)` after the loop, which starts with five rounds: the script is killed.
unfoldable pub is_cleanup_killed : List Poll → Bool
unfolding cleanup_wait
is_cleanup_killed polls = leb (cleanup_wait 5 polls) 1

-- What is left after the signals, the clean-up script and the clean-up of residual processes.
pub record Cleanup : Type 0 where
  pub nav_left : Bool
  pub goal_left : Bool
  pub remaining : Probe

clear_flags : Executor → Executor
clear_flags e = record e { env_ready = false; localization_ready = false; upload_enable = false }

unfoldable pub handle_stop_navigation : Executor → Cleanup → Executor × Bool
unfolding clear_flags is_navigation_environment_running
handle_stop_navigation e c =
    let signalled = clear_flags (record e {
      nav_process = if leb e.nav_process 0 then e.nav_process else 0;
      goal_process = if leb e.goal_process 0 then e.goal_process else 0;
    }) in
    let (checked, running) = is_navigation_environment_running signalled c.remaining in
    let stopped =
      not running
      && not (not (leb e.nav_process 0) && c.nav_left)
      && not (not (leb e.goal_process 0) && c.goal_left) in
    (clear_environment (clear_flags (send checked (Message.ack_stop_navigation stopped))), stopped)

unfoldable pub invalidate_navigation_requests : Executor → Executor
invalidate_navigation_requests e = record e {
  active_command = none;
  navigation_env = cancel_attempt e.navigation_env;
  initial_pose = cancel_attempt e.initial_pose;
  navigation_task = cancel_attempt e.navigation_task;
  clear_waypoints = cancel_attempt e.clear_waypoints;
  requests = [];
  transition_active = false;
  worker_running = false;
  task_paused = false;
  execution_active = false;
}
