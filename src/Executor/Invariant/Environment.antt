-- ===== src/Executor/Invariant/Environment.antt =====
-- The check for an environment and its clean-up keep what a handler chooses.
use rover_ops_jm.Prelude.{Bool, false, leb, if◌then◌else◌, if_keeps}
use rover_ops_jm.Robot.State.{mode_eq}
use rover_ops_jm.FollowBackend.{Reply}
use rover_ops_jm.Executor.Command.{Command}
use rover_ops_jm.Executor.State.{Executor, Probe}
use rover_ops_jm.Executor.Environment.{
  Cleanup, is_navigation_environment_running, handle_stop_navigation,
  invalidate_navigation_requests,
}
use rover_ops_jm.Executor.Follow.{ask_backend}
use rover_ops_jm.Executor.Invariant.Kept.{Stance, IsKept, kept, with_no_requests}

module _ (P : Stance) where
  pub environment_check-IsKept :
      (e : Executor) (p : Probe) → IsKept P e → IsKept P (is_navigation_environment_running e p).0
  unfolding is_navigation_environment_running
  environment_check-IsKept e p v =
      if_keeps {A = Executor × Bool} (λ r. IsKept P r.0) _ v
        (if_keeps (IsKept P) (leb e.nav_process 0) (kept v.parts) (kept v.parts))

  pub cleanup-IsKept :
      (e : Executor) (c : Cleanup) → IsKept P e → IsKept P (handle_stop_navigation e c).0
  unfolding handle_stop_navigation
  cleanup-IsKept e c v =
      let signalled = record e {
        nav_process = if leb e.nav_process 0 then e.nav_process else 0;
        goal_process = if leb e.goal_process 0 then e.goal_process else 0;
        env_ready = false;
        localization_ready = false;
        upload_enable = false;
      } in
      kept (environment_check-IsKept signalled c.remaining (kept v.parts)).parts

  pub invalidate-IsKept : (e : Executor) → IsKept P e → IsKept P (invalidate_navigation_requests e)
  unfolding invalidate_navigation_requests
  invalidate-IsKept e v = kept (with_no_requests v.parts)

  pub ask_backend-IsKept :
      (e : Executor) (c : Command) (reply : Reply) → IsKept P e → IsKept P (ask_backend e c reply).0
  unfolding ask_backend
  ask_backend-IsKept e c reply v = kept v.parts
