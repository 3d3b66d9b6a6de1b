-- ===== src/Tests/Handlers.antt =====
-- Attempts, progress, mapping, queue and clean-up of the executor on concrete states.
use rover_ops_jm.Prelude.{◌+◌, ◌≤◌, true, false, List, [], ◌∷◌, min, arith, some, ◌≡◌, refl}
use rover_ops_jm.Robot.State.{MotionMode}
use rover_ops_jm.Robot.Fsm
use rover_ops_jm.FollowBackend.{append_response}
use rover_ops_jm.FollowBackend.Body.{receive, total, receive-total}
use rover_ops_jm.Executor.Command.{Command}
use rover_ops_jm.Executor.State.{Executor, start_state}
use rover_ops_jm.Executor.Step.{Reach}
use rover_ops_jm.Executor.Admission.{is_admitted}
use rover_ops_jm.Executor.Environment.{Poll, is_cleanup_killed, invalidate_navigation_requests}
use rover_ops_jm.Executor.Navigation.{
  complete_initial_pose_result, complete_navigation_env_ready, handle_initial_pose,
}
use rover_ops_jm.Executor.Service.{run_service}
use rover_ops_jm.Executor.Mapping.{
  MappingStop, Confirmation, stop_and_upload, handle_nav_upload_successful_command,
  mapping_processing_expired,
}
use rover_ops_jm.Executor.Follow.{FollowAnswers, start_follow, drain_pending}
use rover_ops_jm.Executor.Attempts.{
  Attempted, End, complete_all, state_of, invalidate-void, superseded-pose,
}
use rover_ops_jm.Executor.Progress.{reach_all, furthest, reach_all-furthest}
use rover_ops_jm.Executor.Upload.{stop_and_upload-mode, confirmation-ends}
use rover_ops_jm.Executor.Queue.{IsEnded, drain_pending-ends}
use rover_ops_jm.Executor.Cleanup.{ends_within, is_cleanup_killed-ends_within}
use rover_ops_jm.Executor.Recharge.{stop_recharge-early}
use rover_ops_jm.Executor.Invariant.Dispatch.{Reach-IsSettled}
use rover_ops_jm.Tests.Commands.{in_mode, collecting, answers}

-- A pose and a list of points wait for their ends.
abbrev awaiting : Executor
awaiting = record collecting {
  initial_pose = record { id = 3; pending = true };
  navigation_task = record { id = 5; pending = true };
}

abbrev late_ends : List End
late_ends =
    record { kind = Attempted.pose; attempt = 3; success = true; text = "late" }
    ∷ record { kind = Attempted.points; attempt = 5; success = false; text = "late" }
    ∷ []

invalidate-void_example :
    complete_all (invalidate_navigation_requests awaiting) late_ends
    ≡ invalidate_navigation_requests awaiting
invalidate-void_example = invalidate-void awaiting late_ends

superseded-pose_example :
    (let first = state_of (handle_initial_pose collecting true) in
      let second = state_of (handle_initial_pose first true) in
      complete_initial_pose_result second first.initial_pose.id false "late" ≡ second)
superseded-pose_example = superseded-pose collecting true false "late"

abbrev touring : Executor
touring = record (in_mode MotionMode.navigating) { total_points = 5; reached_points = 1 }

reach_all-furthest_example :
    (reach_all touring (3 ∷ 7 ∷ 2 ∷ [])).reached_points ≡ min (furthest 1 (3 ∷ 7 ∷ 2 ∷ [])) 5
reach_all-furthest_example = reach_all-furthest touring (3 ∷ 7 ∷ 2 ∷ []) (omega arith) (omega arith)

abbrev no_upload : MappingStop
no_upload = record { exited = true; script_found = true; processed = true; uploaded = false }

stop_and_upload-mode_example :
    ((stop_and_upload collecting no_upload).behavior.motion_mode ≡ MotionMode.failed)
    × ((stop_and_upload collecting no_upload).stop_upload_running ≡ false)
stop_and_upload-mode_example = stop_and_upload-mode collecting no_upload refl

abbrev processing : Executor
processing = record (in_mode MotionMode.mapping_processing) { mapping_attempt = 1 }

abbrev confirmed : Confirmation
confirmed = record { path_ok = true; script_ok = true; steps_ok = true }

confirmation-ends_example :
    (let done = handle_nav_upload_successful_command processing confirmed in
      (done.behavior.motion_mode ≡ MotionMode.idle) × (mapping_processing_expired done 1 ≡ done))
confirmation-ends_example = confirmation-ends processing confirmed 1 refl

-- Two other threads ask for a follow during the clean-up of the first.
abbrev crowded : FollowAnswers
crowded = record answers { arrivals = true ∷ false ∷ [] }

drain_pending-ends_example : IsEnded (start_follow start_state true crowded).0 (
    drain_pending 2
      (λ n. crowded)
      (record start_state { pending_follow = some (record { start_backend = true }) }))
drain_pending-ends_example =
    drain_pending-ends start_state (record { start_backend = true }) 0 (λ n. crowded)
      (Reach-IsSettled Reach.here)

abbrev late : List Poll
late =
    Poll.still_running ∷ Poll.still_running ∷ Poll.still_running ∷ Poll.still_running ∷ Poll.reaped
    ∷ []

is_cleanup_killed-ends_within_example : is_cleanup_killed late ≡ true
unfolding ends_within
is_cleanup_killed-ends_within_example = is_cleanup_killed-ends_within late

abbrev coming_up : Executor
coming_up = record (in_mode MotionMode.starting_navigation) {
  active_command = some Command.start_navigation;
  navigation_env = record { pending = true; id = 1 };
}

stop_recharge-early_example :
    (let early = run_service coming_up Command.stop_recharge coming_up.behavior.generation true in
      let up = complete_navigation_env_ready early early.navigation_env.id true "up" in
      (is_admitted coming_up.behavior Command.stop_recharge ≡ true)
      × (early.behavior.motion_mode ≡ MotionMode.navigation_ready)
      × (up.behavior.navigation_environment_ready ≡ false))
unfolding start_state Fsm.initial
stop_recharge-early_example = stop_recharge-early coming_up "up" refl refl refl

receive-total_example : (1500 ≡ 0 + total (1000 ∷ 500 ∷ [])) × (1500 ≤ 1048576)
unfolding receive append_response
receive-total_example = receive-total 0 (1000 ∷ 500 ∷ []) 1500 (omega arith) refl
