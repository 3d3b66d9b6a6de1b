-- ===== src/Tests/Commands.antt =====
-- The command executor on concrete commands.
use rover_ops_jm.Prelude.{◌⊎◌, Bool, true, false, [], ◌∷◌, none, some, ◌≡◌, refl}
use rover_ops_jm.Robot.State.{MotionMode}
use rover_ops_jm.Robot.Fsm
use rover_ops_jm.FollowBackend.{Reply}
use rover_ops_jm.Executor.Command.{Command}
use rover_ops_jm.Executor.State.{Executor, Message, Probe, TaskStateRequest, start_state, send}
use rover_ops_jm.Executor.Request.{Request}
use rover_ops_jm.Executor.Step.{Event, step, run, Reach}
use rover_ops_jm.Executor.Rules.{IsSettled}
use rover_ops_jm.Executor.Admission.{reject, is_admitted}
use rover_ops_jm.Executor.Environment.{Cleanup}
use rover_ops_jm.Executor.Navigation.{Run}
use rover_ops_jm.Executor.Follow.{FollowAnswers}
use rover_ops_jm.Executor.Gate.{is_managed_command, try_begin_command, finish_command}
use rover_ops_jm.Executor.Dispatch.{is_start, is_web_motion, robot_bt}
use rover_ops_jm.Executor.Busy.{busy-robot_bt, begin-finish}
use rover_ops_jm.Executor.Exclusion.{
  IsFree, IsPassed, IsRejected, robot_bt-motion, robot_bt-exclusive,
}
use rover_ops_jm.Executor.Requests.{last_target, succeed_all, IsDone, succeed_all-IsDone}
use rover_ops_jm.Executor.Startup.Complete.{IsStartable, start_events, start-navigating}
use rover_ops_jm.Executor.Invariant.Dispatch.{Reach-IsSettled}

abbrev nothing : Probe
nothing = record {
  nav = record { reaped = false; signalable = false; not_permitted = false };
  processes_found = false;
}

abbrev clean : Cleanup
clean = record { nav_left = false; goal_left = false; remaining = nothing }

abbrev acknowledged : Reply
acknowledged = record {
  transport_ok = true;
  is_object = true;
  status = 200;
  ok_field = some true;
  running = none;
  state_name = none;
}

abbrev pub answers : FollowAnswers
answers = record { arrivals = []; before = nothing; cleanup = clean; reply = acknowledged }

abbrev request : Command → Request
request c = record {
  command = c;
  is_safety_stop = false;
  lock_free = true;
  arrivals = [];
  cleanup = clean;
  follow = answers;
  later_follows = λ n. answers;
  backend_command = Command.get_follow;
  start = record {
    address = "maps/hall.pcd";
    display_name = "hall";
    probe = nothing;
    uuid = "8f14";
    files_ok = true;
  };
  pose_valid = true;
  points = 3;
  points_valid = true;
  dock_valid = true;
  mapping = record { files_removed = true; script_found = true; pid = 411 };
  confirmation = record { path_ok = true; script_ok = true; steps_ok = true };
  device_replies = [];
}

abbrev starting : Executor
starting = step start_state (Event.command true (request Command.start_navigation))

Reach-IsSettled_example : IsSettled starting
Reach-IsSettled_example =
    Reach-IsSettled
      (Reach.next (Event.command true (request Command.start_navigation)) Reach.here refl)

start_state-IsStartable : IsStartable start_state (request Command.start_navigation)
unfolding start_state Fsm.initial
start_state-IsStartable = record {
  idle = refl;
  healthy = refl;
  not_ready = refl;
  not_located = refl;
  free = refl;
  command = refl;
  good = record {
    no_process = refl;
    no_env = refl;
    uuid_given = refl;
    files_given = refl;
    map_given = refl;
  };
}

start-navigating_example :
    (let done = run start_state (
        start_events
          (Fsm.next_generation start_state.behavior.generation)
          411
          (request Command.start_navigation)
          (request Command.initial_pose)
          (request Command.start_task)) in
      (done.behavior.motion_mode ≡ MotionMode.navigating) × (done.active_command ≡ none))
start-navigating_example =
    start-navigating start_state (request Command.start_navigation) (request Command.initial_pose)
      (request Command.start_task) 411 start_state-IsStartable refl refl refl

abbrev pub in_mode : MotionMode → Executor
in_mode mode = record start_state { behavior = record start_state.behavior { motion_mode = mode } }

abbrev ask : Command → Bool → TaskStateRequest
ask c paused = record { request_type = c; target_paused = paused }

abbrev pausing : Executor
pausing = record (in_mode MotionMode.navigating) {
  active_request = ask Command.pause_task true;
  transition_active = true;
  worker_running = true;
  requests = ask Command.pause_task true ∷ ask Command.resume_task false ∷ [];
}

succeed_all-IsDone_example : IsDone false (succeed_all 3 pausing)
unfolding last_target Fsm.is_navigation
succeed_all-IsDone_example = succeed_all-IsDone pausing refl refl

abbrev pub collecting : Executor
collecting = record (in_mode MotionMode.mapping) {
  active_command = some Command.start_mapping;
  mapping_process = 411;
}

busy-robot_bt_example :
    robot_bt collecting (request Command.stop_and_uploadmap)
    ≡ Run.returned (send collecting (Message.busy Command.stop_and_uploadmap Command.start_mapping))
unfolding is_admitted is_managed_command
busy-robot_bt_example =
    busy-robot_bt collecting (request Command.stop_and_uploadmap) Command.start_mapping refl refl
      (λ h. cc) refl

begin-finish_example :
    (finish_command
      (try_begin_command start_state Command.start_mapping).0
      Command.clear_waypoints).active_command
    ≡ some Command.start_mapping
unfolding start_state is_managed_command
begin-finish_example =
    begin-finish start_state Command.start_mapping Command.clear_waypoints refl refl refl

robot_bt-motion_example :
    (IsFree collecting (request Command.action_control)
      × IsPassed collecting
          (request Command.action_control)
          (robot_bt collecting (request Command.action_control)))
    ⊎ ((¬ IsFree collecting (request Command.action_control))
        × IsRejected collecting
            (request Command.action_control)
            (robot_bt collecting (request Command.action_control)))
unfolding is_web_motion
robot_bt-motion_example = robot_bt-motion collecting (request Command.action_control) refl

robot_bt-exclusive_example :
    robot_bt collecting (request Command.start_navigation)
    ≡ Run.returned (reject collecting Command.start_navigation)
unfolding is_start
robot_bt-exclusive_example =
    robot_bt-exclusive collecting (request Command.start_navigation) refl (λ h. cc)
