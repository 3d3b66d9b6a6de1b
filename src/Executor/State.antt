-- ===== src/Executor/State.antt =====
-- include/CommandExecutor.h: the state that the handlers of src/CommandExecutor.cc share, the
-- messages that they send, the workers that they launch, and what the operating system, the follow
-- backend and the map service answer them.
use rover_ops_jm.Prelude.{ℕ, ◌+◌, ◌%◌, ◌^◌, String, Bool, true, false, List, [], ◌∷◌, Option, none}
use rover_ops_jm.Robot.State.{RobotDto}
use rover_ops_jm.Robot.Fsm
use rover_ops_jm.RobotStatus
use rover_ops_jm.FollowBackend
use rover_ops_jm.FollowBackend.{Backend}
use rover_ops_jm.RobotStatus.{RobotStatus, Snapshot}
use rover_ops_jm.Executor.Command.{Command}

pub data Outcome : Type 0 where
  received rejected success failed ready placeholder : Outcome

-- One constructor for each shape of JSON object that is sent; `code` and `message` only where they
-- differ between two sends of one shape. Time stamps and the device id are left out.
pub data Message : Type 0 where
  fsm_state : Command → Outcome → String → RobotDto → Message
  command_received : Command → Message
  busy : Command → Command → Message
  ack_start_navigation : String → Message
  ack_stop_navigation : Bool → Message
  initial_pose_ready : Bool → Message
  ack_initial_pose : Bool → String → Message
  ack_navigation_task : Bool → ℕ → ℕ → String → Message
  ack_clear_waypoints : Bool → String → Message
  task_state : Command → Bool → Bool → Message
  already_in_state : Command → Bool → Message
  service_failed : Command → Message
  mapping_reply : Command → Bool → String → Message
  waypoint_reached : ℕ → ℕ → ℕ → Message
  navigation_task_state : String → Message
  robot_status : Snapshot → Message
  dock_pose_reply : Bool → Message
  follow_reply : Command → Bool → Message
  recharge_status : String → Message
  round_completed : ℕ → Message
  background_error : String → Message

-- A request that waits for an answer, with the number of the attempt.
pub record Attempt : Type 0 where
  pub pending : Bool
  pub id : ℕ

pub record TaskStateRequest : Type 0 where
  pub request_type : Command
  pub target_paused : Bool

-- The payload of a queued follow is the caller's own; only the choice of backend is read again.
pub record FollowRequest : Type 0 where
  pub start_backend : Bool

pub data Worker : Type 0 where
  navigation_startup : ℕ → Worker
  navigation_env_timeout : ℕ → Worker
  initial_pose_timeout : ℕ → Worker
  navigation_task_timeout : ℕ → Worker
  clear_waypoints_timeout : ℕ → Worker
  service_call : Command → ℕ → Worker
  mapping_processing_timeout : ℕ → Worker
  stop_and_upload : Worker

-- An empty `active_command_` is `none`, and a process id of -1 is 0.
pub record Executor : Type 0 where
  pub behavior : RobotDto
  pub status : RobotStatus
  pub active_command : Option Command
  pub navigation_env : Attempt
  pub initial_pose : Attempt
  pub navigation_task : Attempt
  pub expected_points : ℕ
  pub confirmed_points : ℕ
  pub clear_waypoints : Attempt
  pub requests : List TaskStateRequest
  pub worker_running : Bool
  pub transition_active : Bool
  pub active_request : TaskStateRequest
  pub task_paused : Bool
  pub execution_active : Bool
  pub reached_points : ℕ
  pub total_points : ℕ
  pub last_relocalized_round : ℕ
  pub pending_follow : Option FollowRequest
  pub processing_pending_follow : Bool
  pub nav_process : ℕ
  pub goal_process : ℕ
  pub env_ready : Bool
  pub localization_ready : Bool
  pub upload_enable : Bool
  pub follow : Backend
  pub mapping_process : ℕ
  pub mapping_attempt : ℕ
  pub stop_upload_running : Bool
  pub sent : List Message
  pub launched : List Worker

-- `{"", false}`
abbrev pub no_request : TaskStateRequest
no_request = record { request_type = Command.other ""; target_paused = false }

abbrev pub no_attempt : Attempt
no_attempt = record { pending = false; id = 0 }

unfoldable pub start_state : Executor
unfolding Fsm.initial RobotStatus.initial FollowBackend.initial
start_state = record {
  behavior = Fsm.initial;
  status = RobotStatus.initial;
  active_command = none;
  navigation_env = no_attempt;
  initial_pose = no_attempt;
  navigation_task = no_attempt;
  expected_points = 0;
  confirmed_points = 0;
  clear_waypoints = no_attempt;
  requests = [];
  worker_running = false;
  transition_active = false;
  active_request = no_request;
  task_paused = false;
  execution_active = false;
  reached_points = 0;
  total_points = 0;
  last_relocalized_round = 0;
  pending_follow = none;
  processing_pending_follow = false;
  nav_process = 0;
  goal_process = 0;
  env_ready = false;
  localization_ready = false;
  upload_enable = false;
  follow = FollowBackend.initial;
  mapping_process = 0;
  mapping_attempt = 0;
  stop_upload_running = false;
  sent = [];
  launched = [];
}

-- The newest message comes first.
abbrev pub send : Executor → Message → Executor
send e m = record e { sent = m ∷ e.sent }

abbrev pub launch : Executor → Worker → Executor
launch e w = record e { launched = w ∷ e.launched }

abbrev pub publish_fsm_state : Executor → Command → Outcome → String → Executor
publish_fsm_state e c o message = send e (Message.fsm_state c o message e.behavior)

abbrev pub report_command_received : Executor → Command → Executor
report_command_received e c = send e (Message.command_received c)

-- The three calls of the status object that the handlers make; each sends a snapshot.
abbrev put_status : Executor → RobotStatus → Executor
put_status e s =
    send (record e { status = s }) (Message.robot_status (RobotStatus.publish_snapshot s))

abbrev pub announce_map : Executor → String → String → Executor
announce_map e address display_name =
    put_status e (RobotStatus.update_navigation_environment e.status false address display_name)

abbrev pub set_env_active : Executor → Executor
set_env_active e = put_status e (RobotStatus.set_navigation_env_active e.status true)

abbrev pub clear_environment : Executor → Executor
clear_environment e = put_status e (RobotStatus.clear_navigation_environment e.status)

-- `++id` on an unsigned 64-bit number.
abbrev pub open_attempt : Attempt → Attempt
open_attempt a = record { pending = true; id = (a.id + 1) % 2 ^ 64 }

abbrev pub cancel_attempt : Attempt → Attempt
cancel_attempt a = record { pending = false; id = (a.id + 1) % 2 ^ 64 }

abbrev pub close_attempt : Attempt → Attempt
close_attempt a = record a { pending = false }

-- What the operating system says of a process: `waitpid` reaped it, `kill(pid, 0)` succeeded, or
-- failed with EPERM.
pub record PidCheck : Type 0 where
  pub reaped : Bool
  pub signalable : Bool
  pub not_permitted : Bool

-- What a check for a running navigation environment finds: the process, and whether `pgrep` lists
-- one.
pub record Probe : Type 0 where
  pub nav : PidCheck
  pub processes_found : Bool
