-- ===== src/Motion.antt =====
-- The motion commands of the web (src/motionControl/motionHandle.cc). Velocities are floating-point
-- numbers of the machine: a type with its zero and the test that a number is nearly zero. Times are
-- milliseconds of the steady clock.
use rover_ops_jm.Prelude.{
  ℕ, ◌+◌, ◌<◌, String, Bool, true, false, ◌&&◌, ◌||◌, not, ◌==◌, nat_eq, ltb, leb, if◌then◌else◌,
  List, [], ◌∷◌, Option, none, some,
}
use rover_ops_jm.Prelude.Texts.{text_eq}
pub mod Idle
pub mod Watch
pub mod Stop

-- What is published: the mode and the velocities ahead, aside and around.
pub record MotionCmd (V : Type 0) : Type 0 where
  pub target_mode : String
  pub lin_x : V
  pub lin_y : V
  pub ang_z : V

pub record Motion (V : Type 0) : Type 0 where
  pub motion_target_mode : String
  pub motion_lin_x : V
  pub motion_lin_y : V
  pub motion_ang_z : V
  pub motion_publish_active : Bool
  pub last_motion_command_time : ℕ
  pub last_idle_stand_time : ℕ
  pub last_pose_command_time : ℕ
  pub last_pose_command : String
  pub robot_state_received : Bool
  pub robot_blocks_idle_stand : Bool
  pub published : List (MotionCmd V)

-- A member that should hold a velocity, as `read_velocity` finds it.
pub data Field (V : Type 0) : Type 0 where
  absent unreadable : Field V
  value : V → Field V

-- What the handler reads of a message: the command and the two velocities.
pub record Control (V : Type 0) : Type 0 where
  pub command : String
  pub linear : Field V
  pub angular : Field V

module _ {V : Type 0} (zero : V) (is_near_zero : V → Bool) where
  unfoldable pub publish : Motion V → Motion V
  publish m = record m {
    published =
        record {
          target_mode = m.motion_target_mode;
          lin_x = m.motion_lin_x;
          lin_y = m.motion_lin_y;
          ang_z = m.motion_ang_z;
        }
        ∷ m.published;
  }

  unfoldable pub is_given : Field V → Bool
  is_given Field.absent = false
  is_given Field.unreadable = true
  is_given (Field.value v) = true

  unfoldable pub is_zero : Field V → Bool
  is_zero Field.absent = true
  is_zero Field.unreadable = false
  is_zero (Field.value v) = is_near_zero v

  -- `is_stop_or_estop`
  unfoldable pub is_stop_or_estop : Control V → Bool
  unfolding is_given is_zero
  is_stop_or_estop c =
      if c.command == "stop" || c.command == "emergency_stop"
      then true
      else if not (c.command == "")
      then false
      else (is_given c.linear || is_given c.angular) && is_zero c.linear && is_zero c.angular

  unfoldable pub read_velocity : Field V → Option V
  read_velocity Field.absent = some zero
  read_velocity Field.unreadable = none
  read_velocity (Field.value v) = some v

  -- The end of the locked part, and the publication behind it. The clock is read once.
  unfoldable pub conclude : Motion V → ℕ → Bool → Motion V
  conclude m now once =
      let active = record m { last_motion_command_time = now; motion_publish_active = true } in
      if once then publish active else active

  unfoldable pub halt : Motion V → Motion V
  halt m = record m {
    motion_lin_x = zero;
    motion_lin_y = zero;
    motion_ang_z = zero;
    motion_publish_active = false;
  }

  unfoldable pub pose : Motion V → ℕ → String → Motion V
  pose m now command =
      if m.last_pose_command == command && ltb now (m.last_pose_command_time + 3000)
      then m
      else conclude
          (record (halt m) {
            last_pose_command = command;
            last_pose_command_time = now;
            motion_target_mode = if command == "down" then "lie_down" else "stand";
          })
          now true

  unfoldable pub move : Motion V → ℕ → V → V → Motion V
  move m now linear angular =
      let is_zero_velocity = is_near_zero linear && is_near_zero angular in
      let already_stopped =
        not m.motion_publish_active
        && is_near_zero m.motion_lin_x
        && is_near_zero m.motion_lin_y
        && is_near_zero m.motion_ang_z in
      if is_zero_velocity && already_stopped
      then conclude m now false
      else conclude
          (record m {
            last_pose_command = "";
            motion_target_mode = "running";
            motion_lin_x = linear;
            motion_lin_y = zero;
            motion_ang_z = angular;
            motion_publish_active = not is_zero_velocity;
          })
          now true

  -- `stop` and `emergency_stop`.
  unfoldable pub stop : Motion V → ℕ → Motion V
  stop m now =
      conclude
        (record (halt m) {
          last_pose_command = "";
          motion_target_mode =
              if m.motion_target_mode == "" then "running" else m.motion_target_mode;
        })
        now true

  unfoldable pub is_move_command : Control V → Bool
  unfolding is_given
  is_move_command c =
      c.command == "move_forward"
      || c.command == "move_backward"
      || c.command == "turn_left"
      || c.command == "turn_right"
      || (c.command == "" && (is_given c.linear || is_given c.angular))

  unfoldable pub obey : Motion V → ℕ → Control V → V → V → Motion V
  obey m now c linear angular =
      if c.command == "down" || c.command == "stand"
      then pose m now c.command
      else if is_move_command c
      then move m now linear angular
      else if c.command == "stop" || c.command == "emergency_stop"
      then stop m now
      else if c.command == "emergency_stop_release" || c.command == "emergency_stop_force_clear"
      then conclude m now false
      else m

  unfoldable pub handle_action_control : Motion V → ℕ → Control V → Motion V
  handle_action_control m now c = elim (read_velocity c.linear) [
    | none ↦ m
    | some linear ↦ elim (read_velocity c.angular) [
      | none ↦ m
      | some angular ↦ obey m now c linear angular
    ]
  ]

  -- One round of `watchdog_loop`.
  unfoldable pub watchdog : Motion V → ℕ → Motion V
  watchdog m now =
      let timed_out = m.motion_publish_active && ltb (m.last_motion_command_time + 2000) now in
      let checked = if timed_out then record m { motion_publish_active = false } else m in
      let can_publish = m.robot_state_received && not m.robot_blocks_idle_stand in
      if not checked.motion_publish_active
        && can_publish
        && leb (checked.last_idle_stand_time + 500) now
      then record checked {
        last_idle_stand_time = now;
        published =
            record { target_mode = "stand"; lin_x = zero; lin_y = zero; ang_z = zero }
            ∷ checked.published;
      }
      else checked

  unfoldable pub robot_state_callback : Motion V → ℕ → Motion V
  robot_state_callback m mode_id = record m {
    robot_blocks_idle_stand = mode_id == 1 || mode_id == 2;
    robot_state_received = true;
  }
