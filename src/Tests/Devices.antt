-- ===== src/Tests/Devices.antt =====
-- The outbox, the motion commands and the lights at concrete values.
use rover_ops_jm.Prelude.{
  List, some, none, ℕ, Bool, true, false, ◌==◌, nat_eq, [], ◌∷◌, ◌≡◌, inl, inr, ◌+◌, refl,
}
use rover_ops_jm.Robot.State.{MotionMode}
use rover_ops_jm.RobotStatus.{publish_snapshot, initial}
use rover_ops_jm.RobotStatus.Updates.{
  Update, update_all, latest_state, latest_battery, latest_active, latest_map, update_all-snapshot,
}
use rover_ops_jm.Outbox.{Item, Outbox, Event}
use rover_ops_jm.Outbox.Delivery.{count, tally, handed, run-tally}
use rover_ops_jm.Throttle.{
  Throttle, Turn, exchange, should_send, handle_set_position_upload_frequency, turn_at, turn, run,
}
use rover_ops_jm.Throttle.Alone.{tries, alone-run}
use rover_ops_jm.Throttle.Spacing.{Spaced, set_frequency-Spaced}
use rover_ops_jm.Motion.{
  Motion, Field, Control, handle_action_control, is_stop_or_estop, read_velocity,
}
use rover_ops_jm.Motion.Watch.{Accepted, handle_action_control-Accepted}
use rover_ops_jm.Motion.Stop.{IsStopped, handle_action_control-IsStopped, unreadable-ignored}
use rover_ops_jm.Light.{
  select_light_values, select_light_status, first, GoesWith, select_light_values-first,
}

abbrev waiting : Outbox
waiting = record {
  pending =
      record { has_position = false; has_robot_state = false; text = "a" }
      ∷ record { has_position = false; has_robot_state = true; text = "s" }
      ∷ [];
  flights = [];
  sent = [];
  late = [];
}

abbrev news : Item
news = record { has_position = false; has_robot_state = false; text = "b" }

-- Two threads send at the same time; the first send times out and goes out late.
abbrev crossing : List Event
crossing =
    Event.looks true
    ∷ Event.handed_over news
    ∷ Event.looks true
    ∷ Event.answered 1 false true
    ∷ Event.answered 0 true false
    ∷ Event.looks true
    ∷ Event.looks false
    ∷ []

run-tally_example :
    tally "b" (rover_ops_jm.Outbox.run waiting crossing)
    ≡ tally "b" waiting + count "b" (handed crossing)
run-tally_example = run-tally "b" waiting crossing

-- Velocities in whole units.
abbrev near_zero : ℕ → Bool
near_zero v = v == 0

abbrev walking : Motion ℕ
walking = record {
  motion_target_mode = "running";
  motion_lin_x = 2;
  motion_lin_y = 0;
  motion_ang_z = 1;
  motion_publish_active = true;
  last_motion_command_time = 5000;
  last_idle_stand_time = 0;
  last_pose_command_time = 0;
  last_pose_command = "";
  robot_state_received = true;
  robot_blocks_idle_stand = false;
  published = [];
}

abbrev halting : Control ℕ
halting = record { command = "stop"; linear = Field.absent; angular = Field.absent }

abbrev garbled : Control ℕ
garbled = record { command = "stop"; linear = Field.absent; angular = Field.unreadable }

handle_action_control-Accepted_example :
    Accepted 0 near_zero walking 6000 (handle_action_control 0 near_zero walking 6000 halting)
handle_action_control-Accepted_example =
    handle_action_control-Accepted 0 near_zero walking 6000 halting

handle_action_control-IsStopped_example :
    IsStopped 0 near_zero walking (handle_action_control 0 near_zero walking 6000 halting)
unfolding is_stop_or_estop read_velocity
handle_action_control-IsStopped_example =
    handle_action_control-IsStopped 0 near_zero refl walking 6000 halting 0 0 refl refl refl

unreadable-ignored_example :
    (is_stop_or_estop 0 near_zero garbled ≡ true)
    × (handle_action_control 0 near_zero walking 6000 garbled ≡ walking)
unreadable-ignored_example =
    unreadable-ignored 0 near_zero walking 6000 garbled (inl refl) (inr refl)

select_light_values-first_example :
    GoesWith
      (first (select_light_values true false true MotionMode.following false false false))
      (select_light_status true false true MotionMode.following)
select_light_values-first_example = select_light_values-first true false true MotionMode.following

abbrev told : List Update
told = Update.state "up" ∷ Update.environment true "maps/hall" "hall" ∷ Update.clear ∷ []

update_all-snapshot_example :
    (let shown = publish_snapshot (update_all initial told) in
      (shown.robot_state ≡ some "up")
      × (shown.bms_info ≡ none)
      × (shown.env_active ≡ false)
      × (shown.map ≡ none))
unfolding latest_state latest_battery latest_active latest_map
update_all-snapshot_example = update_all-snapshot told

abbrev throttle : Throttle
throttle = record { last_upload_position_ms = 700; upload_position_interval_ms = 1000; passes = [] }

-- Two threads ask at nearly one time, and a third one later.
abbrev turns : List Turn
turns =
    Turn.asks 5000
    ∷ Turn.asks 5001
    ∷ Turn.steps 0 false
    ∷ Turn.steps 0 false
    ∷ Turn.steps 1 false
    ∷ Turn.steps 1 false
    ∷ Turn.steps 0 false
    ∷ Turn.steps 0 false
    ∷ Turn.steps 0 false
    ∷ Turn.asks 5200
    ∷ Turn.steps 0 false
    ∷ Turn.steps 0 false
    ∷ Turn.steps 0 false
    ∷ []

run-turns :
    run (handle_set_position_upload_frequency throttle (some 100)).0 turns ≡ 5001 ∷ 5200 ∷ []
unfolding run turn turn_at should_send exchange handle_set_position_upload_frequency
run-turns = refl

set_frequency-Spaced_example :
    Spaced 100 0 (run (handle_set_position_upload_frequency throttle (some 100)).0 turns)
set_frequency-Spaced_example = set_frequency-Spaced throttle 100 turns tt

alone-run_example :
    run throttle (Turn.asks 2000 ∷ Turn.steps 0 false ∷ Turn.steps 0 false ∷ tries 3) ≡ 2000 ∷ []
alone-run_example = alone-run 3 throttle 2000 false false refl
