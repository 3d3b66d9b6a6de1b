-- ===== src/Tests/Battery.antt =====
-- The battery and its forwarder at concrete runs.
use rover_ops_jm.Prelude.{arith, ℕ, true, false, [], ◌∷◌, some, ◌≡◌, ◌↔◌, refl}
use rover_ops_jm.Battery.Alarms.{Level, BmsState}
use rover_ops_jm.Battery.{has_fault, join_alarm_labels, active_levels, active_flags}
use rover_ops_jm.Battery.Fault.{IsFaulty, has_fault_iff}
use rover_ops_jm.BmsForwarder.{
  Timer, Task, Sent, Forwarder, initial, start, connect_websocket, send_latest_payload,
  send_robot_status, schedule_robot_status, schedule_reconnect, on_websocket_open, on_websocket_end,
  update_battery, queue_websocket_payload, run_posted, Event, step,
}
use rover_ops_jm.BmsForwarder.Sound.{IsSound}
use rover_ops_jm.BmsForwarder.Reach.{Reach, here, next, Reach-IsSound}

abbrev levels_of : Level → ℕ
levels_of Level.soc_low_level = 2
levels_of Level.dsg_high_temp_level = 1
levels_of k = 0

-- A battery that is low and hot.
abbrev low_and_hot : BmsState
low_and_hot = record { level = levels_of; flag = λ f. false; status = λ s. false; soc_percent = 9 }

labels-low_and_hot :
    join_alarm_labels (active_levels low_and_hot) (active_flags low_and_hot) ≡ "放电高温告警,SOC过低告警"
unfolding join_alarm_labels active_levels active_flags
labels-low_and_hot = refl

has_fault_iff_example : (has_fault low_and_hot ≡ true) ↔ IsFaulty low_and_hot
has_fault_iff_example = has_fault_iff low_and_hot

-- The forwarder connects and sends what came meanwhile, and then its connection closes.
abbrev opened : Forwarder
opened = record initial {
  asio_ready = true;
  running = true;
  websocket_connected = true;
  websocket_generation = 1;
  websocket_hdl = 1;
  latest_soc = 80;
  has_bms_state = true;
  timers = Timer.robot_status 1 ∷ [];
  posted = Task.send_latest ∷ [];
  sent = Sent.status 80 ∷ Sent.battery_status "{}" ∷ [];
}

abbrev closed : Forwarder
closed = record opened {
  websocket_connected = false;
  reconnect_scheduled = true;
  timers = Timer.reconnect ∷ Timer.robot_status 1 ∷ [];
}

-- What precedes: the dial, with the text that waits.
abbrev waiting : Forwarder
waiting = record initial {
  asio_ready = true;
  running = true;
  websocket_connecting = true;
  websocket_hdl = 1;
  latest_soc = 80;
  has_bms_state = true;
  pending_payload = "{}";
  posted = Task.send_latest ∷ [];
}

abbrev dial : Event
dial = Event.task (some 1) true

step-waiting : waiting ≡ step (step (step initial Event.started) (Event.battery true 80 "{}")) dial
unfolding step start update_battery queue_websocket_payload run_posted connect_websocket
step-waiting = refl

step-opened : opened ≡ step waiting (Event.opened 1 true true)
unfolding step on_websocket_open send_latest_payload send_robot_status schedule_robot_status
step-opened = refl

step-closed : closed ≡ step opened Event.ended
unfolding step on_websocket_end schedule_reconnect
step-closed = refl

waiting-Reach : Reach waiting
waiting-Reach =
    next dial (next (Event.battery true 80 "{}") (next Event.started here refl refl) tt refl) tt
      step-waiting

Reach-IsSound_example : IsSound 1 closed
Reach-IsSound_example = Reach-IsSound (
    next Event.ended (next (Event.opened 1 true true) waiting-Reach (omega arith) step-opened) tt
      step-closed)
