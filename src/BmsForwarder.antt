-- ===== src/BmsForwarder.antt =====
-- The connection that takes the battery's state to its own service (src/bms/BmsForwarder.cc).
pub mod Reach
pub mod Sound
pub mod Timers
use rover_ops_jm.Prelude.{
  ℕ, zero, suc, ◌+◌, ◌%◌, ◌^◌, String, Bool, true, false, ◌&&◌, ◌||◌, not, ◌==◌, nat_eq, List, [],
  ◌∷◌, ◌++◌, Option, none, some, if◌then◌else◌,
}
use rover_ops_jm.Prelude.Texts.{text_eq}

pub data Timer : Type 0 where
  reconnect : Timer
  robot_status : ℕ → Timer

pub data Task : Type 0 where
  dial : Task
  send_latest : Task

-- A text that went out, or the status of the robot with its charge.
pub data Sent : Type 0 where
  battery_status : String → Sent
  status : ℕ → Sent

-- The timers that run, the tasks that are posted, the oldest first, and what was sent, the newest
-- first. The empty text is none.
pub record Forwarder : Type 0 where
  pub asio_ready : Bool
  pub running : Bool
  pub websocket_connected : Bool
  pub websocket_connecting : Bool
  pub reconnect_scheduled : Bool
  pub websocket_generation : ℕ
  pub websocket_hdl : ℕ
  pub latest_soc : ℕ
  pub has_bms_state : Bool
  pub pending_payload : String
  pub timers : List Timer
  pub posted : List Task
  pub sent : List Sent

abbrev pub initial : Forwarder
initial = record {
  asio_ready = false;
  running = false;
  websocket_connected = false;
  websocket_connecting = false;
  reconnect_scheduled = false;
  websocket_generation = 0;
  websocket_hdl = 0;
  latest_soc = 0;
  has_bms_state = false;
  pending_payload = "";
  timers = [];
  posted = [];
  sent = [];
}

-- `start`; websocketpp lets a client be initialised once.
unfoldable pub start : Forwarder → Forwarder
start f =
    if f.running
    then f
    else record f { running = true; asio_ready = true; posted = f.posted ++ Task.dial ∷ [] }

-- `stop`: with the thread of the client its timers and tasks end.
unfoldable pub stop : Forwarder → Forwarder
stop f = if not f.running then f else record f { running = false; timers = []; posted = [] }

unfoldable pub schedule_reconnect : Forwarder → Forwarder
schedule_reconnect f =
    if not f.running || f.reconnect_scheduled
    then f
    else record f { reconnect_scheduled = true; timers = Timer.reconnect ∷ f.timers }

-- `fresh` is the handle of a new connection, if websocketpp gives one.
unfoldable pub connect_websocket : Forwarder → Option ℕ → Forwarder
connect_websocket f none =
    if not f.running || f.websocket_connected || f.websocket_connecting
    then f
    else schedule_reconnect (record f { websocket_connecting = false })
connect_websocket f (some h) =
    if not f.running || f.websocket_connected || f.websocket_connecting
    then f
    else record f { websocket_connecting = true; websocket_hdl = h }

-- `ok` tells whether the send succeeds.
unfoldable pub send_latest_payload : Forwarder → Bool → Forwarder
send_latest_payload f ok =
    if not f.websocket_connected || f.pending_payload == ""
    then f
    else if ok
    then record f { sent = Sent.battery_status f.pending_payload ∷ f.sent; pending_payload = "" }
    else schedule_reconnect (record f { websocket_connected = false })

unfoldable pub send_robot_status : Forwarder → Bool → Forwarder
send_robot_status f ok =
    if not f.websocket_connected || not f.has_bms_state
    then f
    else if ok
    then record f { sent = Sent.status f.latest_soc ∷ f.sent }
    else schedule_reconnect (record f { websocket_connected = false })

unfoldable pub schedule_robot_status : Forwarder → ℕ → Forwarder
schedule_robot_status f generation = record f { timers = Timer.robot_status generation ∷ f.timers }

unfoldable pub on_websocket_open : Forwarder → ℕ → Bool → Bool → Forwarder
on_websocket_open f hdl payload_ok status_ok =
    let generation = (f.websocket_generation + 1) % 2 ^ 64 in
    let opened = record f {
      websocket_hdl = hdl;
      websocket_connected = true;
      websocket_connecting = false;
      reconnect_scheduled = false;
      websocket_generation = generation;
    } in
    schedule_robot_status (send_robot_status (send_latest_payload opened payload_ok) status_ok)
      generation

-- `on_websocket_close` and `on_websocket_fail`, of any connection.
unfoldable pub on_websocket_end : Forwarder → Forwarder
on_websocket_end f =
    schedule_reconnect (record f { websocket_connected = false; websocket_connecting = false })

-- The timer of the robot's status; `failed` is its error code.
unfoldable pub robot_status_due : Forwarder → ℕ → Bool → Bool → Forwarder
robot_status_due f generation failed ok =
    let sent = send_robot_status f ok in
    if failed
      || not f.running
      || not f.websocket_connected
      || not (generation == f.websocket_generation)
    then f
    else if sent.websocket_connected
    then schedule_robot_status sent generation
    else sent

unfoldable pub reconnect_due : Forwarder → Bool → Option ℕ → Forwarder
reconnect_due f failed fresh =
    let due = record f { reconnect_scheduled = false } in
    if not failed && f.running then connect_websocket due fresh else due

unfoldable pub queue_websocket_payload : Forwarder → String → Forwarder
queue_websocket_payload f payload =
    let kept = record f { pending_payload = payload } in
    if not f.running then kept else record kept { posted = f.posted ++ Task.send_latest ∷ [] }

-- A snapshot, if one was received, with the text for the service.
unfoldable pub update_battery : Forwarder → Bool → ℕ → String → Forwarder
update_battery f received soc payload =
    let kept = record f { latest_soc = soc; has_bms_state = true } in
    if not received then f else queue_websocket_payload kept payload

unfoldable pub run_posted : List Task → Forwarder → Option ℕ → Bool → Forwarder
run_posted [] f fresh ok = f
run_posted (Task.dial ∷ ts) f fresh ok = connect_websocket (record f { posted = ts }) fresh
run_posted (Task.send_latest ∷ ts) f fresh ok = send_latest_payload (record f { posted = ts }) ok

unfoldable pub nth : ℕ → List Timer → Option Timer
nth n [] = none
nth zero (t ∷ ts) = some t
nth (suc n) (t ∷ ts) = nth n ts

unfoldable pub without : ℕ → List Timer → List Timer
without n [] = []
without zero (t ∷ ts) = ts
without (suc n) (t ∷ ts) = t ∷ without n ts

unfoldable pub timer_due : Forwarder → Timer → Bool → Option ℕ → Bool → Forwarder
timer_due f Timer.reconnect failed fresh ok = reconnect_due f failed fresh
timer_due f (Timer.robot_status generation) failed fresh ok =
    robot_status_due f generation failed ok

unfoldable pub run_timer : Forwarder → ℕ → Bool → Option ℕ → Bool → Forwarder
run_timer f n failed fresh ok = elim (nth n f.timers) [
  | none ↦ f
  | some t ↦ timer_due (record f { timers = without n f.timers }) t failed fresh ok
]

pub data Event : Type 0 where
  started stopped ended : Event
  opened : ℕ → Bool → Bool → Event
  timer : ℕ → Bool → Option ℕ → Bool → Event
  task : Option ℕ → Bool → Event
  battery : Bool → ℕ → String → Event

unfoldable pub step : Forwarder → Event → Forwarder
step f Event.started = start f
step f Event.stopped = stop f
step f Event.ended = on_websocket_end f
step f (Event.opened hdl payload_ok status_ok) = on_websocket_open f hdl payload_ok status_ok
step f (Event.timer n failed fresh ok) = run_timer f n failed fresh ok
step f (Event.task fresh ok) = run_posted f.posted f fresh ok
step f (Event.battery received soc payload) = update_battery f received soc payload
