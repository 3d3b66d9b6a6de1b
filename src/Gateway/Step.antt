-- ===== src/Gateway/Step.antt =====
-- One step of the gateway: an event of a connection, a timer that is due, a task of a strand, the
-- end of a worker, or a call by the rest of the program. The environment chooses the order, and
-- answers as it likes.
use rover_ops_jm.Prelude.{
  ℕ, zero, suc, String, Bool, true, false, not, List, [], ◌∷◌, ◌++◌, Option, none, some, ◌≡◌,
  if◌then◌else◌,
}
use rover_ops_jm.Gateway.State.{
  GatewayState, Config, Timer, Task, Work, Worker, Gateway, initial, update_state,
}
use rover_ops_jm.Gateway.Connection.{Peer, Answers, reconnect_due}
use rover_ops_jm.Gateway.Heartbeat.{Beat, connect_heartbeat, heartbeat_due}
use rover_ops_jm.Gateway.Handlers.{
  on_server_open, on_server_close, on_client_open, on_client_close, on_client_fail, on_pong_timeout,
  stability_due, run_posted, run_work, send_to_web, send_timed_out, broadcast_data,
  run_handset_posted, stop, end_stop,
}
use rover_ops_jm.Gateway.Endpoint.{update_web_endpoint}
use rover_ops_jm.Gateway.Message.{Outcome, on_message}
use rover_ops_jm.Gateway.Message.Keys.{JsonLibrary}

-- `setup` with `start_client`; a gateway without a callback for messages is refused.
unfoldable pub setup : Gateway → List ℕ → Gateway × Bool
setup g url =
    let connecting = update_state g GatewayState.connecting in
    let noted = update_web_endpoint connecting url in
    if not g.has_message_callback
    then (g, false)
    else (record noted { posted = noted.posted ++ Task.connect_both ∷ [] }, true)

-- The gateway as `main` prepares it before the set-up.
abbrev pub prepared : String → Bool → Bool → Gateway
prepared device_id broadcast connected = record initial {
  device_id = device_id;
  has_message_callback = true;
  has_broadcast_callback = broadcast;
  has_connected_callback = connected;
}

-- What the end of a timer meets.
pub record Due : Type 0 where
  pub failed : Bool
  pub answers : Answers
  pub beat : Beat

unfoldable pub timer_due : Config → Gateway → Timer → Due → Gateway
timer_due c g (Timer.reconnect delay) d = reconnect_due c g d.failed d.answers
timer_due c g (Timer.heartbeat generation) d = heartbeat_due c g generation d.failed d.beat
timer_due c g Timer.heartbeat_reconnect d =
    if d.failed then g else connect_heartbeat g d.answers.fresh
timer_due c g (Timer.stability generation) d = stability_due g generation d.failed

-- A timer is taken off the list when it is due.
unfoldable pub nth : ℕ → List Timer → Option Timer
nth n [] = none
nth zero (t ∷ ts) = some t
nth (suc n) (t ∷ ts) = nth n ts

unfoldable pub without : ℕ → List Timer → List Timer
without n [] = []
without zero (t ∷ ts) = ts
without (suc n) (t ∷ ts) = t ∷ without n ts

unfoldable pub run_timer : Config → Gateway → ℕ → Due → Gateway
run_timer c g n d = elim (nth n g.timers) [
  | none ↦ g
  | some t ↦ timer_due c (record g { timers = without n g.timers }) t d
]

-- The worker at a place of the list, marked as ended; its work is returned if it had not ended.
unfoldable pub take_work : ℕ → List Worker → List Worker × Option Work
take_work n [] = ([], none)
take_work zero (w ∷ ws) =
    (record w { finished = true } ∷ ws, if w.finished then none else some w.work)
take_work (suc n) (w ∷ ws) = let (rest, work) = take_work n ws in (w ∷ rest, work)

unfoldable pub end_work : Gateway → ℕ → Gateway
end_work g n =
    let (workers, work) = take_work n g.workers in
    elim work [ none ↦ g | some w ↦ run_work (record g { workers = workers }) w ]

pub data Event : Type 0 where
  server_open : ℕ → Event
  server_close : Event
  opened : ℕ → Bool → Event
  closed : ℕ → Peer → Event
  failed : ℕ → Peer → Event
  pong_timeout : ℕ → Peer → Event
  message : ℕ → String → ℕ → Event
  timer : ℕ → Due → Event
  task : Answers → Answers → Event
  work : ℕ → Event
  handset_task : Bool → Event
  send : Bool → String → Answers → Event
  send_timeout : Bool → Peer → Event
  broadcast : String → Event
  shutdown : Event
  shutdown_done : Event

-- An exception that leaves `on_message` ends the program.
module _ (l : JsonLibrary) (c : Config) where
  unfoldable pub step : Gateway → Event → Option Gateway
  step g (Event.server_open hdl) = some (on_server_open g hdl)
  step g Event.server_close = some (on_server_close g)
  step g (Event.opened hdl found) = some (on_client_open c g hdl found)
  step g (Event.closed hdl peer) = some (on_client_close c g hdl peer)
  step g (Event.failed hdl peer) = some (on_client_fail c g hdl peer)
  step g (Event.pong_timeout hdl peer) = some (on_pong_timeout c g hdl peer)
  step g (Event.message hdl payload now) = elim (on_message l c g hdl payload now) [
    | Outcome.returned h ↦ some h
    | Outcome.thrown h ↦ none
  ]
  step g (Event.timer n d) = some (run_timer c g n d)
  step g (Event.task a b) = some (run_posted c g.posted g a b)
  step g (Event.work n) = some (end_work g n)
  step g (Event.handset_task ok) = some (run_handset_posted g.handset_posted g ok)
  step g (Event.send mine payload a) = some (send_to_web c g mine payload a)
  step g (Event.send_timeout mine peer) = some (send_timed_out c g mine peer)
  step g (Event.broadcast payload) = some (broadcast_data g payload)
  step g Event.shutdown = some (stop g)
  step g Event.shutdown_done = some (if g.is_stopping then end_stop g else g)

-- websocketpp ends a timer with an error only when it is cancelled, which nothing does before the
-- shutdown.
abbrev pub IsPossible : Gateway → Event → Type 0
IsPossible g (Event.timer n d) = d.failed ≡ true → g.is_stopping ≡ true
IsPossible g event = Unit

module _ (l : JsonLibrary) (c : Config) where
  pub data Reach : Gateway → Type 0 where
    set_up :
        (device_id : String) (broadcast connected : Bool) (url : List ℕ) {g : Gateway}
        → g ≡ (setup (prepared device_id broadcast connected) url).0
        → Reach g
    next :
        {g h : Gateway} (event : Event)
        → Reach g
        → IsPossible g event
        → step l c g event ≡ some h
        → Reach h
