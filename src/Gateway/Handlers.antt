-- ===== src/Gateway/Handlers.antt =====
-- What the gateway does at the events of its connections, and how it starts and stops
-- (src/gateway/gateway.cc).
use rover_ops_jm.Prelude.{
  ℕ, ◌+◌, ◌%◌, min, String, Bool, true, false, ◌&&◌, ◌||◌, not, ◌==◌, nat_eq, List, [], ◌∷◌, ◌++◌,
  if◌then◌else◌,
}
use rover_ops_jm.Prelude.Ints.{max_int32}
use rover_ops_jm.Gateway.State.{
  GatewayState, Config, Timer, Task, Work, Worker, Call, Gateway, update_state, call,
}
use rover_ops_jm.Gateway.Connection.{
  Peer, Answers, is_same_hdl, schedule_reconnect, connect_to_web, cleanup_and_reconnect,
  mark_web_disconnected, send_to_web_now,
}
use rover_ops_jm.Gateway.Heartbeat.{connect_heartbeat, schedule_heartbeat}

-- The connection of the handset to the local server.
unfoldable pub on_server_open : Gateway → ℕ → Gateway
on_server_open g hdl = record g { hdl_handset = hdl; handset_connected = true }

unfoldable pub on_server_close : Gateway → Gateway
on_server_close g = record g { handset_connected = false }

unfoldable pub tell_connected : Gateway → Gateway
tell_connected g = if g.has_connected_callback then call g Call.connected_callback else g

-- The end of `on_client_open`: `found` tells whether the connection is found under its handle.
unfoldable pub welcome : Config → Gateway → Bool → Gateway
welcome c g false =
    schedule_reconnect c
      (update_state (record g { webserver_connected = false }) GatewayState.degraded)
welcome c g true =
    tell_connected
      (schedule_heartbeat c (update_state g GatewayState.connected) g.connection_generation)

unfoldable pub on_client_open : Config → Gateway → ℕ → Bool → Gateway
on_client_open c g hdl found =
    let generation = (g.connection_generation + 1) % 4294967296 in
    if is_same_hdl hdl g.hdl_heartbeat
    then schedule_heartbeat c (record g { heartbeat_connected = true }) 0
    else if not (is_same_hdl hdl g.hdl_webserver)
    then call g (Call.close hdl)
    else welcome c
        (record g {
          hdl_webserver = hdl;
          client_connecting = false;
          webserver_connected = true;
          reconnect_scheduled = false;
          reconnect_attempts = 0;
          connection_generation = generation;
          timers = Timer.stability generation ∷ g.timers;
        })
        found

-- The close of the web service's connection.
unfoldable pub web_closed : Config → Gateway → Peer → Gateway
web_closed c g peer =
    let kicks = min (g.kicked_reconnect_attempts + 1) 6 in
    let closed = record g { kicked_by_new_default_connection = false; client_connecting = false } in
    if g.kicked_by_new_default_connection
    then mark_web_disconnected c
        (record closed {
          kicked_reconnect_attempts = kicks;
          reconnect_attempts = max_int32 g.reconnect_attempts kicks;
        })
        true true peer
    else mark_web_disconnected c (record closed { kicked_reconnect_attempts = 0 }) true true peer

unfoldable pub on_client_close : Config → Gateway → ℕ → Peer → Gateway
on_client_close c g hdl peer =
    let silent = record g { heartbeat_connected = false } in
    if is_same_hdl hdl g.hdl_heartbeat
    then (if g.is_stopping
        then silent
        else record silent { timers = Timer.heartbeat_reconnect ∷ g.timers })
    else if not (is_same_hdl hdl g.hdl_webserver)
    then g
    else web_closed c g peer

unfoldable pub on_client_fail : Config → Gateway → ℕ → Peer → Gateway
on_client_fail c g hdl peer =
    if not (is_same_hdl hdl g.hdl_webserver)
    then g
    else mark_web_disconnected c (record g { client_connecting = false }) true true peer

unfoldable pub on_pong_timeout : Config → Gateway → ℕ → Peer → Gateway
on_pong_timeout c g hdl peer =
    if not (is_same_hdl hdl g.hdl_webserver) || not g.webserver_connected
    then g
    else mark_web_disconnected c g true true peer

-- The timer that `on_client_open` sets, half a minute after it.
unfoldable pub stability_due : Gateway → ℕ → Bool → Gateway
stability_due g generation failed =
    if not failed && g.webserver_connected && g.connection_generation == generation
    then record g { kicked_reconnect_attempts = 0 }
    else g

-- A task of the client's strand. `forward` is what `on_message` posts for the handset.
unfoldable pub run_task : Config → Gateway → Task → Answers → Answers → Gateway
run_task c g Task.connect_both a b = connect_heartbeat (connect_to_web c g a) b.fresh
run_task c g (Task.cleanup reconnect) a b = cleanup_and_reconnect c g reconnect a.peer
run_task c g (Task.send payload) a b = (send_to_web_now c g payload a).0
run_task c g (Task.forward payload) a b =
    if not g.webserver_connected then g else (send_to_web_now c g payload a).0

-- The strand takes its oldest task.
unfoldable pub run_posted : Config → List Task → Gateway → Answers → Answers → Gateway
run_posted c [] g a b = g
run_posted c (t ∷ ts) g a b = run_task c (record g { posted = ts }) t a b

-- A worker comes to its end.
unfoldable pub run_work : Gateway → Work → Gateway
run_work g (Work.diagnostics host port) = record g { network_diagnostic_running = false }
run_work g (Work.message json) = call g (Call.message_callback json)

abbrev pub is_web_connected : Gateway → Bool
is_web_connected g = not g.is_stopping && g.webserver_connected

-- `sendToWeb`, from the client's thread and from any other; there the answer comes with the task.
unfoldable pub send_to_web : Config → Gateway → Bool → String → Answers → Gateway
send_to_web c g on_client_thread payload a =
    if not (is_web_connected g)
    then g
    else if on_client_thread
    then (send_to_web_now c g payload a).0
    else record g { posted = g.posted ++ Task.send payload ∷ [] }

-- Two seconds without an answer to a posted `sendToWeb`, or an exception of the task.
unfoldable pub send_timed_out : Config → Gateway → Bool → Peer → Gateway
send_timed_out c g on_client_thread peer = mark_web_disconnected c g true on_client_thread peer

unfoldable pub broadcast_data : Gateway → String → Gateway
broadcast_data g payload = record g {
  handset_posted = g.handset_posted ++ payload ∷ [];
  posted = g.posted ++ Task.send payload ∷ [];
}

-- The task of the server's strand that `broadcast_data` posts; `ok` tells whether the send succeeds.
unfoldable pub run_handset_posted : List String → Gateway → Bool → Gateway
run_handset_posted [] g ok = g
run_handset_posted (payload ∷ rest) g ok =
    let taken = record g { handset_posted = rest } in
    let sent = call taken (Call.to_handset g.hdl_handset payload) in
    if not g.handset_connected
    then taken
    else if ok
    then sent
    else update_state (record sent { handset_connected = false }) GatewayState.degraded

-- `stop`, up to the joins; a second call does nothing.
unfoldable pub stop : Gateway → Gateway
stop g =
    if g.is_stopping
    then g
    else update_state
        (record g {
          is_stopping = true;
          webserver_connected = false;
          heartbeat_connected = false;
          handset_connected = false;
        })
        GatewayState.stopping

-- `worker.get()` over the workers that are left.
unfoldable pub run_all : Gateway → List Worker → Gateway
run_all g [] = g
run_all g (w ∷ ws) = run_all (if w.finished then g else run_work g w.work) ws

-- `stop` once the threads of the two endpoints are joined, with their timers and tasks: the
-- workers end, and the callbacks go.
unfoldable pub end_stop : Gateway → Gateway
end_stop g =
    let joined = run_all (record g { timers = []; posted = []; handset_posted = [] }) g.workers in
    record joined {
      workers = [];
      has_message_callback = false;
      has_broadcast_callback = false;
      has_connected_callback = false;
    }
