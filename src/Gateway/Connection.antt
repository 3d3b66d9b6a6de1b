-- ===== src/Gateway/Connection.antt =====
-- How the gateway opens, closes and reopens its connection to the web service
-- (src/gateway/gateway.cc).
use rover_ops_jm.Prelude.{
  ℕ, ◌+◌, ◌*◌, ◌%◌, String, Bool, true, false, ◌&&◌, ◌||◌, not, ◌==◌, nat_eq, [], ◌∷◌, ◌++◌, Option,
  none, some, if◌then◌else◌,
}
use rover_ops_jm.Prelude.Ints.{ℤ, int32, le_int, min_int, is_positive}
use rover_ops_jm.Gateway.State.{
  GatewayState, Config, Timer, Task, Work, Call, Gateway, update_state, call, start_background_task,
}

-- What websocketpp finds under the handle of the web service: nothing, a closed connection, an open
-- one with the success of its close, or one in between.
pub data Peer : Type 0 where
  missing closed between : Peer
  open_one : Bool → Peer

-- What becomes of a text to be sent.
pub data Sending : Type 0 where
  no_connection not_open refused accepted : Sending

-- The answers that one step may need. `fresh` is the handle of a new connection.
pub record Answers : Type 0 where
  pub peer : Peer
  pub fresh : Option ℕ
  pub sending : Sending

abbrev pub is_same_hdl : ℕ → ℕ → Bool
is_same_hdl a b = a == b

-- The wait before a reconnection, for the number of attempts so far.
unfoldable pub delay_ms : Config → ℕ → ℤ
delay_ms c attempts =
    min_int (if attempts == 0 then c.reconnect_base_delay_ms else int32 (attempts * 10000))
      c.reconnect_max_delay_ms

unfoldable pub is_exhausted : Config → ℕ → Bool
is_exhausted c attempts =
    is_positive c.reconnect_max_attempts && le_int c.reconnect_max_attempts (int32 attempts)

unfoldable pub schedule_reconnect : Config → Gateway → Gateway
schedule_reconnect c g =
    if g.is_stopping
    then g
    else if g.webserver_connected || g.client_connecting
    then g
    else if g.reconnect_scheduled
    then g
    else if is_exhausted c g.reconnect_attempts
    then update_state (record g { reconnect_scheduled = false }) GatewayState.degraded
    else record g {
      reconnect_scheduled = true;
      reconnect_attempts = (g.reconnect_attempts + 1) % 4294967296;
      state = GatewayState.reconnecting;
      timers = Timer.reconnect (delay_ms c g.reconnect_attempts) ∷ g.timers;
    }

-- The Boolean tells whether there was a connection to close.
unfoldable pub close_web_connection : Gateway → Peer → Gateway × Bool
close_web_connection g Peer.missing = (g, false)
close_web_connection g Peer.closed = (g, false)
close_web_connection g (Peer.open_one true) = (call g (Call.close g.hdl_webserver), true)
close_web_connection g (Peer.open_one false) =
    (call (call g (Call.close g.hdl_webserver)) (Call.terminate g.hdl_webserver), true)
close_web_connection g Peer.between = (call g (Call.terminate g.hdl_webserver), true)

-- The rest of `connect_to_web`, once the old connection is seen to be gone.
unfoldable pub open_connection : Config → Gateway → Option ℕ → Gateway
open_connection c g none = schedule_reconnect c (record g { client_connecting = false })
open_connection c g (some h) = call (record g { hdl_webserver = h }) (Call.connect h)

unfoldable pub connect_to_web : Config → Gateway → Answers → Gateway
connect_to_web c g a =
    if g.is_stopping || g.webserver_connected || g.client_connecting
    then g
    else let (closing, had_one) =
        close_web_connection (record g { client_connecting = true }) a.peer in
      if had_one
      then schedule_reconnect c (record closing { client_connecting = false })
      else open_connection c (update_state closing GatewayState.connecting) a.fresh

-- The timer that `schedule_reconnect` sets; `failed` is its error code.
unfoldable pub reconnect_due : Config → Gateway → Bool → Answers → Gateway
reconnect_due c g failed a =
    let due = record g { reconnect_scheduled = false } in
    if failed
    then due
    else if not g.is_stopping && not g.webserver_connected && not g.client_connecting
    then connect_to_web c due a
    else due

unfoldable pub run_network_diagnostics : Gateway → Gateway
run_network_diagnostics g =
    if g.network_diagnostic_running
    then g
    else start_background_task (record g { network_diagnostic_running = true })
        (Work.diagnostics g.web_host g.web_port)

unfoldable pub cleanup_and_reconnect : Config → Gateway → Bool → Peer → Gateway
cleanup_and_reconnect c g reconnect peer =
    let (cleaned, _) = close_web_connection g peer in
    if reconnect then schedule_reconnect c cleaned else cleaned

-- `mark_web_disconnected` up to the cleanup.
unfoldable pub note_disconnected : Gateway → Gateway
note_disconnected g = run_network_diagnostics (record g {
  webserver_connected = false;
  client_connecting = false;
  state = GatewayState.degraded;
  connection_generation = (g.connection_generation + 1) % 4294967296;
})

-- `on_client_thread` tells whether the caller runs on the thread of the client.
unfoldable pub mark_web_disconnected : Config → Gateway → Bool → Bool → Peer → Gateway
mark_web_disconnected c g reconnect on_client_thread peer =
    let noted = note_disconnected g in
    if on_client_thread
    then cleanup_and_reconnect c noted reconnect peer
    else record noted { posted = noted.posted ++ Task.cleanup reconnect ∷ [] }

-- The end of `send_to_web_now` over a connection that is noted as open.
unfoldable pub send_over : Config → Gateway → String → Sending → Peer → Gateway × Bool
send_over c g payload Sending.no_connection peer = (mark_web_disconnected c g true true peer, false)
send_over c g payload Sending.not_open peer = (mark_web_disconnected c g true true peer, false)
send_over c g payload Sending.refused peer =
    (mark_web_disconnected c (call g (Call.send g.hdl_webserver payload)) true true peer, false)
send_over c g payload Sending.accepted peer = (call g (Call.send g.hdl_webserver payload), true)

-- `send_to_web_now` on the strand of the client; the Boolean is its result.
unfoldable pub send_to_web_now : Config → Gateway → String → Answers → Gateway × Bool
send_to_web_now c g payload a =
    if not g.webserver_connected then (g, false) else send_over c g payload a.sending a.peer
