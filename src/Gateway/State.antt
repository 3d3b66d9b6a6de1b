-- ===== src/Gateway/State.antt =====
-- The fields of `gateway` (src/gateway/gateway.h), and what it hands to websocketpp: timers that
-- run, tasks posted to the client's strand, and calls.
use rover_ops_jm.Prelude.{ℕ, String, Bool, false, not, List, [], ◌∷◌, ◌++◌, keep_if, if◌then◌else◌}
use rover_ops_jm.Prelude.Ints.{ℤ}

pub data GatewayState : Type 0 where
  disconnected connecting connected reconnecting degraded stopping : GatewayState

-- A value of a JSON object, as far as the gateway looks: a text, an integer by its 64-bit pattern,
-- another number by the pattern that it converts to, or something else.
pub data Value : Type 0 where
  text : String → Value
  integer : ℕ → Value
  number : ℕ → Value
  other : Value

-- A parsed message: an object by its members, or a value that is no object.
pub data Json : Type 0 where
  object : List (String × Value) → Json
  scalar : Json

-- The parameters that the constructor reads.
pub record Config : Type 0 where
  pub ping_second : ℤ
  pub command_timeout_ms : ℤ
  pub reconnect_max_attempts : ℤ
  pub reconnect_base_delay_ms : ℤ
  pub reconnect_max_delay_ms : ℤ

pub data Timer : Type 0 where
  reconnect : ℤ → Timer
  heartbeat : ℕ → Timer
  heartbeat_reconnect : Timer
  stability : ℕ → Timer

-- What `boost::asio::post` hands to the client's strand.
pub data Task : Type 0 where
  connect_both : Task
  cleanup : Bool → Task
  send : String → Task
  forward : String → Task

-- What `start_background_task` runs.
pub data Work : Type 0 where
  diagnostics : List ℕ → List ℕ → Work
  message : Json → Work

pub record Worker : Type 0 where
  pub work : Work
  pub finished : Bool

-- What the gateway asks of websocketpp and of its callbacks. A connection is known by its handle.
pub data Call : Type 0 where
  connect : ℕ → Call
  close : ℕ → Call
  terminate : ℕ → Call
  send : ℕ → String → Call
  heartbeat : ℕ → Call
  ping : ℕ → Call
  to_handset : ℕ → String → Call
  message_callback : Json → Call
  broadcast_callback : String → Call
  connected_callback : Call

-- The commands that came last: the queue, the oldest first, and the set beside it.
pub record Recent : Type 0 where
  pub ids : List String
  pub id_set : List String

-- The handle 0 is the empty one. Counters hold 32-bit patterns. The host and the port of the web
-- service are lists of characters.
pub record Gateway : Type 0 where
  pub state : GatewayState
  pub is_stopping : Bool
  pub webserver_connected : Bool
  pub heartbeat_connected : Bool
  pub handset_connected : Bool
  pub client_connecting : Bool
  pub reconnect_scheduled : Bool
  pub network_diagnostic_running : Bool
  pub kicked_by_new_default_connection : Bool
  pub reconnect_attempts : ℕ
  pub kicked_reconnect_attempts : ℕ
  pub connection_generation : ℕ
  pub hdl_webserver : ℕ
  pub hdl_heartbeat : ℕ
  pub hdl_handset : ℕ
  pub device_id : String
  pub web_host : List ℕ
  pub web_port : List ℕ
  pub recent : Recent
  pub has_message_callback : Bool
  pub has_broadcast_callback : Bool
  pub has_connected_callback : Bool
  pub timers : List Timer
  pub posted : List Task
  pub handset_posted : List String
  pub workers : List Worker
  pub calls : List Call

abbrev pub initial : Gateway
initial = record {
  state = GatewayState.disconnected;
  is_stopping = false;
  webserver_connected = false;
  heartbeat_connected = false;
  handset_connected = false;
  client_connecting = false;
  reconnect_scheduled = false;
  network_diagnostic_running = false;
  kicked_by_new_default_connection = false;
  reconnect_attempts = 0;
  kicked_reconnect_attempts = 0;
  connection_generation = 0;
  hdl_webserver = 0;
  hdl_heartbeat = 0;
  hdl_handset = 0;
  device_id = "";
  web_host = [];
  web_port = [];
  recent = record { ids = []; id_set = [] };
  has_message_callback = false;
  has_broadcast_callback = false;
  has_connected_callback = false;
  timers = [];
  posted = [];
  handset_posted = [];
  workers = [];
  calls = [];
}

abbrev pub is_running : Worker → Bool
is_running w = not w.finished

-- `update_state`: a state that is there already is only not logged again.
abbrev pub update_state : Gateway → GatewayState → Gateway
update_state g s = record g { state = s }

abbrev pub call : Gateway → Call → Gateway
call g c = record g { calls = c ∷ g.calls }

-- Workers that have ended are dropped on the way.
unfoldable pub start_background_task : Gateway → Work → Gateway
start_background_task g w =
    let started : Worker = record { work = w; finished = false } in
    if g.is_stopping then g else record g { workers = keep_if is_running g.workers ++ started ∷ [] }
