-- ===== src/Tests/Network.antt =====
-- The gateway at concrete connections, messages and addresses.
use rover_ops_jm.Prelude.{
  ◌+◌, ◌*◌, ◌<◌, min, true, false, [], ◌∷◌, ◌++◌, some, ◌≡◌, ◌↔◌, refl, arith,
}
use rover_ops_jm.Prelude.Ints.{pos, min_int}
use rover_ops_jm.Gateway.State.{GatewayState, Value, Json, Config, Timer, Call, Gateway}
use rover_ops_jm.Gateway.Connection.{
  Peer, Answers, Sending, delay_ms, connect_to_web, close_web_connection, open_connection,
}
use rover_ops_jm.Gateway.Heartbeat.{connect_heartbeat, schedule_heartbeat}
use rover_ops_jm.Gateway.Handlers.{
  on_client_fail, on_client_open, welcome, tell_connected, run_posted, run_task,
}
use rover_ops_jm.Gateway.Endpoint.{
  update_web_endpoint, endpoint_of, after_scheme, before_path, after_user, split_authority, plain,
  default_port, scheme_mark,
}
use rover_ops_jm.Gateway.Endpoint.RoundTrip.{user, named, endpoint_of-url}
use rover_ops_jm.Gateway.Step.{Event, setup, prepared, step, set_up, next}
use rover_ops_jm.Gateway.Message.{
  is_command_expired, on_message, first_not_blank, codes, maybe_json,
}
use rover_ops_jm.Gateway.Message.Keys.{JsonLibrary, Members, number_of, find}
use rover_ops_jm.Gateway.Message.Window.{answers_of_cache, answers_of_history, cache-history}
use rover_ops_jm.Gateway.Message.Age.{
  time_of, is_thrown, IsBadNotice, is_command_expired_iff, on_message-thrown_iff,
}
use rover_ops_jm.Gateway.Backoff.{kicked_rounds, last_wait, kicked_rounds-wait}
use rover_ops_jm.Gateway.Backoff.Overflow.{is_negative, delay_ms-overflow}
use rover_ops_jm.Gateway.Frame.{has_retry, has_start}
use rover_ops_jm.Gateway.Recovery.{IsLive}
use rover_ops_jm.Gateway.Recovery.Reach.{Reach-IsLive}
use rover_ops_jm.Gateway.Heartbeat.Lost.{IsLost}
use rover_ops_jm.Gateway.Heartbeat.Failure.{run, failed_heartbeat-IsLost}

abbrev config : Config
config = record {
  ping_second = pos 2;
  command_timeout_ms = pos 60000;
  reconnect_max_attempts = pos 0;
  reconnect_base_delay_ms = pos 1000;
  reconnect_max_delay_ms = pos 60000;
}

abbrev notice : Members
notice = ("type", Value.text "kicked") ∷ ("reason", Value.integer 5) ∷ []

-- A library that reads every text as that notice.
abbrev json_library : JsonLibrary
json_library = record {
  parse = λ text. some (Json.object notice);
  dump_integer = λ n. "0";
  dump_key = λ type device seq id. id;
  dump = λ json. "{}";
}

abbrev dialling : Answers
dialling = record { peer = Peer.missing; fresh = some 1; sending = Sending.accepted }

abbrev dialling_too : Answers
dialling_too = record { peer = Peer.missing; fresh = some 2; sending = Sending.accepted }

-- After the set-up both connections are dialled.
abbrev dialled : Gateway
dialled = record (prepared "dog" true false) {
  state = GatewayState.connecting;
  web_host = b'h' ∷ [];
  web_port = b'8' ∷ b'0' ∷ [];
  client_connecting = true;
  hdl_webserver = 1;
  hdl_heartbeat = 2;
  calls = Call.connect 2 ∷ Call.connect 1 ∷ [];
}

set-up-dialled :
    step json_library config
      (setup (prepared "dog" true false) (b'h' ∷ [])).0
      (Event.task dialling dialling_too)
    ≡ some dialled
unfolding step setup update_web_endpoint endpoint_of after_scheme before_path after_user
    split_authority plain default_port run_posted run_task connect_to_web close_web_connection
    open_connection connect_heartbeat
set-up-dialled = refl

Reach-IsLive_example : IsLive config dialled
Reach-IsLive_example = Reach-IsLive json_library config (
    next (Event.task dialling dialling_too) (set_up "dog" true false (b'h' ∷ []) refl) tt
      set-up-dialled)

-- The heartbeat's connection fails, and the web service's opens.
abbrev opened : Gateway
opened = record dialled {
  state = GatewayState.connected;
  webserver_connected = true;
  client_connecting = false;
  connection_generation = 1;
  timers = Timer.heartbeat 1 ∷ Timer.stability 1 ∷ [];
}

dialled-opened :
    run json_library config (some dialled) (Event.failed 2 Peer.missing ∷ Event.opened 1 true ∷ [])
    ≡ some opened
unfolding run step on_client_fail on_client_open welcome schedule_heartbeat tell_connected
dialled-opened = refl

dialled-IsLost : IsLost 2 dialled
unfolding has_retry has_start
dialled-IsLost = record { down = refl; handle = refl; no_retry = refl; no_start = refl }

failed_heartbeat-IsLost_example : IsLost 2 opened
failed_heartbeat-IsLost_example =
    failed_heartbeat-IsLost json_library config 2 dialled opened Peer.missing
      (Event.opened 1 true ∷ []) dialled-IsLost (refl, tt) dialled-opened

cache-history_example :
    answers_of_cache (record { ids = []; id_set = [] }) ("a" ∷ "b" ∷ "a" ∷ [])
    ≡ answers_of_history [] ("a" ∷ "b" ∷ "a" ∷ [])
cache-history_example = cache-history ("a" ∷ "b" ∷ "a" ∷ [])

-- "ws://me@h:90/x"
endpoint_of-url_example :
    endpoint_of (
      (b'w' ∷ b's' ∷ [])
      ++ scheme_mark
      ++ (((b'm' ∷ b'e' ∷ []) ++ b'@' ∷ [])
          ++ ((b'h' ∷ []) ++ b':' ∷ b'9' ∷ b'0' ∷ [])
          ++ b'/' ∷ b'x' ∷ []))
    ≡ (b'h' ∷ [], b'9' ∷ b'0' ∷ [])
endpoint_of-url_example =
    endpoint_of-url (b'w' ∷ b's' ∷ []) ((b'm' ∷ b'e' ∷ []) ++ b'@' ∷ [])
      ((b'h' ∷ []) ++ b':' ∷ b'9' ∷ b'0' ∷ []) (b'h' ∷ []) (b'0' ∷ []) (b'/' ∷ b'x' ∷ []) b'9'
      (refl, (refl, tt)) (user (b'm' ∷ b'e' ∷ []) (refl, (refl, tt)))
      (named (b'h' ∷ []) (b'9' ∷ b'0' ∷ []) refl (refl, tt) (refl, tt)) (refl, (refl, tt))
      (refl, (refl, tt)) (refl, (refl, tt)) refl

abbrev stamped : Members
stamped = ("timestamp", Value.integer 1700000000) ∷ []

stamp-read : number_of "timestamp" stamped ≡ some 1700000000
unfolding number_of find
stamp-read = refl

-- A time stamp in seconds.
is_command_expired_iff_example :
    (is_command_expired config stamped 1700000070000 ≡ true)
    ↔ (time_of 1700000000 + 60000 < 1700000070000)
is_command_expired_iff_example =
    is_command_expired_iff config stamped 60000 1700000070000 1700000000 refl (omega arith)
      (omega arith) (omega arith) stamp-read

first_of_notice : first_not_blank (codes " {}") ≡ some b'{'
unfolding first_not_blank
first_of_notice = refl

brace-json : maybe_json b'{' ≡ true
unfolding maybe_json
brace-json = refl

on_message-thrown_iff_example :
    (is_thrown (on_message json_library config dialled 1 " {}" 0) ≡ true) ↔ IsBadNotice notice
on_message-thrown_iff_example =
    on_message-thrown_iff json_library config dialled 1 " {}" 0 notice b'{' first_of_notice
      brace-json refl

abbrev idle : Gateway
idle = record dialled { client_connecting = false }

kicked_rounds-wait_example :
    last_wait (kicked_rounds config (3 ∷ 4 ∷ []) Peer.closed idle).timers
    ≡ some (min_int (pos (min 2 6 * 10000)) (pos 60000))
kicked_rounds-wait_example =
    kicked_rounds-wait config 3 (4 ∷ []) Peer.closed idle refl refl refl refl (refl, (refl, tt))
      refl

delay_ms-overflow_example : is_negative (delay_ms config 214749) ≡ true
delay_ms-overflow_example = delay_ms-overflow config 214749 (omega arith) (omega arith)
