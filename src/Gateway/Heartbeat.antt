-- ===== src/Gateway/Heartbeat.antt =====
-- The heartbeat over its own connection (src/gateway/gateway.cc).
pub mod Failure
pub mod Lost
use rover_ops_jm.Prelude.{ℕ, Bool, true, false, ◌||◌, not, ◌∷◌, Option, none, some, if◌then◌else◌}
use rover_ops_jm.Prelude.Ints.{is_positive}
use rover_ops_jm.Gateway.State.{Config, Timer, Call, Gateway, call}
use rover_ops_jm.Gateway.Connection.{Peer, mark_web_disconnected}

unfoldable pub connect_heartbeat : Gateway → Option ℕ → Gateway
connect_heartbeat g none = g
connect_heartbeat g (some h) =
    if g.is_stopping || g.heartbeat_connected
    then g
    else call (record g { hdl_heartbeat = h }) (Call.connect h)

unfoldable pub schedule_heartbeat : Config → Gateway → ℕ → Gateway
schedule_heartbeat c g generation =
    if not (is_positive c.ping_second) || g.is_stopping
    then g
    else record g { timers = Timer.heartbeat generation ∷ g.timers }

-- What one beat meets: whether the message goes out, whether the ping does, and what a cleanup
-- finds.
pub record Beat : Type 0 where
  pub sent : Bool
  pub pinged : Bool
  pub peer : Peer

unfoldable pub send_heartbeat_now : Gateway → Bool → Gateway × Bool
send_heartbeat_now g ok =
    let tried = call g (Call.heartbeat g.hdl_heartbeat) in
    if not g.heartbeat_connected
    then (g, false)
    else if ok
    then (tried, true)
    else (record tried { heartbeat_connected = false }, false)

-- A beat once its message was tried: the ping, and the next beat.
unfoldable pub ping_after : Config → Gateway → ℕ → Beat → Bool → Gateway
ping_after c g generation b false = g
ping_after c g generation b true =
    let pinged = call g (Call.ping g.hdl_heartbeat) in
    if b.pinged
    then schedule_heartbeat c pinged generation
    else mark_web_disconnected c pinged true true b.peer

unfoldable pub beat : Config → Gateway → ℕ → Beat → Gateway
beat c g generation b =
    let (tried, ok) = send_heartbeat_now g b.sent in ping_after c tried generation b ok

-- The timer that `schedule_heartbeat` sets; `failed` is its error code.
unfoldable pub heartbeat_due : Config → Gateway → ℕ → Bool → Beat → Gateway
heartbeat_due c g generation failed b =
    if g.is_stopping
    then g
    else if failed
    then (if g.heartbeat_connected then schedule_heartbeat c g generation else g)
    else if g.heartbeat_connected
    then beat c g generation b
    else schedule_heartbeat c g generation
