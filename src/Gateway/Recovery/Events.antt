-- ===== src/Gateway/Recovery/Events.antt =====
-- Every event leaves the gateway a way back to the web service.
use rover_ops_jm.Prelude.{ℕ, Bool, true, false, ◌||◌, not, if_keeps, Option, none, some, arith}
use rover_ops_jm.Gateway.State.{Config, Gateway}
use rover_ops_jm.Gateway.Connection.{Peer, is_same_hdl}
use rover_ops_jm.Gateway.Heartbeat.{
  Beat, connect_heartbeat, schedule_heartbeat, send_heartbeat_now, ping_after, beat, heartbeat_due,
}
use rover_ops_jm.Gateway.Handlers.{
  tell_connected, welcome, on_client_open, web_closed, on_client_close, on_client_fail,
  on_pong_timeout,
}
use rover_ops_jm.Gateway.Recovery.{
  has_reconnect, IsLive, schedule_reconnect-IsLive, mark_web_disconnected-IsLive,
}

module _ (c : Config) where
  -- A heartbeat's timer beside the others changes nothing.
  pub schedule_heartbeat-IsLive :
      (g : Gateway) (generation : ℕ) → IsLive c g → IsLive c (schedule_heartbeat c g generation)
  unfolding schedule_heartbeat has_reconnect
  schedule_heartbeat-IsLive g generation h = ground arith

  pub connect_heartbeat-IsLive :
      (g : Gateway) (fresh : Option ℕ) → IsLive c g → IsLive c (connect_heartbeat g fresh)
  unfolding connect_heartbeat
  connect_heartbeat-IsLive g none h = h
  connect_heartbeat-IsLive g (some n) h = ground arith

  ping_after-IsLive :
      (g : Gateway) (generation : ℕ) (b : Beat) (ok : Bool)
      → IsLive c g
      → IsLive c (ping_after c g generation b ok)
  unfolding ping_after
  ping_after-IsLive g generation b false h = h
  ping_after-IsLive g generation b true h =
      if_keeps (IsLive c) b.pinged
        (schedule_heartbeat-IsLive _ generation (record { known = h.known; live = h.live }))
        (mark_web_disconnected-IsLive c _ true b.peer h.known)

  send_heartbeat_now-IsLive :
      (g : Gateway) (ok : Bool) → IsLive c g → IsLive c (send_heartbeat_now g ok).0
  unfolding send_heartbeat_now
  send_heartbeat_now-IsLive g ok h = ground arith

  beat-IsLive :
      (g : Gateway) (generation : ℕ) (b : Beat) → IsLive c g → IsLive c (beat c g generation b)
  unfolding beat
  beat-IsLive g generation b h =
      ping_after-IsLive _ generation b _ (send_heartbeat_now-IsLive g b.sent h)

  pub heartbeat_due-IsLive :
      (g : Gateway) (generation : ℕ) (failed : Bool) (b : Beat)
      → IsLive c g
      → IsLive c (heartbeat_due c g generation failed b)
  unfolding heartbeat_due
  heartbeat_due-IsLive g generation failed b h =
      ground (arith, schedule_heartbeat-IsLive g generation, beat-IsLive g generation b)

  tell_connected-IsLive : (g : Gateway) → IsLive c g → IsLive c (tell_connected g)
  unfolding tell_connected
  tell_connected-IsLive g h = ground arith

  welcome-IsLive : (g : Gateway) (found : Bool) → IsLive c g → IsLive c (welcome c g found)
  unfolding welcome
  welcome-IsLive g false h = schedule_reconnect-IsLive c _ h.known
  welcome-IsLive g true h = tell_connected-IsLive _ (
      schedule_heartbeat-IsLive _ g.connection_generation
        (record { known = h.known; live = h.live }))

  pub on_client_open-IsLive :
      (g : Gateway) (hdl : ℕ) (found : Bool) → IsLive c g → IsLive c (on_client_open c g hdl found)
  unfolding on_client_open
  on_client_open-IsLive g hdl found h =
      if_keeps (IsLive c) (is_same_hdl hdl g.hdl_heartbeat)
        (schedule_heartbeat-IsLive _ 0 (record { known = h.known; live = h.live }))
        (if_keeps (IsLive c) (not (is_same_hdl hdl g.hdl_webserver))
          (record { known = h.known; live = h.live })
          (welcome-IsLive _ found (record { known = λ _ e. cc; live = ground arith })))

  web_closed-IsLive : (g : Gateway) (peer : Peer) → IsLive c g → IsLive c (web_closed c g peer)
  unfolding web_closed
  web_closed-IsLive g peer h =
      if_keeps (IsLive c) g.kicked_by_new_default_connection
        (mark_web_disconnected-IsLive c _ true peer h.known)
        (mark_web_disconnected-IsLive c _ true peer h.known)

  pub on_client_close-IsLive :
      (g : Gateway) (hdl : ℕ) (peer : Peer) → IsLive c g → IsLive c (on_client_close c g hdl peer)
  unfolding on_client_close has_reconnect
  on_client_close-IsLive g hdl peer h = ground (arith, web_closed-IsLive g peer)

  pub on_client_fail-IsLive :
      (g : Gateway) (hdl : ℕ) (peer : Peer) → IsLive c g → IsLive c (on_client_fail c g hdl peer)
  unfolding on_client_fail
  on_client_fail-IsLive g hdl peer h =
      if_keeps (IsLive c) (not (is_same_hdl hdl g.hdl_webserver)) h
        (mark_web_disconnected-IsLive c _ true peer h.known)

  pub on_pong_timeout-IsLive :
      (g : Gateway) (hdl : ℕ) (peer : Peer) → IsLive c g → IsLive c (on_pong_timeout c g hdl peer)
  unfolding on_pong_timeout
  on_pong_timeout-IsLive g hdl peer h =
      if_keeps (IsLive c) (not (is_same_hdl hdl g.hdl_webserver) || not g.webserver_connected) h
        (mark_web_disconnected-IsLive c g true peer h.known)
