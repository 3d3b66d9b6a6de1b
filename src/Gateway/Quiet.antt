-- ===== src/Gateway/Quiet.antt =====
-- Messages change nothing of the connections, the timers and the tasks but that one is passed on.
use rover_ops_jm.Prelude.{
  ℕ, String, Bool, ◌&&◌, ◌||◌, not, ◌==◌, if_keeps, option_keeps, [], ◌∷◌, ◌++◌, Option, none, some,
  ◌≡◌, arith,
}
use rover_ops_jm.Prelude.Texts.{text_eq}
use rover_ops_jm.Gateway.State.{Config, Json, Task, Gateway, start_background_task}
use rover_ops_jm.Gateway.Connection.{is_same_hdl}
use rover_ops_jm.Gateway.Message.{
  Outcome, is_command_expired, is_duplicate_command, relay, hand_over, deliver, route, on_parsed,
  on_message, first_not_blank, maybe_json, codes,
}
use rover_ops_jm.Gateway.Message.Keys.{
  JsonLibrary, Members, dedup_key, text_of, is_relayed, value_or_empty,
}
use rover_ops_jm.Gateway.Recovery.{has_way_back, has_way_back-append}
use rover_ops_jm.Gateway.Frame.{has_start, has_start-append}

pub record Quiet (g h : Gateway) : Type 0 where
  pub stopping : h.is_stopping ≡ g.is_stopping
  pub connected : h.webserver_connected ≡ g.webserver_connected
  pub connecting : h.client_connecting ≡ g.client_connecting
  pub scheduled : h.reconnect_scheduled ≡ g.reconnect_scheduled
  pub attempts : h.reconnect_attempts ≡ g.reconnect_attempts
  pub up : h.heartbeat_connected ≡ g.heartbeat_connected
  pub handle : h.hdl_heartbeat ≡ g.hdl_heartbeat
  pub timers : h.timers ≡ g.timers
  pub start : has_start h.posted ≡ has_start g.posted
  pub way_back : has_way_back h.posted ≡ has_way_back g.posted

same-Quiet : (g : Gateway) → Quiet g g
same-Quiet g = ground arith

then-Quiet : {g h k : Gateway} → Quiet g h → Quiet h k → Quiet g k
then-Quiet a b = ground arith

forward-Quiet :
    (g : Gateway) (text : String)
    → Quiet g (record g { posted = g.posted ++ Task.forward text ∷ [] })
unfolding has_start has_way_back
forward-Quiet g text = ground (
  arith,
  has_start-append g.posted (Task.forward text ∷ []),
  has_way_back-append g.posted (Task.forward text ∷ []),
)

-- What returns is framed.
abbrev pub ReturnsQuiet : Gateway → Outcome → Type 0
ReturnsQuiet g (Outcome.returned h) = Quiet g h
ReturnsQuiet g (Outcome.thrown h) = Unit

module _ (l : JsonLibrary) (c : Config) where
  is_duplicate_command-Quiet :
      (g : Gateway) (type : String) (m : Members) → Quiet g (is_duplicate_command l g type m).0
  unfolding is_duplicate_command
  is_duplicate_command-Quiet g type m =
      option_keeps (λ (r : Gateway × Bool). Quiet g r.0) (dedup_key l type m) (λ _. same-Quiet g)
        (λ k e. ground arith)

  relay-Quiet :
      (g : Gateway) (payload type : String) (m : Members) → Quiet g (relay l g payload type m)
  unfolding relay
  relay-Quiet g payload type m =
      let d = is_duplicate_command-Quiet g type m in
      option_keeps (Quiet g) (text_of "device_id" m) (λ _. same-Quiet g)
        (λ device e.
          if_keeps (Quiet g) (g.device_id == "" || not (device == g.device_id)) (same-Quiet g) (
            if_keeps (Quiet g) (is_duplicate_command l g type m).1 d (
              if_keeps (Quiet g) (is_duplicate_command l g type m).0.has_broadcast_callback
                (then-Quiet d (ground arith)) d)))

  hand_over-Quiet : (g : Gateway) (type : String) (m : Members) → Quiet g (hand_over l g type m)
  unfolding hand_over start_background_task
  hand_over-Quiet g type m = if_keeps (Quiet g) (not g.has_message_callback) (same-Quiet g) (
      if_keeps (Quiet g) (type == "control" || type == "action_control") (ground arith)
        (if_keeps (Quiet g) g.is_stopping (same-Quiet g) (ground arith)))

  deliver-Quiet :
      (g : Gateway) (hdl : ℕ) (type : String) (m : Members) (now : ℕ)
      → Quiet g (deliver l c g hdl type m now)
  unfolding deliver
  deliver-Quiet g hdl type m now =
      let d = is_duplicate_command-Quiet g type m in
      let handed = hand_over l (is_duplicate_command l g type m).0 type m in
      let f = then-Quiet d (hand_over-Quiet (is_duplicate_command l g type m).0 type m) in
      if_keeps (Quiet g) (is_command_expired c m now) (same-Quiet g) (
        if_keeps (Quiet g) (is_duplicate_command l g type m).1 d (
          if_keeps (Quiet g) (is_same_hdl hdl handed.hdl_handset)
            (then-Quiet f (forward-Quiet handed (l.dump (Json.object m)))) f))

  route-Quiet :
      (g : Gateway) (hdl : ℕ) (payload type : String) (m : Members) (now : ℕ)
      → ReturnsQuiet g (route l c g hdl payload type m now)
  unfolding route
  route-Quiet g hdl payload type m now =
      let delivered = deliver-Quiet g hdl type m now in
      if_keeps (ReturnsQuiet g) (is_relayed type && is_same_hdl hdl g.hdl_webserver)
        (relay-Quiet g payload type m)
        (if_keeps (ReturnsQuiet g) (type == "kicked")
          (option_keeps (ReturnsQuiet g) (value_or_empty "reason" m) (λ _. tt)
            (λ reason _.
              if_keeps (ReturnsQuiet g) (reason == "new_connection") (ground arith) delivered))
          delivered)

  on_parsed-Quiet :
      (g : Gateway) (hdl : ℕ) (payload : String) (now : ℕ) (parsed : Option Json)
      → ReturnsQuiet g (on_parsed l c g hdl payload now parsed)
  unfolding on_parsed
  on_parsed-Quiet g hdl payload now none = same-Quiet g
  on_parsed-Quiet g hdl payload now (some Json.scalar) = same-Quiet g
  on_parsed-Quiet g hdl payload now (some (Json.object m)) =
      option_keeps (ReturnsQuiet g) (value_or_empty "type" m) (λ _. same-Quiet g)
        (λ type _. route-Quiet g hdl payload type m now)

  pub on_message-Quiet :
      (g : Gateway) (hdl : ℕ) (payload : String) (now : ℕ)
      → ReturnsQuiet g (on_message l c g hdl payload now)
  unfolding on_message
  on_message-Quiet g hdl payload now =
      option_keeps (ReturnsQuiet g) (first_not_blank (codes payload)) (λ _. same-Quiet g)
        (λ first _.
          if_keeps (ReturnsQuiet g) (not (maybe_json first)) (same-Quiet g)
            (on_parsed-Quiet g hdl payload now (l.parse payload)))
