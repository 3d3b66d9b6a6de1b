-- ===== src/Gateway/Heartbeat/Failure.antt =====
-- A heartbeat whose connection failed to open stays down.
use rover_ops_jm.Prelude.{
  ℕ, true, nat_eq, if_keeps, List, [], ◌∷◌, Option, none, some, ◌≡◌, subst, arith,
}
use rover_ops_jm.Gateway.State.{Config, Gateway}
use rover_ops_jm.Gateway.Connection.{Peer}
use rover_ops_jm.Gateway.Handlers.{on_server_open, on_server_close, send_timed_out, stop}
use rover_ops_jm.Gateway.Message.{Outcome}
use rover_ops_jm.Gateway.Message.Keys.{JsonLibrary}
use rover_ops_jm.Gateway.Step.{Event, step}
use rover_ops_jm.Gateway.Frame.{mark_web_disconnected-Frame}
use rover_ops_jm.Gateway.Frame.Events.{
  on_client_fail-Frame, on_pong_timeout-Frame, send_to_web-Frame, broadcast_data-Frame,
  run_handset_posted-Frame, end_work-Frame,
}
use rover_ops_jm.Gateway.Quiet.{ReturnsQuiet, on_message-Quiet}
use rover_ops_jm.Gateway.Heartbeat.Lost.{
  IsLost, AllSpare, Spares, framed-IsLost, opened-IsLost, closed-IsLost, run_timer-IsLost,
  run_posted-IsLost, end_stop-IsLost,
}

-- The states after a list of events, as long as the program goes on.
module _ (l : JsonLibrary) (c : Config) where
  unfoldable pub run : Option Gateway → List Event → Option Gateway
  run none events = none
  run (some g) [] = some g
  run (some g) (event ∷ events) = run (step l c g event) events

-- The state after a step, if the program goes on.
abbrev LostAfter : ℕ → Option Gateway → Type 0
LostAfter b none = Unit
LostAfter b (some g) = IsLost b g

module _ (l : JsonLibrary) (c : Config) (b : ℕ) where
  outcome-IsLost :
      (g : Gateway) (o : Outcome)
      → ReturnsQuiet g o
      → IsLost b g
      → LostAfter b (elim o [ Outcome.returned h ↦ some h | Outcome.thrown h ↦ none ])
  outcome-IsLost g (Outcome.returned h) q lost = ground arith
  outcome-IsLost g (Outcome.thrown h) q lost = tt

  step-IsLost :
      (g : Gateway) (event : Event) → Spares b event → IsLost b g → LostAfter b (step l c g event)
  unfolding step on_server_open on_server_close send_timed_out stop
  step-IsLost g (Event.server_open hdl) p x = framed-IsLost c b g _ (ground arith) x
  step-IsLost g Event.server_close p x = framed-IsLost c b g _ (ground arith) x
  step-IsLost g (Event.opened hdl found) p x = opened-IsLost c b g hdl found p x
  step-IsLost g (Event.closed hdl peer) p x = closed-IsLost c b g hdl peer p x
  step-IsLost g (Event.failed hdl peer) p x =
      framed-IsLost c b g _ (on_client_fail-Frame c g hdl peer) x
  step-IsLost g (Event.pong_timeout hdl peer) p x =
      framed-IsLost c b g _ (on_pong_timeout-Frame c g hdl peer) x
  step-IsLost g (Event.message hdl payload now) p x =
      outcome-IsLost g _ (on_message-Quiet l c g hdl payload now) x
  step-IsLost g (Event.timer n d) p x = run_timer-IsLost c b g n d x
  step-IsLost g (Event.task a d) p x = run_posted-IsLost c b g.posted g a d x.no_start x
  step-IsLost g (Event.work n) p x = framed-IsLost c b g _ (end_work-Frame c g n) x
  step-IsLost g (Event.handset_task ok) p x =
      framed-IsLost c b g _ (run_handset_posted-Frame c g.handset_posted g ok) x
  step-IsLost g (Event.send mine payload a) p x =
      framed-IsLost c b g _ (send_to_web-Frame c g mine payload a) x
  step-IsLost g (Event.send_timeout mine peer) p x =
      framed-IsLost c b g _ (mark_web_disconnected-Frame c g true mine peer) x
  step-IsLost g (Event.broadcast payload) p x =
      framed-IsLost c b g _ (broadcast_data-Frame c g payload) x
  step-IsLost g Event.shutdown p x = ground arith
  step-IsLost g Event.shutdown_done p x =
      if_keeps (IsLost b) g.is_stopping (end_stop-IsLost c b g x) x

  run-IsLost :
      (o : Option Gateway) (events : List Event)
      → AllSpare b events
      → LostAfter b o
      → LostAfter b (run l c o events)
  unfolding run
  run-IsLost none events p x = tt
  run-IsLost (some g) [] p x = x
  run-IsLost (some g) (event ∷ events) p x =
      run-IsLost (step l c g event) events p.1 (step-IsLost g event p.0 x)

-- Once the connection of the heartbeat fails to open, which nothing retries, the heartbeat stays
-- down for good: through any events, reconnections of the web service included, as long as the
-- failed connection itself neither opens nor closes.
pub failed_heartbeat-IsLost :
    (l : JsonLibrary) (c : Config) (b : ℕ) (g h : Gateway) (peer : Peer) (events : List Event)
    → IsLost b g
    → AllSpare b events
    → run l c (some g) (Event.failed b peer ∷ events) ≡ some h
    → IsLost b h
failed_heartbeat-IsLost l c b g h peer events lost p e =
    subst (LostAfter b) e (run-IsLost l c b (some g) (Event.failed b peer ∷ events) (tt, p) lost)
