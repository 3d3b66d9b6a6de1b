-- ===== src/Gateway/Recovery/Reach.antt =====
-- The gateway has a way back to the web service in every state that it reaches.
use rover_ops_jm.Prelude.{if_cases, Option, none, some, sym, subst, arith}
use rover_ops_jm.Prelude.Texts.{text_eq}
use rover_ops_jm.Gateway.State.{Config, Gateway}
use rover_ops_jm.Gateway.Handlers.{on_server_open, on_server_close, send_timed_out}
use rover_ops_jm.Gateway.Endpoint.{update_web_endpoint}
use rover_ops_jm.Gateway.Message.{Outcome}
use rover_ops_jm.Gateway.Message.Keys.{JsonLibrary}
use rover_ops_jm.Gateway.Quiet.{Quiet, ReturnsQuiet, on_message-Quiet}
use rover_ops_jm.Gateway.Step.{Event, step, setup, IsPossible, Reach, set_up, next}
use rover_ops_jm.Gateway.Recovery.{
  IsLive, has_way_back, has_reconnect, mark_web_disconnected-IsLive,
}
use rover_ops_jm.Gateway.Recovery.Events.{
  on_client_open-IsLive, on_client_close-IsLive, on_client_fail-IsLive, on_pong_timeout-IsLive,
}
use rover_ops_jm.Gateway.Recovery.Calls.{
  run_timer-IsLive, run_posted-IsLive, send_to_web-IsLive, broadcast_data-IsLive,
  run_handset_posted-IsLive, stop-IsLive, end_work-IsLive, end_stop-IsLive,
}

module _ (l : JsonLibrary) (c : Config) where
  Quiet-IsLive : (g h : Gateway) → Quiet g h → IsLive c g → IsLive c h
  Quiet-IsLive g h q live = ground arith

  -- The state after a step, if the program goes on.
  abbrev LiveAfter : Option Gateway → Type 0
  LiveAfter none = Unit
  LiveAfter (some g) = IsLive c g

  outcome-IsLive :
      (g : Gateway) (o : Outcome)
      → ReturnsQuiet g o
      → IsLive c g
      → LiveAfter (elim o [ Outcome.returned h ↦ some h | Outcome.thrown h ↦ none ])
  outcome-IsLive g (Outcome.returned h) q live = Quiet-IsLive g h q live
  outcome-IsLive g (Outcome.thrown h) q live = tt

  step-IsLive :
      (g : Gateway) (event : Event) → IsPossible g event → IsLive c g → LiveAfter (step l c g event)
  unfolding step on_server_open on_server_close send_timed_out
  step-IsLive g (Event.server_open hdl) p h = record { known = h.known; live = h.live }
  step-IsLive g Event.server_close p h = record { known = h.known; live = h.live }
  step-IsLive g (Event.opened hdl found) p h = on_client_open-IsLive c g hdl found h
  step-IsLive g (Event.closed hdl peer) p h = on_client_close-IsLive c g hdl peer h
  step-IsLive g (Event.failed hdl peer) p h = on_client_fail-IsLive c g hdl peer h
  step-IsLive g (Event.pong_timeout hdl peer) p h = on_pong_timeout-IsLive c g hdl peer h
  step-IsLive g (Event.message hdl payload now) p h =
      outcome-IsLive g _ (on_message-Quiet l c g hdl payload now) h
  step-IsLive g (Event.timer n d) p h = run_timer-IsLive c g n d p h
  step-IsLive g (Event.task a b) p h =
      run_posted-IsLive c g.posted g a b (record { known = h.known; live = h.live })
  step-IsLive g (Event.work n) p h = end_work-IsLive c g n h
  step-IsLive g (Event.handset_task ok) p h = run_handset_posted-IsLive c g.handset_posted g ok h
  step-IsLive g (Event.send mine payload a) p h = send_to_web-IsLive c g mine payload a h
  step-IsLive g (Event.send_timeout mine peer) p h =
      mark_web_disconnected-IsLive c g mine peer h.known
  step-IsLive g (Event.broadcast payload) p h = broadcast_data-IsLive c g payload h
  step-IsLive g Event.shutdown p h = stop-IsLive c g h
  step-IsLive g Event.shutdown_done p h =
      if_cases (IsLive c) g.is_stopping (λ e. end_stop-IsLive c g e) (λ _. h)

  -- In every state that the gateway reaches after its set-up, it is connected, connects, waits for
  -- a timer or a posted task that will connect or schedule a reconnection, has used up its attempts,
  -- or stops; and before a stop a reconnection that is noted as scheduled has its timer.
  pub Reach-IsLive : {g : Gateway} → Reach l c g → IsLive c g
  unfolding setup has_way_back has_reconnect update_web_endpoint
  Reach-IsLive (set_up device_id broadcast connected url e) =
      subst (IsLive c) (sym e) (record { known = λ _ h. cc; live = ground arith })
  Reach-IsLive (next {g} event r p e) = subst LiveAfter e (step-IsLive g event p (Reach-IsLive r))
