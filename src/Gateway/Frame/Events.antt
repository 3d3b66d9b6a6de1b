-- ===== src/Gateway/Frame/Events.antt =====
-- The events of the web service's connection and the calls of the program leave the heartbeat alone.
use rover_ops_jm.Prelude.{
  ℕ, String, Bool, true, false, ◌&&◌, ◌||◌, not, nat_eq, if_keeps, option_keeps, List, [], ◌∷◌,
  refl, arith,
}
use rover_ops_jm.Gateway.State.{Config, Task, Work, Gateway}
use rover_ops_jm.Gateway.Connection.{Peer, Answers, is_same_hdl}
use rover_ops_jm.Gateway.Handlers.{
  web_closed, on_client_fail, on_pong_timeout, stability_due, run_work, send_to_web, broadcast_data,
  run_handset_posted,
}
use rover_ops_jm.Gateway.Step.{take_work, end_work}
use rover_ops_jm.Gateway.Frame.{
  Frame, has_start, same-Frame, then-Frame, from-Frame, posted-Frame, mark_web_disconnected-Frame,
  send_to_web_now-Frame,
}

module _ (c : Config) where
  pub web_closed-Frame : (g : Gateway) (peer : Peer) → Frame g (web_closed c g peer)
  unfolding web_closed
  web_closed-Frame g peer =
      if_keeps (Frame g) g.kicked_by_new_default_connection
        (from-Frame (mark_web_disconnected-Frame c _ true true peer) (ground arith))
        (from-Frame (mark_web_disconnected-Frame c _ true true peer) (ground arith))

  pub on_client_fail-Frame :
      (g : Gateway) (hdl : ℕ) (peer : Peer) → Frame g (on_client_fail c g hdl peer)
  unfolding on_client_fail
  on_client_fail-Frame g hdl peer =
      if_keeps (Frame g) (not (is_same_hdl hdl g.hdl_webserver)) (same-Frame g) (
        then-Frame {h = record g { client_connecting = false }} (ground arith)
          (mark_web_disconnected-Frame c _ true true peer))

  pub on_pong_timeout-Frame :
      (g : Gateway) (hdl : ℕ) (peer : Peer) → Frame g (on_pong_timeout c g hdl peer)
  unfolding on_pong_timeout
  on_pong_timeout-Frame g hdl peer =
      if_keeps (Frame g) (not (is_same_hdl hdl g.hdl_webserver) || not g.webserver_connected)
        (same-Frame g) (mark_web_disconnected-Frame c g true true peer)

  pub stability_due-Frame :
      (g : Gateway) (generation : ℕ) (failed : Bool) → Frame g (stability_due g generation failed)
  unfolding stability_due
  stability_due-Frame g generation failed = ground arith

  pub send_to_web-Frame :
      (g : Gateway) (mine : Bool) (payload : String) (a : Answers)
      → Frame g (send_to_web c g mine payload a)
  unfolding send_to_web has_start
  send_to_web-Frame g mine payload a =
      if_keeps (Frame g) (not (not g.is_stopping && g.webserver_connected)) (same-Frame g) (
        if_keeps (Frame g) mine (send_to_web_now-Frame c g payload a)
          (posted-Frame c g (Task.send payload) refl))

  pub broadcast_data-Frame : (g : Gateway) (payload : String) → Frame g (broadcast_data g payload)
  unfolding broadcast_data has_start
  broadcast_data-Frame g payload =
      let f = posted-Frame c g (Task.send payload) refl in
      record {
        stopping = f.stopping;
        up = f.up;
        handle = f.handle;
        retry = f.retry;
        start = f.start;
        count = f.count;
      }

  pub run_handset_posted-Frame :
      (posted : List String) (g : Gateway) (ok : Bool) → Frame g (run_handset_posted posted g ok)
  unfolding run_handset_posted
  run_handset_posted-Frame [] g ok = same-Frame g
  run_handset_posted-Frame (p ∷ ps) g ok = ground arith

  pub run_work-Frame : (g : Gateway) (w : Work) → Frame g (run_work g w)
  unfolding run_work
  run_work-Frame g (Work.diagnostics host port) = ground arith
  run_work-Frame g (Work.message json) = ground arith

  pub end_work-Frame : (g : Gateway) (n : ℕ) → Frame g (end_work g n)
  unfolding end_work
  end_work-Frame g n =
      option_keeps (Frame g) (take_work n g.workers).1 (λ _. same-Frame g)
        (λ w e.
          then-Frame {h = record g { workers = (take_work n g.workers).0 }} (ground arith)
            (run_work-Frame _ w))
