-- ===== src/Gateway/Frame.antt =====
-- What is done for the web service, the handset and the program leaves the heartbeat's connection
-- and its timers alone.
pub mod Events
use rover_ops_jm.Prelude.{
  ℕ, zero, suc, ◌+◌, String, Bool, true, false, ◌&&◌, ◌||◌, not, ◌==◌, if_keeps, option_keeps, List,
  [], ◌∷◌, ◌++◌, Option, none, some, ◌≡◌, refl, sym, ◌∙◌, ap, subst, arith,
}
use rover_ops_jm.Prelude.Texts.{text_eq}
use rover_ops_jm.Gateway.State.{
  GatewayState, Config, Json, Timer, Task, Work, Call, Gateway, call, start_background_task,
}
use rover_ops_jm.Gateway.Connection.{
  Peer, Answers, Sending, is_same_hdl, schedule_reconnect, close_web_connection, open_connection,
  connect_to_web, reconnect_due, run_network_diagnostics, cleanup_and_reconnect, note_disconnected,
  mark_web_disconnected, send_over, send_to_web_now,
}

-- The number of heartbeats' timers.
unfoldable pub beats : List Timer → ℕ
beats [] = 0
beats (Timer.reconnect delay ∷ ts) = beats ts
beats (Timer.heartbeat generation ∷ ts) = beats ts + 1
beats (Timer.heartbeat_reconnect ∷ ts) = beats ts
beats (Timer.stability generation ∷ ts) = beats ts

-- Is there a timer that reconnects the heartbeat?
abbrev pub is_retry : Timer → Bool
is_retry (Timer.reconnect delay) = false
is_retry (Timer.heartbeat generation) = false
is_retry Timer.heartbeat_reconnect = true
is_retry (Timer.stability generation) = false

unfoldable pub has_retry : List Timer → Bool
has_retry [] = false
has_retry (t ∷ ts) = is_retry t || has_retry ts

-- Is there a task that connects the heartbeat?
abbrev pub is_start : Task → Bool
is_start Task.connect_both = true
is_start (Task.cleanup reconnect) = false
is_start (Task.send payload) = false
is_start (Task.forward payload) = false

unfoldable pub has_start : List Task → Bool
has_start [] = false
has_start (t ∷ ts) = is_start t || has_start ts

pub has_start-append : (ts us : List Task) → has_start (ts ++ us) ≡ (has_start ts || has_start us)
unfolding has_start
has_start-append [] us = refl
has_start-append (t ∷ ts) us = ground (arith, has_start-append ts us)

pub record Frame (g h : Gateway) : Type 0 where
  pub stopping : h.is_stopping ≡ g.is_stopping
  pub up : h.heartbeat_connected ≡ g.heartbeat_connected
  pub handle : h.hdl_heartbeat ≡ g.hdl_heartbeat
  pub retry : has_retry h.timers ≡ has_retry g.timers
  pub start : has_start h.posted ≡ has_start g.posted
  pub count : beats h.timers ≡ beats g.timers

pub same-Frame : (g : Gateway) → Frame g g
same-Frame g = record {
  stopping = refl;
  up = refl;
  handle = refl;
  retry = refl;
  start = refl;
  count = refl;
}

pub then-Frame : {g h k : Gateway} → Frame g h → Frame h k → Frame g k
then-Frame a b = record {
  stopping = b.stopping ∙ a.stopping;
  up = b.up ∙ a.up;
  handle = b.handle ∙ a.handle;
  retry = b.retry ∙ a.retry;
  start = b.start ∙ a.start;
  count = b.count ∙ a.count;
}

pub from-Frame : {g h k : Gateway} → Frame h k → Frame g h → Frame g k
from-Frame b a = then-Frame a b

module _ (c : Config) where
  pub schedule_reconnect-Frame : (g : Gateway) → Frame g (schedule_reconnect c g)
  unfolding schedule_reconnect beats has_retry
  schedule_reconnect-Frame g = ground arith

  pub close_web_connection-Frame :
      (g : Gateway) (peer : Peer) → Frame g (close_web_connection g peer).0
  unfolding close_web_connection
  close_web_connection-Frame g Peer.missing = same-Frame g
  close_web_connection-Frame g Peer.closed = same-Frame g
  close_web_connection-Frame g Peer.between = ground arith
  close_web_connection-Frame g (Peer.open_one true) = ground arith
  close_web_connection-Frame g (Peer.open_one false) = ground arith

  open_connection-Frame : (g : Gateway) (fresh : Option ℕ) → Frame g (open_connection c g fresh)
  unfolding open_connection
  open_connection-Frame g none =
      then-Frame (ground arith) (schedule_reconnect-Frame (record g { client_connecting = false }))
  open_connection-Frame g (some h) = ground arith

  pub connect_to_web-Frame : (g : Gateway) (a : Answers) → Frame g (connect_to_web c g a)
  unfolding connect_to_web
  connect_to_web-Frame g a =
      let busy = record g { client_connecting = true } in
      let closing = (close_web_connection busy a.peer).0 in
      let f : Frame g closing =
        then-Frame {h = busy} (ground arith) (close_web_connection-Frame busy a.peer) in
      if_keeps (Frame g) (g.is_stopping || g.webserver_connected || g.client_connecting)
        (same-Frame g)
        (if_keeps (Frame g) (close_web_connection busy a.peer).1
          (then-Frame f (
            then-Frame {h = record closing { client_connecting = false }} (ground arith)
              (schedule_reconnect-Frame _)))
          (then-Frame f (
            then-Frame {h = record closing { state = GatewayState.connecting }} (ground arith)
              (open_connection-Frame _ a.fresh))))

  pub reconnect_due-Frame :
      (g : Gateway) (failed : Bool) (a : Answers) → Frame g (reconnect_due c g failed a)
  unfolding reconnect_due
  reconnect_due-Frame g failed a =
      let due = record g { reconnect_scheduled = false } in
      let f : Frame g due = ground arith in
      if_keeps (Frame g) failed f (
        if_keeps (Frame g)
          (not g.is_stopping && not g.webserver_connected && not g.client_connecting)
          (then-Frame f (connect_to_web-Frame due a)) f)

  pub note_disconnected-Frame : (g : Gateway) → Frame g (note_disconnected g)
  unfolding note_disconnected run_network_diagnostics start_background_task
  note_disconnected-Frame g = ground arith

  pub cleanup_and_reconnect-Frame :
      (g : Gateway) (reconnect : Bool) (peer : Peer)
      → Frame g (cleanup_and_reconnect c g reconnect peer)
  unfolding cleanup_and_reconnect
  cleanup_and_reconnect-Frame g reconnect peer =
      let f = close_web_connection-Frame g peer in
      if_keeps (Frame g) reconnect (then-Frame f (schedule_reconnect-Frame _)) f

  pub posted-Frame :
      (g : Gateway) (t : Task)
      → has_start (t ∷ []) ≡ false
      → Frame g (record g { posted = g.posted ++ t ∷ [] })
  posted-Frame g t e = ground (arith, has_start-append g.posted (t ∷ []))

  pub mark_web_disconnected-Frame :
      (g : Gateway) (reconnect mine : Bool) (peer : Peer)
      → Frame g (mark_web_disconnected c g reconnect mine peer)
  unfolding mark_web_disconnected has_start
  mark_web_disconnected-Frame g reconnect mine peer =
      let f = note_disconnected-Frame g in
      if_keeps (Frame g) mine (then-Frame f (cleanup_and_reconnect-Frame _ reconnect peer))
        (then-Frame f (posted-Frame (note_disconnected g) (Task.cleanup reconnect) refl))

  send_over-Frame :
      (g : Gateway) (payload : String) (sending : Sending) (peer : Peer)
      → Frame g (send_over c g payload sending peer).0
  unfolding send_over
  send_over-Frame g payload Sending.no_connection peer =
      mark_web_disconnected-Frame g true true peer
  send_over-Frame g payload Sending.not_open peer = mark_web_disconnected-Frame g true true peer
  send_over-Frame g payload Sending.refused peer =
      then-Frame {h = call g (Call.send g.hdl_webserver payload)} (ground arith)
        (mark_web_disconnected-Frame _ true true peer)
  send_over-Frame g payload Sending.accepted peer = ground arith

  pub send_to_web_now-Frame :
      (g : Gateway) (payload : String) (a : Answers) → Frame g (send_to_web_now c g payload a).0
  unfolding send_to_web_now
  send_to_web_now-Frame g payload a =
      if_keeps (λ (r : Gateway × Bool). Frame g r.0) (not g.webserver_connected) (same-Frame g)
        (send_over-Frame g payload a.sending a.peer)
