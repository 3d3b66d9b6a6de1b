-- ===== src/Gateway/Recovery.antt =====
-- The gateway always has a way back to the web service (the reconnection of
-- src/gateway/gateway.cc): what it waits for, and the operations that end with a schedule.
pub mod Events
pub mod Calls
pub mod Reach
use rover_ops_jm.Prelude.{
  ℕ, String, Bool, true, false, ◌&&◌, ◌||◌, not, if_cases, if_keeps, List, [], ◌∷◌, ◌++◌, Option,
  none, some, ◌≡◌, refl, arith,
}
use rover_ops_jm.Gateway.State.{Config, Timer, Task, Call, Gateway, start_background_task}
use rover_ops_jm.Gateway.Connection.{
  Peer, Answers, Sending, is_exhausted, schedule_reconnect, close_web_connection, open_connection,
  connect_to_web, reconnect_due, run_network_diagnostics, cleanup_and_reconnect, note_disconnected,
  mark_web_disconnected, send_over, send_to_web_now,
}

abbrev pub is_reconnect : Timer → Bool
is_reconnect (Timer.reconnect delay) = true
is_reconnect (Timer.heartbeat generation) = false
is_reconnect Timer.heartbeat_reconnect = false
is_reconnect (Timer.stability generation) = false

unfoldable pub has_reconnect : List Timer → Bool
has_reconnect [] = false
has_reconnect (t ∷ ts) = is_reconnect t || has_reconnect ts

-- A task that connects, or that schedules a reconnection.
abbrev pub leads_back : Task → Bool
leads_back Task.connect_both = true
leads_back (Task.cleanup reconnect) = reconnect
leads_back (Task.send payload) = false
leads_back (Task.forward payload) = false

unfoldable pub has_way_back : List Task → Bool
has_way_back [] = false
has_way_back (t ∷ ts) = leads_back t || has_way_back ts

abbrev pub is_live : Config → Bool → Bool → Bool → List Timer → List Task → ℕ → Bool
is_live c stopping connected connecting timers posted attempts =
    stopping
    || connected
    || connecting
    || has_reconnect timers
    || has_way_back posted
    || is_exhausted c attempts

abbrev pub IsKnown : Bool → Bool → List Timer → Type 0
IsKnown stopping scheduled timers =
    stopping ≡ false → scheduled ≡ true → has_reconnect timers ≡ true

-- Before the shutdown, a reconnection that is noted as scheduled has its timer; and the gateway is connected, connects,
-- waits for a timer or a task that will, has made all attempts, or stops.
pub record IsLive (c : Config) (g : Gateway) : Type 0 where
  pub known : IsKnown g.is_stopping g.reconnect_scheduled g.timers
  pub live :
      is_live c g.is_stopping g.webserver_connected g.client_connecting g.timers g.posted
        g.reconnect_attempts
      ≡ true

pub has_way_back-append :
    (ts us : List Task) → has_way_back (ts ++ us) ≡ (has_way_back ts || has_way_back us)
unfolding has_way_back
has_way_back-append [] us = refl
has_way_back-append (t ∷ ts) us = ground (arith, has_way_back-append ts us)

pub has_way_back-cleanup : (ts : List Task) → has_way_back (ts ++ Task.cleanup true ∷ []) ≡ true
unfolding has_way_back
has_way_back-cleanup ts = ground (arith, has_way_back-append ts (Task.cleanup true ∷ []))

module _ (c : Config) where
  pub schedule_reconnect-IsLive :
      (g : Gateway)
      → IsKnown g.is_stopping g.reconnect_scheduled g.timers
      → IsLive c (schedule_reconnect c g)
  unfolding schedule_reconnect has_reconnect
  schedule_reconnect-IsLive g h = ground arith

  pub cleanup_and_reconnect-IsLive :
      (g : Gateway) (peer : Peer)
      → IsKnown g.is_stopping g.reconnect_scheduled g.timers
      → IsLive c (cleanup_and_reconnect c g true peer)
  unfolding cleanup_and_reconnect close_web_connection
  cleanup_and_reconnect-IsLive g Peer.missing h = schedule_reconnect-IsLive _ h
  cleanup_and_reconnect-IsLive g Peer.closed h = schedule_reconnect-IsLive _ h
  cleanup_and_reconnect-IsLive g Peer.between h = schedule_reconnect-IsLive _ h
  cleanup_and_reconnect-IsLive g (Peer.open_one true) h = schedule_reconnect-IsLive _ h
  cleanup_and_reconnect-IsLive g (Peer.open_one false) h = schedule_reconnect-IsLive _ h

  -- Diagnostics do not touch what is waited for.
  pub note_disconnected-IsKnown :
      (g : Gateway)
      → IsKnown g.is_stopping g.reconnect_scheduled g.timers
      → IsKnown
          (note_disconnected g).is_stopping
          (note_disconnected g).reconnect_scheduled
          (note_disconnected g).timers
  unfolding note_disconnected run_network_diagnostics start_background_task
  note_disconnected-IsKnown g h = ground arith

  pub mark_web_disconnected-IsLive :
      (g : Gateway) (mine : Bool) (peer : Peer)
      → IsKnown g.is_stopping g.reconnect_scheduled g.timers
      → IsLive c (mark_web_disconnected c g true mine peer)
  unfolding mark_web_disconnected
  mark_web_disconnected-IsLive g true peer h =
      cleanup_and_reconnect-IsLive _ peer (note_disconnected-IsKnown g h)
  mark_web_disconnected-IsLive g false peer h = record {
    known = note_disconnected-IsKnown g h;
    live = ground (arith, has_way_back-cleanup (note_disconnected g).posted);
  }

  send_over-IsLive :
      (g : Gateway) (payload : String) (sending : Sending) (peer : Peer)
      → IsLive c g
      → IsLive c (send_over c g payload sending peer).0
  unfolding send_over
  send_over-IsLive g payload Sending.no_connection peer h =
      mark_web_disconnected-IsLive g true peer h.known
  send_over-IsLive g payload Sending.not_open peer h =
      mark_web_disconnected-IsLive g true peer h.known
  send_over-IsLive g payload Sending.refused peer h =
      mark_web_disconnected-IsLive _ true peer h.known
  send_over-IsLive g payload Sending.accepted peer h = record { known = h.known; live = h.live }

  pub send_to_web_now-IsLive :
      (g : Gateway) (payload : String) (a : Answers)
      → IsLive c g
      → IsLive c (send_to_web_now c g payload a).0
  unfolding send_to_web_now
  send_to_web_now-IsLive g payload a h =
      if_keeps (λ (r : Gateway × Bool). IsLive c r.0) (not g.webserver_connected) h
        (send_over-IsLive g payload a.sending a.peer h)

  open_connection-IsLive :
      (g : Gateway) (fresh : Option ℕ)
      → g.client_connecting ≡ true
      → IsKnown g.is_stopping g.reconnect_scheduled g.timers
      → IsLive c (open_connection c g fresh)
  unfolding open_connection
  open_connection-IsLive g none busy h = schedule_reconnect-IsLive _ h
  open_connection-IsLive g (some n) busy h = record { known = h; live = ground arith }

  -- The close of an old connection changes only the calls.
  pub close_web_connection-calls :
      (g : Gateway) (peer : Peer)
      → (calls : List Call) × ((close_web_connection g peer).0 ≡ record g { calls = calls })
  unfolding close_web_connection
  close_web_connection-calls g Peer.missing = (g.calls, refl)
  close_web_connection-calls g Peer.closed = (g.calls, refl)
  close_web_connection-calls g Peer.between = (Call.terminate g.hdl_webserver ∷ g.calls, refl)
  close_web_connection-calls g (Peer.open_one true) = (Call.close g.hdl_webserver ∷ g.calls, refl)
  close_web_connection-calls g (Peer.open_one false) =
      (Call.terminate g.hdl_webserver ∷ Call.close g.hdl_webserver ∷ g.calls, refl)

  pub connect_to_web-IsLive :
      (g : Gateway) (a : Answers)
      → IsKnown g.is_stopping g.reconnect_scheduled g.timers
      → IsLive c (connect_to_web c g a)
  unfolding connect_to_web
  connect_to_web-IsLive g a h =
      let busy = record g { client_connecting = true } in
      let (calls, e) = close_web_connection-calls busy a.peer in
      rw e (
        if_cases (IsLive c) (g.is_stopping || g.webserver_connected || g.client_connecting)
          (λ idle. record { known = h; live = ground arith })
          (λ _.
            if_keeps (IsLive c) (close_web_connection busy a.peer).1 (schedule_reconnect-IsLive _ h)
              (open_connection-IsLive _ a.fresh refl h)))

  pub reconnect_due-IsLive : (g : Gateway) (a : Answers) → IsLive c (reconnect_due c g false a)
  unfolding reconnect_due
  reconnect_due-IsLive g a =
      if_cases (IsLive c)
        (not g.is_stopping && not g.webserver_connected && not g.client_connecting)
        (λ _. connect_to_web-IsLive _ a (λ _ h. cc))
        (λ e. record { known = λ _ h. cc; live = ground arith })
