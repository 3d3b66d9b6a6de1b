-- ===== src/Gateway/Backoff.antt =====
-- How long the gateway waits before it reconnects (`schedule_reconnect` and `on_client_close` of
-- src/gateway/gateway.cc).
pub mod Overflow
use rover_ops_jm.Prelude.{
  ℕ, ◌+◌, ◌*◌, ◌-◌, ◌≤◌, min, Bool, true, false, nat_eq, ◌==◌, List, [], ◌∷◌, Option, none, some,
  ◌≡◌, refl, sym, ◌∙◌, ap, subst, length, arith,
}
use rover_ops_jm.Prelude.Ints.{ℤ, pos, negsuc, min_int, max_int32, int32_large, is_positive}
use rover_ops_jm.Gateway.State.{Config, Timer, Gateway, start_background_task}
use rover_ops_jm.Gateway.Connection.{
  Peer, Sending, delay_ms, is_exhausted, reconnect_due, connect_to_web, open_connection,
  schedule_reconnect, close_web_connection, run_network_diagnostics, cleanup_and_reconnect,
  note_disconnected, mark_web_disconnected,
}
use rover_ops_jm.Gateway.Heartbeat.{schedule_heartbeat}
use rover_ops_jm.Gateway.Handlers.{
  tell_connected, welcome, on_client_open, web_closed, on_client_close,
}
use rover_ops_jm.Gateway.Recovery.{close_web_connection-calls}

-- A reconnection that is due finds no old connection and dials: the new connection opens, gets
-- the notice that another one replaces it, and closes.
pub kicked_round : Config → ℕ → Peer → Gateway → Gateway
kicked_round c h peer g =
    let dialled =
      reconnect_due c g false
        (record { peer = Peer.missing; fresh = some h; sending = Sending.accepted }) in
    on_client_close c
      (record (on_client_open c dialled h true) { kicked_by_new_default_connection = true }) h peer

-- A round for each of the handles.
pub kicked_rounds : Config → List ℕ → Peer → Gateway → Gateway
kicked_rounds c [] peer g = g
kicked_rounds c (h ∷ hs) peer g = kicked_rounds c hs peer (kicked_round c h peer g)

-- The wait of the timer that was set last, if it is one of a reconnection.
abbrev pub last_wait : List Timer → Option ℤ
last_wait [] = none
last_wait (Timer.reconnect delay ∷ ts) = some delay
last_wait (Timer.heartbeat generation ∷ ts) = none
last_wait (Timer.heartbeat_reconnect ∷ ts) = none
last_wait (Timer.stability generation ∷ ts) = none

-- None of the handles is that of the heartbeat.
abbrev pub AllApart : ℕ → List ℕ → Type 0
AllApart b [] = Unit
AllApart b (h ∷ hs) = ((h == b) ≡ false) × AllApart b hs

-- What a round needs: the gateway runs, and neither has a connection nor dials.
record IsIdle (g : Gateway) : Type 0 where
  runs : g.is_stopping ≡ false
  off : g.webserver_connected ≡ false
  free : g.client_connecting ≡ false

-- What it has once the new connection is open.
record Serves (h : ℕ) (g : Gateway) : Type 0 where
  runs : g.is_stopping ≡ false
  web : g.hdl_webserver ≡ h
  apart : (h == g.hdl_heartbeat) ≡ false

-- The fields that a loss of the connection leaves, and the timer that it sets.
record Lost (c : Config) (g g' : Gateway) : Type 0 where
  idle : IsIdle g'
  heartbeat : g'.hdl_heartbeat ≡ g.hdl_heartbeat
  kicks : g'.kicked_reconnect_attempts ≡ g.kicked_reconnect_attempts
  wait : last_wait g'.timers ≡ some (delay_ms c g.reconnect_attempts)

module _ (c : Config) (endless : is_positive c.reconnect_max_attempts ≡ false) where
  schedule-Lost :
      (g : Gateway)
      → g.is_stopping ≡ false
      → g.webserver_connected ≡ false
      → g.client_connecting ≡ false
      → g.reconnect_scheduled ≡ false
      → Lost c g (schedule_reconnect c g)
  unfolding schedule_reconnect is_exhausted
  schedule-Lost g a b d e = ground arith

  note_disconnected-fields :
      (g : Gateway)
      → (note_disconnected g).is_stopping ≡ g.is_stopping
        × ((note_disconnected g).webserver_connected ≡ false)
        × ((note_disconnected g).client_connecting ≡ false)
        × ((note_disconnected g).reconnect_scheduled ≡ g.reconnect_scheduled)
        × ((note_disconnected g).hdl_heartbeat ≡ g.hdl_heartbeat)
        × ((note_disconnected g).kicked_reconnect_attempts ≡ g.kicked_reconnect_attempts)
        × ((note_disconnected g).reconnect_attempts ≡ g.reconnect_attempts)
  unfolding note_disconnected run_network_diagnostics start_background_task
  note_disconnected-fields g = ground arith

  cleanup-Lost :
      (g : Gateway) (peer : Peer)
      → IsIdle g
      → g.reconnect_scheduled ≡ false
      → Lost c g (cleanup_and_reconnect c g true peer)
  unfolding cleanup_and_reconnect
  cleanup-Lost g peer idle e =
      let (calls, same) = close_web_connection-calls c g peer in
      let lost = schedule-Lost (record g { calls = calls }) idle.runs idle.off idle.free e in
      rw same (record {
        idle = lost.idle;
        heartbeat = lost.heartbeat;
        kicks = lost.kicks;
        wait = lost.wait;
      })

  mark-Lost :
      (g : Gateway) (peer : Peer)
      → g.is_stopping ≡ false
      → g.reconnect_scheduled ≡ false
      → Lost c g (mark_web_disconnected c g true true peer)
  unfolding mark_web_disconnected
  mark-Lost g peer a e =
      let f = note_disconnected-fields g in
      let idle : IsIdle (note_disconnected g) = record { runs = f.0 ∙ a; off = f.1; free = f.2 } in
      let lost = cleanup-Lost (note_disconnected g) peer idle (f.3 ∙ e) in
      record {
        idle = lost.idle;
        heartbeat = lost.heartbeat ∙ f.4;
        kicks = lost.kicks ∙ f.5;
        wait = lost.wait ∙ ap (λ n. some (delay_ms c n)) f.6;
      }

  dialled : ℕ → Gateway → Gateway
  dialled h g =
      reconnect_due c g false
        (record { peer = Peer.missing; fresh = some h; sending = Sending.accepted })

  dialled-fields :
      (h : ℕ) (g : Gateway)
      → IsIdle g
      → ((dialled h g).is_stopping ≡ false)
        × ((dialled h g).hdl_webserver ≡ h)
        × ((dialled h g).hdl_heartbeat ≡ g.hdl_heartbeat)
        × ((dialled h g).kicked_reconnect_attempts ≡ g.kicked_reconnect_attempts)
  unfolding dialled reconnect_due connect_to_web open_connection close_web_connection
  dialled-fields h g idle = ground (arith, idle.runs, idle.off, idle.free)

  opened-fields :
      (h : ℕ) (g : Gateway)
      → Serves h g
      → Serves h (on_client_open c g h true)
        × ((on_client_open c g h true).reconnect_scheduled ≡ false)
        × ((on_client_open c g h true).reconnect_attempts ≡ 0)
        × ((on_client_open c g h true).kicked_reconnect_attempts ≡ g.kicked_reconnect_attempts)
        × ((on_client_open c g h true).hdl_heartbeat ≡ g.hdl_heartbeat)
  unfolding on_client_open welcome tell_connected schedule_heartbeat
  opened-fields h g s = ground (arith, s.runs, s.web, s.apart)

  -- The close after the notice.
  kicked_close : Gateway → Gateway
  kicked_close o = record o {
    kicked_by_new_default_connection = false;
    client_connecting = false;
    kicked_reconnect_attempts = min (o.kicked_reconnect_attempts + 1) 6;
    reconnect_attempts = max_int32 o.reconnect_attempts (min (o.kicked_reconnect_attempts + 1) 6);
  }

  close_as_kicked :
      (h : ℕ) (peer : Peer) (o : Gateway)
      → Serves h o
      → on_client_close c (record o { kicked_by_new_default_connection = true }) h peer
        ≡ mark_web_disconnected c (kicked_close o) true true peer
  unfolding on_client_close web_closed kicked_close
  close_as_kicked h peer o s = ground (arith, s.web, s.apart)

  max-zero : (k : ℕ) → max_int32 0 (min (k + 1) 6) ≡ min (k + 1) 6
  max-zero k = ground arith

  -- One round raises the count of kicks, up to six, and waits as after that many attempts.
  record After (g g' : Gateway) : Type 0 where
    idle : IsIdle g'
    heartbeat : g'.hdl_heartbeat ≡ g.hdl_heartbeat
    kicks : g'.kicked_reconnect_attempts ≡ min (g.kicked_reconnect_attempts + 1) 6
    wait : last_wait g'.timers ≡ some (delay_ms c (min (g.kicked_reconnect_attempts + 1) 6))

  kicked_round-After :
      (h : ℕ) (peer : Peer) (g : Gateway)
      → IsIdle g
      → (h == g.hdl_heartbeat) ≡ false
      → After g (kicked_round c h peer g)
  unfolding kicked_round kicked_close dialled
  kicked_round-After h peer g idle apart =
      let d = dialled-fields h g idle in
      let serves : Serves h (dialled h g) = record {
        runs = d.0;
        web = d.1;
        apart = ap (λ n. h == n) d.2 ∙ apart;
      } in
      let o = on_client_open c (dialled h g) h true in
      let f = opened-fields h (dialled h g) serves in
      let lost = mark-Lost (kicked_close o) peer (f.0).runs f.1 in
      rw (close_as_kicked h peer o f.0) (record {
        idle = lost.idle;
        heartbeat = lost.heartbeat ∙ f.4 ∙ d.2;
        kicks = lost.kicks ∙ ap (λ k. min (k + 1) 6) (f.3 ∙ d.3);
        wait =
            lost.wait
            ∙ ap (λ k. some (delay_ms c k))
                (ground (arith, f.2, f.3, d.3, max-zero g.kicked_reconnect_attempts));
      })

  rounds-wait :
      (h : ℕ) (hs : List ℕ) (peer : Peer) (g : Gateway)
      → IsIdle g
      → AllApart g.hdl_heartbeat (h ∷ hs)
      → last_wait (kicked_rounds c (h ∷ hs) peer g).timers
        ≡ some (delay_ms c (min (g.kicked_reconnect_attempts + length (h ∷ hs)) 6))
  unfolding kicked_rounds
  rounds-wait h [] peer g idle apart = (kicked_round-After h peer g idle apart.0).wait
  rounds-wait h (k ∷ hs) peer g idle apart =
      let after = kicked_round-After h peer g idle apart.0 in
      rounds-wait k hs peer (kicked_round c h peer g) after.idle
        (subst (λ b. AllApart b (k ∷ hs)) (sym after.heartbeat) apart.1)
      ∙ ap (λ n. some (delay_ms c n)) (omega (arith, after.kicks))

-- Connections that are opened and, replaced by another one, closed again, one after the other with
-- no stable half a minute between: after n of them the gateway waits 10 n seconds, 60 from the
-- sixth on, cut off at the longest wait that is configured, where it begins with no kicks counted
-- and the number of attempts has no limit.
pub kicked_rounds-wait :
    (c : Config) (h : ℕ) (hs : List ℕ) (peer : Peer) (g : Gateway)
    → is_positive c.reconnect_max_attempts ≡ false
    → g.is_stopping ≡ false
    → g.webserver_connected ≡ false
    → g.client_connecting ≡ false
    → AllApart g.hdl_heartbeat (h ∷ hs)
    → g.kicked_reconnect_attempts ≡ 0
    → last_wait (kicked_rounds c (h ∷ hs) peer g).timers
      ≡ some (min_int (pos (min (length (h ∷ hs)) 6 * 10000)) c.reconnect_max_delay_ms)
unfolding delay_ms
kicked_rounds-wait c h hs peer g endless runs off free apart fresh =
    rounds-wait c endless h hs peer g (record { runs = runs; off = off; free = free }) apart
    ∙ ground (arith, fresh)
