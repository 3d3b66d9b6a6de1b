-- ===== src/BmsForwarder/Reach.antt =====
-- What holds of the forwarder in every state: it finds back to its service, and it tells the status of
-- the robot once in an interval.
use rover_ops_jm.Prelude.{
  ℕ, ◌+◌, ◌<◌, ◌^◌, String, Bool, true, false, nat_eq, option_keeps, List, [], ◌∷◌, Option, ◌≡◌,
  subst, sym, arith,
}
use rover_ops_jm.Prelude.Texts.{text_eq}
use rover_ops_jm.BmsForwarder.{
  Task, Forwarder, initial, start, stop, update_battery, queue_websocket_payload, run_posted, nth,
  run_timer, Event, step,
}
use rover_ops_jm.BmsForwarder.Sound.{
  has_dial, has_dial-append, tellers, IsSound, connect_websocket-IsSound,
  send_latest_payload-IsSound, on_websocket_open-IsSound, on_websocket_end-IsSound,
}
use rover_ops_jm.BmsForwarder.Timers.{timer_due-IsSound}

run_posted-IsSound :
    (posted : List Task) (f : Forwarder) (fresh : Option ℕ) (ok : Bool)
    → IsSound 1 (record f { posted = posted })
    → IsSound 1 (run_posted posted f fresh ok)
unfolding run_posted has_dial
run_posted-IsSound [] f fresh ok h = record {
  ordered = h.ordered;
  live = λ r. ground (arith, h.live r);
}
run_posted-IsSound (Task.dial ∷ ts) f fresh ok h = connect_websocket-IsSound 1 _ fresh h.ordered
run_posted-IsSound (Task.send_latest ∷ ts) f fresh ok h =
    send_latest_payload-IsSound 1 _ ok (record { ordered = h.ordered; live = h.live })

update_battery-IsSound :
    (f : Forwarder) (received : Bool) (soc : ℕ) (payload : String)
    → IsSound 1 f
    → IsSound 1 (update_battery f received soc payload)
unfolding update_battery queue_websocket_payload has_dial
update_battery-IsSound f received soc payload h =
    ground (arith, h.live, has_dial-append f.posted (Task.send_latest ∷ []))

start-IsSound : (f : Forwarder) → f.asio_ready ≡ false → IsSound 1 f → IsSound 1 (start f)
unfolding start has_dial
start-IsSound f new h =
    ground (arith, h.live, h.ordered.unstarted new, has_dial-append f.posted (Task.dial ∷ []))

stop-IsSound : (f : Forwarder) → IsSound 1 f → IsSound 1 (stop f)
unfolding stop tellers
stop-IsSound f h = ground (arith, h.live)

-- A timer ends with an error only when the client is stopped, a client is initialised once, and the
-- generations do not come round.
abbrev pub IsPossible : Forwarder → Event → Type 0
IsPossible f (Event.timer n failed fresh ok) = failed ≡ true → f.running ≡ false
IsPossible f (Event.opened hdl payload_ok status_ok) = f.websocket_generation + 1 < 2 ^ 64
IsPossible f Event.started = f.asio_ready ≡ false
IsPossible f event = Unit

pub data Reach : Forwarder → Type 0 where
  here : Reach initial
  next :
      {f g : Forwarder} (event : Event) → Reach f → IsPossible f event → g ≡ step f event → Reach g

step-IsSound :
    (f : Forwarder) (event : Event) → IsPossible f event → IsSound 1 f → IsSound 1 (step f event)
unfolding step run_timer
step-IsSound f Event.started p h = start-IsSound f p h
step-IsSound f Event.stopped p h = stop-IsSound f h
step-IsSound f Event.ended p h = on_websocket_end-IsSound f h
step-IsSound f (Event.opened hdl payload_ok status_ok) p h =
    on_websocket_open-IsSound f hdl payload_ok status_ok p h
step-IsSound f (Event.timer n failed fresh ok) p h =
    option_keeps (IsSound 1) (nth n f.timers) (λ _. h)
      (λ t found. timer_due-IsSound f n t failed fresh ok found p h)
step-IsSound f (Event.task fresh ok) p h =
    run_posted-IsSound f.posted f fresh ok (record { ordered = h.ordered; live = h.live })
step-IsSound f (Event.battery received soc payload) p h =
    update_battery-IsSound f received soc payload h

-- In every state that the forwarder reaches, started once and with fewer than 2^64 connections in all: while it runs
-- it is connected, dials, or waits for a timer or a task that dials; a reconnection that is noted
-- has its timer; and at most one timer tells the robot's status over the present connection, so that
-- reconnections do not multiply it.
pub Reach-IsSound : {f : Forwarder} → Reach f → IsSound 1 f
unfolding tellers
Reach-IsSound here = ground arith
Reach-IsSound (next {f} event r p e) =
    subst (IsSound 1) (sym e) (step-IsSound f event p (Reach-IsSound r))
