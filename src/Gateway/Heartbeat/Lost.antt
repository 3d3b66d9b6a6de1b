-- ===== src/Gateway/Heartbeat/Lost.antt =====
-- What becomes of the heartbeat's connection when it cannot be opened.
use rover_ops_jm.Prelude.{
  ℕ, zero, suc, Bool, true, false, not, ◌==◌, nat_eq, if_keeps, if_cases, option_keeps, List, [],
  ◌∷◌, some, ◌≡◌, refl, ◌∙◌, if◌then◌else◌, arith,
}
use rover_ops_jm.Gateway.State.{Config, Timer, Task, Worker, Gateway}
use rover_ops_jm.Gateway.Connection.{Peer, Answers, is_same_hdl}
use rover_ops_jm.Gateway.Heartbeat.{Beat, schedule_heartbeat, heartbeat_due}
use rover_ops_jm.Gateway.Handlers.{
  tell_connected, welcome, on_client_open, on_client_close, run_task, run_posted, run_work, run_all,
  end_stop,
}
use rover_ops_jm.Gateway.Step.{Due, Event, timer_due, nth, without, run_timer}
use rover_ops_jm.Gateway.Frame.{
  Frame, is_retry, is_start, has_retry, has_start, same-Frame, then-Frame, schedule_reconnect-Frame,
  cleanup_and_reconnect-Frame, send_to_web_now-Frame, reconnect_due-Frame,
}
use rover_ops_jm.Gateway.Frame.Events.{web_closed-Frame, stability_due-Frame, run_work-Frame}

-- The heartbeat is down, under a handle, and neither a timer nor a task will connect it.
pub record IsLost (b : ℕ) (g : Gateway) : Type 0 where
  pub down : g.heartbeat_connected ≡ false
  pub handle : g.hdl_heartbeat ≡ b
  pub no_retry : has_retry g.timers ≡ false
  pub no_start : has_start g.posted ≡ false

-- The events of a connection that failed: it neither opens nor closes any more.
abbrev pub Spares : ℕ → Event → Type 0
Spares b (Event.opened hdl found) = (hdl == b) ≡ false
Spares b (Event.closed hdl peer) = (hdl == b) ≡ false
Spares b event = Unit

abbrev pub AllSpare : ℕ → List Event → Type 0
AllSpare b [] = Unit
AllSpare b (event ∷ events) = Spares b event × AllSpare b events

module _ (c : Config) (b : ℕ) where
  pub framed-IsLost : (g h : Gateway) → Frame g h → IsLost b g → IsLost b h
  framed-IsLost g h f lost = record {
    down = f.up ∙ lost.down;
    handle = f.handle ∙ lost.handle;
    no_retry = f.retry ∙ lost.no_retry;
    no_start = f.start ∙ lost.no_start;
  }

  schedule_heartbeat-IsLost :
      (g : Gateway) (generation : ℕ) → IsLost b g → IsLost b (schedule_heartbeat c g generation)
  unfolding schedule_heartbeat has_retry
  schedule_heartbeat-IsLost g generation lost = ground arith

  heartbeat_due-IsLost :
      (g : Gateway) (generation : ℕ) (failed : Bool) (x : Beat)
      → IsLost b g
      → IsLost b (heartbeat_due c g generation failed x)
  unfolding heartbeat_due
  heartbeat_due-IsLost g generation failed x lost =
      let next = schedule_heartbeat-IsLost g generation lost in
      if_keeps (IsLost b) g.is_stopping lost (
        if_keeps (IsLost b) failed (if_keeps (IsLost b) g.heartbeat_connected next lost)
          (if_cases (IsLost b) g.heartbeat_connected (λ up. cc (lost.down)) (λ _. next)))

  tell_connected-IsLost : (g : Gateway) → IsLost b g → IsLost b (tell_connected g)
  unfolding tell_connected
  tell_connected-IsLost g lost = ground arith

  welcome-IsLost : (g : Gateway) (found : Bool) → IsLost b g → IsLost b (welcome c g found)
  unfolding welcome
  welcome-IsLost g false lost = framed-IsLost _ _ (schedule_reconnect-Frame c _) (record {
    down = lost.down;
    handle = lost.handle;
    no_retry = lost.no_retry;
    no_start = lost.no_start;
  })
  welcome-IsLost g true lost = tell_connected-IsLost _ (
      schedule_heartbeat-IsLost _ g.connection_generation (record {
        down = lost.down;
        handle = lost.handle;
        no_retry = lost.no_retry;
        no_start = lost.no_start;
      }))

  pub opened-IsLost :
      (g : Gateway) (hdl : ℕ) (found : Bool)
      → (hdl == b) ≡ false
      → IsLost b g
      → IsLost b (on_client_open c g hdl found)
  unfolding on_client_open has_retry
  opened-IsLost g hdl found other lost =
      if_cases (IsLost b) (is_same_hdl hdl g.hdl_heartbeat) (λ e. cc (other, lost.handle, e))
        (λ _.
          if_keeps (IsLost b) (not (is_same_hdl hdl g.hdl_webserver))
            (record {
              down = lost.down;
              handle = lost.handle;
              no_retry = lost.no_retry;
              no_start = lost.no_start;
            })
            (welcome-IsLost _ found (record {
              down = lost.down;
              handle = lost.handle;
              no_retry = ground arith;
              no_start = lost.no_start;
            })))

  pub closed-IsLost :
      (g : Gateway) (hdl : ℕ) (peer : Peer)
      → (hdl == b) ≡ false
      → IsLost b g
      → IsLost b (on_client_close c g hdl peer)
  unfolding on_client_close
  closed-IsLost g hdl peer other lost =
      if_cases (IsLost b) (is_same_hdl hdl g.hdl_heartbeat) (λ e. cc (other, lost.handle, e))
        (λ _.
          if_keeps (IsLost b) (not (is_same_hdl hdl g.hdl_webserver)) lost
            (framed-IsLost g _ (web_closed-Frame c g peer) lost))

  has_retry-without :
      (n : ℕ) (ts : List Timer) → has_retry ts ≡ false → has_retry (without n ts) ≡ false
  unfolding has_retry without
  has_retry-without n [] h = refl
  has_retry-without zero (t ∷ ts) h = ground arith
  has_retry-without (suc n) (t ∷ ts) h = ground (arith, has_retry-without n ts)

  no_retry-nth :
      (n : ℕ) (ts : List Timer) (t : Timer)
      → nth n ts ≡ some t
      → has_retry ts ≡ false
      → is_retry t ≡ false
  unfolding has_retry nth
  no_retry-nth n [] t e h = cc
  no_retry-nth zero (u ∷ ts) t e h = ground arith
  no_retry-nth (suc n) (u ∷ ts) t e h = no_retry-nth n ts t e (ground arith)

  timer_due-IsLost :
      (g : Gateway) (t : Timer) (d : Due)
      → is_retry t ≡ false
      → IsLost b g
      → IsLost b (timer_due c g t d)
  unfolding timer_due
  timer_due-IsLost g (Timer.reconnect delay) d other lost =
      framed-IsLost g _ (reconnect_due-Frame c g d.failed d.answers) lost
  timer_due-IsLost g (Timer.heartbeat generation) d other lost =
      heartbeat_due-IsLost g generation d.failed d.beat lost
  timer_due-IsLost g Timer.heartbeat_reconnect d other lost = cc
  timer_due-IsLost g (Timer.stability generation) d other lost =
      framed-IsLost g _ (stability_due-Frame c g generation d.failed) lost

  pub run_timer-IsLost : (g : Gateway) (n : ℕ) (d : Due) → IsLost b g → IsLost b (run_timer c g n d)
  unfolding run_timer
  run_timer-IsLost g n d lost =
      option_keeps (IsLost b) (nth n g.timers) (λ _. lost)
        (λ t e. timer_due-IsLost _ t d (no_retry-nth n g.timers t e lost.no_retry) (record {
          down = lost.down;
          handle = lost.handle;
          no_retry = has_retry-without n g.timers lost.no_retry;
          no_start = lost.no_start;
        }))

  run_task-IsLost :
      (g : Gateway) (t : Task) (x y : Answers)
      → is_start t ≡ false
      → IsLost b g
      → IsLost b (run_task c g t x y)
  unfolding run_task
  run_task-IsLost g Task.connect_both x y other lost = cc
  run_task-IsLost g (Task.cleanup reconnect) x y other lost =
      framed-IsLost g _ (cleanup_and_reconnect-Frame c g reconnect x.peer) lost
  run_task-IsLost g (Task.send payload) x y other lost =
      framed-IsLost g _ (send_to_web_now-Frame c g payload x) lost
  run_task-IsLost g (Task.forward payload) x y other lost =
      if_keeps (IsLost b) (not g.webserver_connected) lost
        (framed-IsLost g _ (send_to_web_now-Frame c g payload x) lost)

  pub run_posted-IsLost :
      (posted : List Task) (g : Gateway) (x y : Answers)
      → has_start posted ≡ false
      → IsLost b g
      → IsLost b (run_posted c posted g x y)
  unfolding run_posted has_start
  run_posted-IsLost [] g x y none_there lost = lost
  run_posted-IsLost (t ∷ ts) g x y none_there lost =
      run_task-IsLost _ t x y (ground arith) (record {
        down = lost.down;
        handle = lost.handle;
        no_retry = lost.no_retry;
        no_start = ground arith;
      })

  run_work-handle : (g : Gateway) (ws : List Worker) → Frame g (run_all g ws)
  unfolding run_all
  run_work-handle g [] = same-Frame g
  run_work-handle g (w ∷ ws) =
      let ran = if w.finished then g else run_work g w.work in
      then-Frame (if_keeps (Frame g) w.finished (same-Frame g) (run_work-Frame c g w.work))
        (run_work-handle (if w.finished then g else run_work g w.work) ws)

  pub end_stop-IsLost : (g : Gateway) → IsLost b g → IsLost b (end_stop g)
  unfolding end_stop has_retry has_start
  end_stop-IsLost g lost =
      let f =
        run_work-handle (record g { timers = []; posted = []; handset_posted = [] }) g.workers in
      record {
        down = f.up ∙ lost.down;
        handle = f.handle ∙ lost.handle;
        no_retry = f.retry;
        no_start = f.start;
      }
