-- ===== src/Gateway/Recovery/Calls.antt =====
-- Messages, tasks, timers and the calls of the program leave the gateway a way back.
use rover_ops_jm.Prelude.{
  ℕ, zero, suc, String, Bool, true, false, not, if_keeps, if◌then◌else◌, option_keeps, List, [],
  ◌∷◌, some, ◌≡◌, refl, ◌∙◌, arith,
}
use rover_ops_jm.Prelude.Texts.{text_eq}
use rover_ops_jm.Gateway.State.{Config, Timer, Task, Work, Worker, Gateway}
use rover_ops_jm.Gateway.Connection.{Answers, cleanup_and_reconnect, reconnect_due}
use rover_ops_jm.Gateway.Handlers.{
  stability_due, run_task, run_posted, run_work, send_to_web, broadcast_data, run_handset_posted,
  stop, run_all, end_stop,
}
use rover_ops_jm.Gateway.Step.{Due, timer_due, nth, without, run_timer, take_work, end_work}
use rover_ops_jm.Gateway.Recovery.{
  is_reconnect, has_reconnect, has_way_back, IsLive, has_way_back-append,
  close_web_connection-calls, cleanup_and_reconnect-IsLive, send_to_web_now-IsLive,
  connect_to_web-IsLive, reconnect_due-IsLive,
}
use rover_ops_jm.Gateway.Recovery.Events.{connect_heartbeat-IsLive, heartbeat_due-IsLive}

module _ (c : Config) where
  stability_due-IsLive :
      (g : Gateway) (generation : ℕ) (failed : Bool)
      → IsLive c g
      → IsLive c (stability_due g generation failed)
  unfolding stability_due
  stability_due-IsLive g generation failed h = ground arith

  has_reconnect-without :
      (n : ℕ) (ts : List Timer) (t : Timer)
      → nth n ts ≡ some t
      → is_reconnect t ≡ false
      → has_reconnect (without n ts) ≡ has_reconnect ts
  unfolding nth without has_reconnect
  has_reconnect-without n [] t h e = refl
  has_reconnect-without zero (u ∷ ts) t h e = ground arith
  has_reconnect-without (suc n) (u ∷ ts) t h e = ground (arith, has_reconnect-without n ts t)

  -- Without a timer that does not reconnect, all is as before.
  popped-IsLive :
      (g : Gateway) (n : ℕ) (t : Timer)
      → nth n g.timers ≡ some t
      → is_reconnect t ≡ false
      → IsLive c g
      → IsLive c (record g { timers = without n g.timers })
  popped-IsLive g n t found e h = ground (arith, has_reconnect-without n g.timers t)

  -- A reconnection that is due reconnects, unless its timer was cancelled by the shutdown.
  due-IsLive :
      (g : Gateway) (failed : Bool) (a : Answers)
      → (failed ≡ true → g.is_stopping ≡ true)
      → IsLive c (reconnect_due c g failed a)
  due-IsLive g false a h = reconnect_due-IsLive c g a
  due-IsLive g true a h =
      unfold reconnect_due in record { known = λ e. cc (h refl); live = ground (arith, h refl) }

  timer_due-IsLive :
      (g : Gateway) (n : ℕ) (t : Timer) (d : Due)
      → nth n g.timers ≡ some t
      → (d.failed ≡ true → g.is_stopping ≡ true)
      → IsLive c g
      → IsLive c (timer_due c (record g { timers = without n g.timers }) t d)
  unfolding timer_due
  timer_due-IsLive g n (Timer.reconnect delay) d found possible h =
      due-IsLive _ d.failed d.answers possible
  timer_due-IsLive g n (Timer.heartbeat generation) d found possible h =
      heartbeat_due-IsLive c _ generation d.failed d.beat (popped-IsLive g n _ found refl h)
  timer_due-IsLive g n Timer.heartbeat_reconnect d found possible h =
      if_keeps (IsLive c) d.failed (popped-IsLive g n _ found refl h)
        (connect_heartbeat-IsLive c _ d.answers.fresh (popped-IsLive g n _ found refl h))
  timer_due-IsLive g n (Timer.stability generation) d found possible h =
      stability_due-IsLive _ generation d.failed (popped-IsLive g n _ found refl h)

  pub run_timer-IsLive :
      (g : Gateway) (n : ℕ) (d : Due)
      → (d.failed ≡ true → g.is_stopping ≡ true)
      → IsLive c g
      → IsLive c (run_timer c g n d)
  unfolding run_timer
  run_timer-IsLive g n d possible h =
      option_keeps (IsLive c) (nth n g.timers) (λ _. h)
        (λ t found. timer_due-IsLive g n t d found possible h)

  -- The strand's oldest task is taken off before it runs.
  pub run_posted-IsLive :
      (posted : List Task) (g : Gateway) (a b : Answers)
      → IsLive c (record g { posted = posted })
      → IsLive c (run_posted c posted g a b)
  unfolding run_posted run_task has_way_back
  run_posted-IsLive [] g a b h = ground arith
  run_posted-IsLive (Task.connect_both ∷ ts) g a b h =
      connect_heartbeat-IsLive c _ b.fresh (connect_to_web-IsLive c _ a h.known)
  run_posted-IsLive (Task.cleanup true ∷ ts) g a b h =
      cleanup_and_reconnect-IsLive c _ a.peer h.known
  run_posted-IsLive (Task.cleanup false ∷ ts) g a b h =
      let (calls, e) = close_web_connection-calls c (record g { posted = ts }) a.peer in
      unfold cleanup_and_reconnect in rw e (record { known = h.known; live = h.live })
  run_posted-IsLive (Task.send payload ∷ ts) g a b h =
      send_to_web_now-IsLive c _ payload a (record { known = h.known; live = h.live })
  run_posted-IsLive (Task.forward payload ∷ ts) g a b h =
      if_keeps (IsLive c) (not g.webserver_connected) (record { known = h.known; live = h.live })
        (send_to_web_now-IsLive c _ payload a (record { known = h.known; live = h.live }))

  pub send_to_web-IsLive :
      (g : Gateway) (mine : Bool) (payload : String) (a : Answers)
      → IsLive c g
      → IsLive c (send_to_web c g mine payload a)
  unfolding send_to_web has_way_back
  send_to_web-IsLive g mine payload a h = ground (
    arith,
    send_to_web_now-IsLive c g payload a,
    has_way_back-append g.posted (Task.send payload ∷ []),
  )

  pub broadcast_data-IsLive :
      (g : Gateway) (payload : String) → IsLive c g → IsLive c (broadcast_data g payload)
  unfolding broadcast_data has_way_back
  broadcast_data-IsLive g payload h =
      ground (arith, has_way_back-append g.posted (Task.send payload ∷ []))

  pub run_handset_posted-IsLive :
      (posted : List String) (g : Gateway) (ok : Bool)
      → IsLive c g
      → IsLive c (run_handset_posted posted g ok)
  unfolding run_handset_posted
  run_handset_posted-IsLive [] g ok h = h
  run_handset_posted-IsLive (p ∷ ps) g ok h = ground arith

  pub stop-IsLive : (g : Gateway) → IsLive c g → IsLive c (stop g)
  unfolding stop
  stop-IsLive g h = ground arith

  run_work-IsLive : (g : Gateway) (w : Work) → IsLive c g → IsLive c (run_work g w)
  unfolding run_work
  run_work-IsLive g (Work.diagnostics host port) h = record { known = h.known; live = h.live }
  run_work-IsLive g (Work.message json) h = record { known = h.known; live = h.live }

  pub end_work-IsLive : (g : Gateway) (n : ℕ) → IsLive c g → IsLive c (end_work g n)
  unfolding end_work
  end_work-IsLive g n h =
      option_keeps (IsLive c) (take_work n g.workers).1 (λ _. h)
        (λ w e. run_work-IsLive _ w (record { known = h.known; live = h.live }))

  run_work-stopping : (g : Gateway) (w : Work) → (run_work g w).is_stopping ≡ g.is_stopping
  unfolding run_work
  run_work-stopping g (Work.diagnostics host port) = refl
  run_work-stopping g (Work.message json) = refl

  run_all-stopping : (g : Gateway) (ws : List Worker) → (run_all g ws).is_stopping ≡ g.is_stopping
  unfolding run_all
  run_all-stopping g [] = refl
  run_all-stopping g (w ∷ ws) =
      run_all-stopping (if w.finished then g else run_work g w.work) ws
      ∙ if_keeps (λ (h : Gateway). h.is_stopping ≡ g.is_stopping) w.finished refl
          (run_work-stopping g w.work)

  pub end_stop-IsLive : (g : Gateway) → g.is_stopping ≡ true → IsLive c (end_stop g)
  unfolding end_stop
  end_stop-IsLive g e = ground (
    arith,
    run_all-stopping (record g { timers = []; posted = []; handset_posted = [] }) g.workers,
  )
