-- ===== src/BmsForwarder/Timers.antt =====
-- What the timers of the forwarder keep.
use rover_ops_jm.Prelude.{
  ℕ, zero, suc, ◌+◌, ◌≤◌, Bool, true, false, ◌&&◌, ◌||◌, not, ◌==◌, nat_eq, if_keeps, if_cases,
  List, [], ◌∷◌, Option, some, if◌then◌else◌, ◌∙◌, ◌≡◌, refl, arith,
}
use rover_ops_jm.Prelude.Texts.{text_eq}
use rover_ops_jm.BmsForwarder.{
  Timer, Forwarder, send_robot_status, schedule_robot_status, robot_status_due, reconnect_due, nth,
  without, timer_due,
}
use rover_ops_jm.BmsForwarder.Sound.{
  is_reconnect, has_reconnect, tells, tellers, AllPast, IsOrdered, IsSound,
  connect_websocket-IsSound, send_robot_status-IsSound, send_robot_status-generation, weaken,
  schedule_robot_status-IsSound,
}

AllPast-without : (g n : ℕ) (ts : List Timer) → AllPast g ts → AllPast g (without n ts)
unfolding without
AllPast-without g n [] h = tt
AllPast-without g zero (t ∷ ts) h = h.1
AllPast-without g (suc n) (t ∷ ts) h = (h.0, AllPast-without g n ts h.1)

tellers-without :
    (g n : ℕ) (ts : List Timer) (t : Timer)
    → nth n ts ≡ some t
    → tellers g ts ≡ tells g t + tellers g (without n ts)
unfolding nth without tellers
tellers-without g n [] t e = cc
tellers-without g zero (u ∷ ts) t e = ground arith
tellers-without g (suc n) (u ∷ ts) t e = omega (arith, tellers-without g n ts t e)

has_reconnect-without :
    (n : ℕ) (ts : List Timer) (t : Timer)
    → nth n ts ≡ some t
    → is_reconnect t ≡ false
    → has_reconnect (without n ts) ≡ has_reconnect ts
unfolding nth without has_reconnect
has_reconnect-without n [] t h e = refl
has_reconnect-without zero (u ∷ ts) t h e = ground arith
has_reconnect-without (suc n) (u ∷ ts) t h e = ground (arith, has_reconnect-without n ts t)

-- Without a timer of the status, all is as before, and none of its kind is left if it was of the
-- present connection.
popped-IsSound :
    (f : Forwarder) (n most generation : ℕ)
    → nth n f.timers ≡ some (Timer.robot_status generation)
    → tellers f.websocket_generation (without n f.timers) ≤ most
    → IsSound 1 f
    → IsSound most (record f { timers = without n f.timers })
popped-IsSound f n most generation found few h = record {
  ordered = record {
    unstarted = h.ordered.unstarted;
    known = λ r s. has_reconnect-without n f.timers _ found refl ∙ h.ordered.known r s;
    once = few;
    past = AllPast-without f.websocket_generation n f.timers h.ordered.past;
  };
  live = λ r.
      ground (arith, has_reconnect-without n f.timers (Timer.robot_status generation), h.live r);
}

told-IsSound :
    (f : Forwarder) (generation : ℕ) (ok : Bool)
    → f.websocket_generation ≡ generation
    → IsSound 0 f
    → IsSound 1 (
        if (send_robot_status f ok).websocket_connected
        then schedule_robot_status (send_robot_status f ok) generation
        else send_robot_status f ok)
told-IsSound f generation ok e h =
    let s = send_robot_status-IsSound 0 f ok h in
    if_keeps (IsSound 1) (send_robot_status f ok).websocket_connected
      (schedule_robot_status-IsSound _ generation (send_robot_status-generation f ok ∙ e) s)
      (weaken _ s)

same_generation : (a b : ℕ) (x y z : Bool) → (x || not y || not z || not (a == b)) ≡ false → b ≡ a
same_generation a b x y z h = ground arith

robot_status_due-IsSound :
    (f : Forwarder) (n generation : ℕ) (failed ok : Bool)
    → nth n f.timers ≡ some (Timer.robot_status generation)
    → IsSound 1 f
    → IsSound 1 (robot_status_due (record f { timers = without n f.timers }) generation failed ok)
unfolding robot_status_due
robot_status_due-IsSound f n generation failed ok found h =
    let count = tellers-without f.websocket_generation n f.timers _ found in
    if_cases (IsSound 1)
      (failed
        || not f.running
        || not f.websocket_connected
        || not (generation == f.websocket_generation))
      (λ _. popped-IsSound f n 1 generation found (omega (arith, count, h.ordered.once)) h)
      (λ e.
        let same =
          same_generation generation f.websocket_generation failed f.running f.websocket_connected
            e in
        told-IsSound _ generation ok same
          (popped-IsSound f n 0 generation found (ground (arith, count, h.ordered.once, same)) h))

tellers-without-le : (g n : ℕ) (ts : List Timer) → tellers g (without n ts) ≤ tellers g ts
unfolding without tellers
tellers-without-le g n [] = omega arith
tellers-without-le g zero (t ∷ ts) = omega arith
tellers-without-le g (suc n) (t ∷ ts) = omega (arith, tellers-without-le g n ts)

reconnect_due-IsSound :
    (f : Forwarder) (n : ℕ) (failed : Bool) (fresh : Option ℕ)
    → (failed ≡ true → f.running ≡ false)
    → IsSound 1 f
    → IsSound 1 (reconnect_due (record f { timers = without n f.timers }) failed fresh)
unfolding reconnect_due
reconnect_due-IsSound f n failed fresh possible h =
    let g = f.websocket_generation in
    let ordered : IsOrdered 1 f.asio_ready f.running false g (without n f.timers) = record {
      unstarted = λ r. ((h.ordered.unstarted r).0, refl);
      known = λ r s. cc;
      once = omega (arith, tellers-without-le g n f.timers, h.ordered.once);
      past = AllPast-without g n f.timers h.ordered.past;
    } in
    if_cases (IsSound 1) (not failed && f.running)
      (λ _. connect_websocket-IsSound 1 _ fresh ordered)
      (λ e. record { ordered = ordered; live = λ r. ground (arith, e, r, possible) })

pub timer_due-IsSound :
    (f : Forwarder) (n : ℕ) (t : Timer) (failed : Bool) (fresh : Option ℕ) (ok : Bool)
    → nth n f.timers ≡ some t
    → (failed ≡ true → f.running ≡ false)
    → IsSound 1 f
    → IsSound 1 (timer_due (record f { timers = without n f.timers }) t failed fresh ok)
unfolding timer_due
timer_due-IsSound f n Timer.reconnect failed fresh ok found possible h =
    reconnect_due-IsSound f n failed fresh possible h
timer_due-IsSound f n (Timer.robot_status generation) failed fresh ok found possible h =
    robot_status_due-IsSound f n generation failed ok found h
