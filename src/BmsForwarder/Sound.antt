-- ===== src/BmsForwarder/Sound.antt =====
-- What keeps the forwarder on its way to its service, and what the operations of its connection keep
-- of it (src/bms/BmsForwarder.cc).
use rover_ops_jm.Prelude.{
  ℕ, ◌+◌, ◌≤◌, ◌<◌, ◌%◌, ◌^◌, Bool, true, false, ◌||◌, not, ◌==◌, nat_eq, if_keeps, if_cases, List,
  [], ◌∷◌, ◌++◌, Option, none, some, if◌then◌else◌, ◌∙◌, ◌≡◌, refl, subst, sym, arith,
}
use rover_ops_jm.Prelude.Texts.{text_eq}
use rover_ops_jm.BmsForwarder.{
  Timer, Task, Forwarder, schedule_reconnect, connect_websocket, send_latest_payload,
  send_robot_status, schedule_robot_status, on_websocket_open, on_websocket_end,
}

abbrev pub is_reconnect : Timer → Bool
is_reconnect Timer.reconnect = true
is_reconnect (Timer.robot_status generation) = false

unfoldable pub has_reconnect : List Timer → Bool
has_reconnect [] = false
has_reconnect (t ∷ ts) = is_reconnect t || has_reconnect ts

abbrev is_dial : Task → Bool
is_dial Task.dial = true
is_dial Task.send_latest = false

unfoldable pub has_dial : List Task → Bool
has_dial [] = false
has_dial (t ∷ ts) = is_dial t || has_dial ts

pub has_dial-append : (ts us : List Task) → has_dial (ts ++ us) ≡ (has_dial ts || has_dial us)
unfolding has_dial
has_dial-append [] us = refl
has_dial-append (t ∷ ts) us = ground (arith, has_dial-append ts us)

-- The timers that tell the status over the connection of a generation.
abbrev pub tells : ℕ → Timer → ℕ
tells g Timer.reconnect = 0
tells g (Timer.robot_status generation) = if generation == g then 1 else 0

unfoldable pub tellers : ℕ → List Timer → ℕ
tellers g [] = 0
tellers g (t ∷ ts) = tells g t + tellers g ts

-- No timer is of a generation to come.
abbrev age_of : Timer → ℕ
age_of Timer.reconnect = 0
age_of (Timer.robot_status generation) = generation

abbrev pub AllPast : ℕ → List Timer → Type 0
AllPast g [] = Unit
AllPast g (t ∷ ts) = (age_of t ≤ g) × AllPast g ts

-- The timers are in order: a reconnection that is noted has its timer, at most `most` timers tell the
-- status over the present connection, and none is of a connection to come.
pub record IsOrdered (most : ℕ) (ready running scheduled : Bool) (generation : ℕ)
    (timers : List Timer) : Type 0 where
  pub unstarted : ready ≡ false → (running ≡ false) × (scheduled ≡ false)
  pub known : running ≡ true → scheduled ≡ true → has_reconnect timers ≡ true
  pub once : tellers generation timers ≤ most
  pub past : AllPast generation timers

abbrev pub waits : Bool → Bool → List Timer → List Task → Bool
waits connected connecting timers posted =
    connected || connecting || has_reconnect timers || has_dial posted

-- And while it runs the forwarder is connected, dials, or waits for a timer or a task that dials.
pub record IsSound (most : ℕ) (f : Forwarder) : Type 0 where
  pub ordered :
      IsOrdered most f.asio_ready f.running f.reconnect_scheduled f.websocket_generation f.timers
  pub live :
      f.running ≡ true → waits f.websocket_connected f.websocket_connecting f.timers f.posted ≡ true

abbrev Ordered : ℕ → Forwarder → Type 0
Ordered most f =
    IsOrdered most f.asio_ready f.running f.reconnect_scheduled f.websocket_generation f.timers

module _ (most : ℕ) where
  schedule_reconnect-IsSound :
      (f : Forwarder) → Ordered most f → IsSound most (schedule_reconnect f)
  unfolding schedule_reconnect has_reconnect tellers
  schedule_reconnect-IsSound f h = ground (arith, h.known, h.once, h.past)

  pub connect_websocket-IsSound :
      (f : Forwarder) (fresh : Option ℕ) → Ordered most f → IsSound most (connect_websocket f fresh)
  unfolding connect_websocket
  connect_websocket-IsSound f none h =
      if_cases (IsSound most) (not f.running || f.websocket_connected || f.websocket_connecting)
        (λ e. record { ordered = h; live = λ r. ground arith })
        (λ _. schedule_reconnect-IsSound _ h)
  connect_websocket-IsSound f (some n) h =
      if_cases (IsSound most) (not f.running || f.websocket_connected || f.websocket_connecting)
        (λ e. record { ordered = h; live = λ r. ground arith })
        (λ _. record { ordered = h; live = λ r. ground arith })

  pub send_latest_payload-IsSound :
      (f : Forwarder) (ok : Bool) → IsSound most f → IsSound most (send_latest_payload f ok)
  unfolding send_latest_payload
  send_latest_payload-IsSound f ok h =
      if_keeps (IsSound most) (not f.websocket_connected || f.pending_payload == "") h (
        if_keeps (IsSound most) ok (record { ordered = h.ordered; live = h.live })
          (schedule_reconnect-IsSound _ h.ordered))

  pub send_robot_status-IsSound :
      (f : Forwarder) (ok : Bool) → IsSound most f → IsSound most (send_robot_status f ok)
  unfolding send_robot_status
  send_robot_status-IsSound f ok h =
      if_keeps (IsSound most) (not f.websocket_connected || not f.has_bms_state) h (
        if_keeps (IsSound most) ok (record { ordered = h.ordered; live = h.live })
          (schedule_reconnect-IsSound _ h.ordered))

send_latest_payload-generation :
    (f : Forwarder) (ok : Bool)
    → (send_latest_payload f ok).websocket_generation ≡ f.websocket_generation
unfolding send_latest_payload schedule_reconnect
send_latest_payload-generation f ok = ground arith

pub send_robot_status-generation :
    (f : Forwarder) (ok : Bool)
    → (send_robot_status f ok).websocket_generation ≡ f.websocket_generation
unfolding send_robot_status schedule_reconnect
send_robot_status-generation f ok = ground arith

pub weaken : (f : Forwarder) → IsSound 0 f → IsSound 1 f
weaken f h = ground arith

pub schedule_robot_status-IsSound :
    (f : Forwarder) (generation : ℕ)
    → f.websocket_generation ≡ generation
    → IsSound 0 f
    → IsSound 1 (schedule_robot_status f generation)
unfolding schedule_robot_status has_reconnect tellers
schedule_robot_status-IsSound f generation e h = ground arith

AllPast-next : (g : ℕ) (ts : List Timer) → AllPast g ts → AllPast (g + 1) ts
AllPast-next g [] h = tt
AllPast-next g (t ∷ ts) h = (omega arith, AllPast-next g ts h.1)

tellers-next : (g : ℕ) (ts : List Timer) → AllPast g ts → tellers (g + 1) ts ≡ 0
unfolding tellers
tellers-next g [] h = refl
tellers-next g (Timer.reconnect ∷ ts) h = ground (arith, tellers-next g ts h.1)
tellers-next g (Timer.robot_status n ∷ ts) h = ground (arith, tellers-next g ts h.1)

opened-IsOrdered :
    (ready running : Bool) (old g : ℕ) (ts : List Timer)
    → (ready ≡ false → running ≡ false)
    → g ≡ old + 1
    → AllPast old ts
    → IsOrdered 0 ready running false g ts
opened-IsOrdered ready running old g ts u e h = record {
  unstarted = λ r. (u r, refl);
  known = λ _ x. cc;
  once = subst (λ n. tellers n ts ≤ 0) (sym e) (omega (arith, tellers-next old ts h));
  past = subst (λ n. AllPast n ts) (sym e) (AllPast-next old ts h);
}

pub on_websocket_open-IsSound :
    (f : Forwarder) (hdl : ℕ) (payload_ok status_ok : Bool)
    → f.websocket_generation + 1 < 2 ^ 64
    → IsSound 1 f
    → IsSound 1 (on_websocket_open f hdl payload_ok status_ok)
unfolding on_websocket_open
on_websocket_open-IsSound f hdl payload_ok status_ok few h =
    let g = (f.websocket_generation + 1) % 2 ^ 64 in
    let e : g ≡ f.websocket_generation + 1 = omega arith in
    let opened = record f {
      websocket_hdl = hdl;
      websocket_connected = true;
      websocket_connecting = false;
      reconnect_scheduled = false;
      websocket_generation = g;
    } in
    let fresh : IsSound 0 opened = record {
      ordered =
          opened-IsOrdered f.asio_ready f.running f.websocket_generation g f.timers
            (λ r. (h.ordered.unstarted r).0) e h.ordered.past;
      live = λ _. ground arith;
    } in
    schedule_robot_status-IsSound _ g
      (send_robot_status-generation (send_latest_payload opened payload_ok) status_ok
        ∙ send_latest_payload-generation opened payload_ok)
      (send_robot_status-IsSound 0 _ status_ok
        (send_latest_payload-IsSound 0 opened payload_ok fresh))

pub on_websocket_end-IsSound : (f : Forwarder) → IsSound 1 f → IsSound 1 (on_websocket_end f)
unfolding on_websocket_end
on_websocket_end-IsSound f h = schedule_reconnect-IsSound 1 _ h.ordered
