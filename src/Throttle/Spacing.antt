-- ===== src/Throttle/Spacing.antt =====
-- How far apart the positions are that go out.
use rover_ops_jm.Prelude.{
  ℕ, zero, suc, ◌+◌, ◌≤◌, Bool, ◌||◌, not, ltb, ◌==◌, max, nat_eq, List, [], ◌∷◌, ◌++◌, some,
  if_cases, arith,
}
use rover_ops_jm.Throttle.{
  Pass, Throttle, Next, exchange, should_send, handle_set_position_upload_frequency, Turn, gone,
  back, turn_at, turn, run,
}

-- The first time is at least `i` after `last`, and each at least `i` after the one before it.
abbrev pub Spaced : ℕ → ℕ → List ℕ → Type 0
Spaced i last [] = Unit
Spaced i last (n ∷ ns) = (last + i ≤ n) × Spaced i n ns

abbrev pub IsPatient : ℕ → Pass → Type 0
IsPatient i (Pass.timed now) = Unit
IsPatient i (Pass.bounded now interval) = i ≤ interval
IsPatient i (Pass.loaded now interval last) = i ≤ interval

-- No thread under way waits for less than `i`.
abbrev pub AllPatient : ℕ → List Pass → Type 0
AllPatient i [] = Unit
AllPatient i (p ∷ ps) = IsPatient i p × AllPatient i ps

AllPatient-append :
    (i : ℕ) (ps qs : List Pass) → AllPatient i ps → AllPatient i qs → AllPatient i (ps ++ qs)
AllPatient-append i [] qs h k = k
AllPatient-append i (p ∷ ps) qs h k = (h.0, AllPatient-append i ps qs h.1 k)

-- A turn keeps to the interval: what goes out later may be put after it.
record IsFair (i last : ℕ) (r : Throttle × List ℕ) : Type 0 where
  patient : AllPatient i r.0.passes
  wide : i ≤ r.0.upload_position_interval_ms
  spaced : (ns : List ℕ) → Spaced i r.0.last_upload_position_ms ns → Spaced i last (r.1 ++ ns)

should_send-IsFair :
    (i : ℕ) (t : Throttle) (before : List Pass) (p : Pass) (ps : List Pass) (spurious : Bool)
    → i ≤ t.upload_position_interval_ms
    → AllPatient i before
    → AllPatient i (p ∷ ps)
    → IsFair i t.last_upload_position_ms (
      record (should_send t p spurious).0 {
        passes = before ++ back (should_send t p spurious).1 ps;
      },
      gone p (should_send t p spurious).1,
    )
unfolding should_send exchange
should_send-IsFair i t before (Pass.timed now) ps spurious w b h = record {
  patient = AllPatient-append i before _ b (w, h.1);
  wide = w;
  spaced = λ ns k. k;
}
should_send-IsFair i t before (Pass.bounded now interval) ps spurious w b h = record {
  patient = AllPatient-append i before _ b h;
  wide = w;
  spaced = λ ns k. k;
}
should_send-IsFair i t before (Pass.loaded now interval last) ps spurious w b h =
    let P : Throttle × Next → Type 0 = λ r.
      IsFair i t.last_upload_position_ms
        (record r.0 { passes = before ++ back r.1 ps }, gone (Pass.loaded now interval last) r.1) in
    if_cases P (ltb now (last + interval))
      (λ _. record { patient = AllPatient-append i before _ b h.1; wide = w; spaced = λ ns k. k })
      (λ late.
        if_cases P (spurious || not (last == t.last_upload_position_ms))
          (λ _. record { patient = AllPatient-append i before _ b h; wide = w; spaced = λ ns k. k })
          (λ same. record {
            patient = AllPatient-append i before _ b h.1;
            wide = w;
            spaced = λ ns k. (ground (arith, late, same, h.0), k);
          }))

turn_at-IsFair :
    (i n : ℕ) (t : Throttle) (before ps : List Pass) (spurious : Bool)
    → i ≤ t.upload_position_interval_ms
    → AllPatient i before
    → AllPatient i ps
    → IsFair i t.last_upload_position_ms (turn_at n t before ps spurious)
unfolding turn_at
turn_at-IsFair i n t before [] spurious w b h = record { patient = b; wide = w; spaced = λ ns k. k }
turn_at-IsFair i zero t before (p ∷ ps) spurious w b h =
    should_send-IsFair i t before p ps spurious w b h
turn_at-IsFair i (suc n) t before (p ∷ ps) spurious w b h =
    turn_at-IsFair i n t _ ps spurious w (AllPatient-append i before _ b (h.0, tt)) h.1

turn-IsFair :
    (i : ℕ) (t : Throttle) (x : Turn)
    → i ≤ t.upload_position_interval_ms
    → AllPatient i t.passes
    → IsFair i t.last_upload_position_ms (turn t x)
unfolding turn
turn-IsFair i t (Turn.asks now) w h = record { patient = (tt, h); wide = w; spaced = λ ns k. k }
turn-IsFair i t (Turn.steps n spurious) w h = turn_at-IsFair i n t [] t.passes spurious w tt h

run-Spaced :
    (i : ℕ) (t : Throttle) (xs : List Turn)
    → i ≤ t.upload_position_interval_ms
    → AllPatient i t.passes
    → Spaced i t.last_upload_position_ms (run t xs)
unfolding run
run-Spaced i t [] w h = tt
run-Spaced i t (x ∷ xs) w h =
    let fair = turn-IsFair i t x w h in
    fair.spaced _ (run-Spaced i (turn t x).0 xs fair.wide fair.patient)

-- After a frequency is set, with no thread under way that waits for less, the positions that go out
-- are an interval of the clock apart, 1000 / frequency_hz milliseconds and one at least: whatever
-- threads ask at whatever times, in whatever order they take their steps, and however often an
-- exchange fails for no reason.
pub set_frequency-Spaced :
    (t : Throttle) (millis : ℕ) (xs : List Turn)
    → AllPatient (max 1 millis) t.passes
    → Spaced (max 1 millis) 0 (run (handle_set_position_upload_frequency t (some millis)).0 xs)
unfolding handle_set_position_upload_frequency
set_frequency-Spaced t millis xs h =
    run-Spaced (max 1 millis) (handle_set_position_upload_frequency t (some millis)).0 xs
      (omega arith) h
