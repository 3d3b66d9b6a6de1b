-- ===== src/Throttle.antt =====
-- How often the position goes to the cloud (src/CommandExecutor.cc): the threads that ask whether it
-- may, and the command that sets the frequency.

pub mod Alone
pub mod Spacing
use rover_ops_jm.Prelude.{
  ℕ, zero, suc, ◌+◌, Bool, true, false, ◌||◌, not, ltb, ◌==◌, max, nat_eq, List, [], ◌∷◌, ◌++◌,
  Option, none, some, if◌then◌else◌,
}

-- A thread inside `should_send_upload_position`: it has read the clock, then the interval, then the
-- time of the last position; the last two rounds of the loop begin at `loaded`.
pub data Pass : Type 0 where
  timed : ℕ → Pass
  bounded : ℕ → ℕ → Pass
  loaded : ℕ → ℕ → ℕ → Pass

-- The two shared numbers, and the threads under way.
pub record Throttle : Type 0 where
  pub last_upload_position_ms : ℕ
  pub upload_position_interval_ms : ℕ
  pub passes : List Pass

-- A thread goes on by a step: it reads a number, or leaves with an answer.
pub data Next : Type 0 where
  goes_on : Pass → Next
  answers : Bool → Next

-- The exchange: it stores the time if the last one is still what was read, unless it fails for no
-- reason; when it fails the loop goes round with the last time as it is.
unfoldable pub exchange : Throttle → ℕ → ℕ → ℕ → Bool → Throttle × Next
exchange t now interval last spurious =
    if spurious || not (last == t.last_upload_position_ms)
    then (t, Next.goes_on (Pass.loaded now interval t.last_upload_position_ms))
    else (record t { last_upload_position_ms = now }, Next.answers true)

unfoldable pub should_send : Throttle → Pass → Bool → Throttle × Next
should_send t (Pass.timed now) spurious =
    (t, Next.goes_on (Pass.bounded now t.upload_position_interval_ms))
should_send t (Pass.bounded now interval) spurious =
    (t, Next.goes_on (Pass.loaded now interval t.last_upload_position_ms))
should_send t (Pass.loaded now interval last) spurious =
    if ltb now (last + interval)
    then (t, Next.answers false)
    else exchange t now interval last spurious

-- What the frequency command does: `millis` is 1000 / frequency_hz rounded, if the frequency is a
-- finite number above zero and at most 1000. The number is the code of the answer.
unfoldable pub handle_set_position_upload_frequency : Throttle → Option ℕ → Throttle × ℕ
handle_set_position_upload_frequency t none = (t, 400)
handle_set_position_upload_frequency t (some millis) =
    (record t { upload_position_interval_ms = max 1 millis; last_upload_position_ms = 0 }, 0)

-- A thread asks at a time of the clock, or one of those that ask takes its next step.
pub data Turn : Type 0 where
  asks : ℕ → Turn
  steps : ℕ → Bool → Turn

-- The times at which a position goes out.
abbrev pub gone : Pass → Next → List ℕ
gone (Pass.loaded now interval last) (Next.answers true) = now ∷ []
gone p next = []

abbrev pub back : Next → List Pass → List Pass
back (Next.goes_on p) ps = p ∷ ps
back (Next.answers b) ps = ps

-- The step of the thread at a place: the threads before it are kept aside, the last of them first.
unfoldable pub turn_at : ℕ → Throttle → List Pass → List Pass → Bool → Throttle × List ℕ
turn_at n t before [] spurious = (record t { passes = before }, [])
turn_at zero t before (p ∷ ps) spurious =
    let (u, next) = should_send t p spurious in
    (record u { passes = before ++ back next ps }, gone p next)
turn_at (suc n) t before (p ∷ ps) spurious = turn_at n t (before ++ p ∷ []) ps spurious

unfoldable pub turn : Throttle → Turn → Throttle × List ℕ
turn t (Turn.asks now) = (record t { passes = Pass.timed now ∷ t.passes }, [])
turn t (Turn.steps n spurious) = turn_at n t [] t.passes spurious

unfoldable pub run : Throttle → List Turn → List ℕ
run t [] = []
run t (x ∷ xs) = let (u, out) = turn t x in out ++ run u xs
