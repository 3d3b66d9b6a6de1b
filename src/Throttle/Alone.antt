-- ===== src/Throttle/Alone.antt =====
-- What a thread that asks alone is told.
use rover_ops_jm.Prelude.{
  ℕ, zero, suc, ◌+◌, Bool, true, false, ltb, nat_eq, List, [], ◌∷◌, if◌then◌else◌, Bool-cases, inl,
  inr, ◌≡◌, refl, arith,
}
use rover_ops_jm.Throttle.{Pass, Throttle, Next, exchange, should_send, Turn, turn_at, turn, run}

-- The exchange fails so many times for no reason, and then not.
pub tries : ℕ → List Turn
tries zero = Turn.steps 0 false ∷ []
tries (suc n) = Turn.steps 0 true ∷ tries n

idle-run : (n : ℕ) (t : Throttle) → run (record t { passes = [] }) (tries n) ≡ []
unfolding tries run turn turn_at
idle-run zero t = refl
idle-run (suc n) t = idle-run n t

same_exchange :
    (t : Throttle) (now interval : ℕ)
    → exchange t now interval t.last_upload_position_ms false
      ≡ (record t { last_upload_position_ms = now }, Next.answers true)
unfolding exchange
same_exchange t now interval = ground arith

spurious_exchange :
    (t : Throttle) (now interval last : ℕ)
    → exchange t now interval last true
      ≡ (t, Next.goes_on (Pass.loaded now interval t.last_upload_position_ms))
unfolding exchange
spurious_exchange t now interval last = refl

tries-run :
    (n : ℕ) (t : Throttle) (now interval : ℕ)
    → run (record t { passes = Pass.loaded now interval t.last_upload_position_ms ∷ [] }) (tries n)
      ≡ (if ltb now (t.last_upload_position_ms + interval) then [] else now ∷ [])
unfolding tries run turn turn_at should_send
tries-run zero t now interval = elim (Bool-cases (ltb now (t.last_upload_position_ms + interval))) [
  | inl e ↦ rw e
  | inr e ↦ rw (
    e,
    same_exchange (record t { passes = Pass.loaded now interval t.last_upload_position_ms ∷ [] })
        now interval,
  )
]
tries-run (suc n) t now interval =
    elim (Bool-cases (ltb now (t.last_upload_position_ms + interval))) [
      | inl e ↦ rw (e, idle-run n t)
      | inr e ↦ rw (e, spurious_exchange, tries-run n t now interval, e)
    ]

-- A thread that asks while no other does is answered: at the first exchange that does not fail for
-- no reason, after however many that do, its position goes out if an interval has passed since the
-- last one, and not at all otherwise.
pub alone-run :
    (n : ℕ) (t : Throttle) (now : ℕ) (first second : Bool)
    → t.passes ≡ []
    → run t (Turn.asks now ∷ Turn.steps 0 first ∷ Turn.steps 0 second ∷ tries n) ≡ (
        if ltb now (t.last_upload_position_ms + t.upload_position_interval_ms)
        then []
        else now ∷ [])
unfolding run turn turn_at should_send
alone-run n t now first second none = rw (none, tries-run n t now t.upload_position_interval_ms)
