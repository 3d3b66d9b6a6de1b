-- ===== src/Robot/Fsm/Generation.antt =====
-- What the generation number of include/RobotFsm.h is for: a worker that was started under an older
-- generation is never taken for a current one.
use rover_ops_jm.Prelude.{
  ℕ, ◌+◌, ◌%◌, ◌^◌, ◌≤◌, ◌<◌, false, ◌≡◌, ◌⊎◌, inl, inr, List, [], ◌∷◌, length, arith,
}
use rover_ops_jm.Robot.State.{RobotDto}
use rover_ops_jm.Robot.Fsm.{navigation_current, is_navigation}
use rover_ops_jm.Robot.Fsm.Step.{Operation, apply, apply_all}

-- After `n` calls since a moment outside navigation at generation `g`, the number has been raised
-- `k` times, at least once if the machine navigates again.
record Raised (g n : ℕ) (s : RobotDto) : Type 0 where
  times : ℕ
  few : times ≤ n
  value : s.generation ≡ (g + times) % 2 ^ 64
  raised : (is_navigation s.motion_mode ≡ false) ⊎ (1 ≤ times)

-- A call raises the number or keeps it, and raises it when it enters navigation.
apply-generation :
    (s : RobotDto) (op : Operation)
    → ((apply s op).generation ≡ (s.generation + 1) % 2 ^ 64)
      ⊎ (((apply s op).generation ≡ s.generation)
          × ((is_navigation s.motion_mode ≡ false)
              → is_navigation (apply s op).motion_mode ≡ false))
unfolding apply is_navigation
apply-generation s Operation.begin_navigation = ground arith
apply-generation s op = ground arith

apply-Raised :
    (g n : ℕ) (s : RobotDto) (op : Operation) → Raised g n s → Raised g (n + 1) (apply s op)
apply-Raised g n s op r = elim (apply-generation s op) [
  | inl up ↦ record {
    times = r.times + 1;
    few = omega (arith, r.few);
    value = omega (arith, up, r.value);
    raised = inr (omega arith);
  }
  | inr (keep, out) ↦ record {
    times = r.times;
    few = omega (arith, r.few);
    value = omega (arith, keep, r.value);
    raised = elim r.raised [ inl away ↦ inl (out away) | inr some_time ↦ inr some_time ];
  }
]

apply_all-Raised :
    (g n : ℕ) (s : RobotDto) (ops : List Operation)
    → Raised g n s
    → Raised g (n + length ops) (apply_all s ops)
unfolding apply_all
apply_all-Raised g n s [] r = record {
  times = r.times;
  few = omega (arith, r.few);
  value = r.value;
  raised = r.raised;
}
apply_all-Raised g n s (op ∷ ops) r =
    let rest = apply_all-Raised g (n + 1) (apply s op) ops (apply-Raised g n s op r) in
    record {
      times = rest.times;
      few = omega (arith, rest.few);
      value = rest.value;
      raised = rest.raised;
    }

Raised-stale :
    (g n : ℕ) (s : RobotDto)
    → g < 2 ^ 64
    → n < 2 ^ 64
    → Raised g n s
    → navigation_current s g ≡ false
unfolding navigation_current
Raised-stale g n s h k r = elim r.raised [
  | inl away ↦ ground (arith, away)
  | inr some_time ↦ ground (arith, some_time, r.value, r.few)
]

-- A worker started under the generation of a state is told off for good by the call that leaves
-- navigation: after that call and any further ones, fewer than 2^64 in all, a check of its
-- generation answers no, also when the robot navigates again.
pub left_navigation-stale :
    (s : RobotDto) (op : Operation) (ops : List Operation)
    → s.generation < 2 ^ 64
    → is_navigation (apply s op).motion_mode ≡ false
    → length ops + 1 < 2 ^ 64
    → navigation_current (apply_all (apply s op) ops) s.generation ≡ false
left_navigation-stale s op ops small left few =
    Raised-stale s.generation (1 + length ops) _ small (omega arith)
      (apply_all-Raised s.generation 1 (apply s op) ops start)
  where
    start : Raised s.generation 1 (apply s op)
    start = elim (apply-generation s op) [
      | inl up ↦ record { times = 1; few = omega arith; value = up; raised = inl left }
      | inr (keep, out) ↦ record {
        times = 0;
        few = omega arith;
        value = omega (arith, keep);
        raised = inl left;
      }
    ]
