-- ===== src/Executor/Invariant/Shut.antt =====
-- A follow that finds the machine following, mapping or in a fault.
use rover_ops_jm.Prelude.{Bool, true, ◌||◌, ◌==◌, ◌≡◌, refl, if_cases, arith}
use rover_ops_jm.Robot.State.{MotionMode, mode_eq}
use rover_ops_jm.Executor.State.{Executor}
use rover_ops_jm.Executor.Follow.{FollowAnswers, start_follow}
use rover_ops_jm.Executor.Invariant.Kept.{IsKept, kept, IsQuiet}
use rover_ops_jm.Executor.Invariant.Follow.{is_shut}

-- A follow that finds the machine shut changes neither it nor the backend, nor the queue.
pub record IsUnmoved (e d : Executor) : Type 0 where
  pub behavior : d.behavior ≡ e.behavior
  pub follow : d.follow ≡ e.follow
  pub pending : d.pending_follow ≡ e.pending_follow

pub start_follow-IsUnmoved :
    (e : Executor) (b : Bool) (o : FollowAnswers)
    → is_shut e.behavior.motion_mode ≡ true
    → IsUnmoved e (start_follow e b o).0
unfolding start_follow
start_follow-IsUnmoved e b o h =
    if_cases {A = Executor × Bool} (λ r. IsUnmoved e r.0)
      (e.behavior.motion_mode == MotionMode.stopping) (λ g. absurd (ground arith))
      (λ g.
        if_cases {A = Executor × Bool} (λ r. IsUnmoved e r.0)
          (e.behavior.motion_mode == MotionMode.starting_follow
            || e.behavior.motion_mode == MotionMode.following)
          (λ f. record { behavior = refl; follow = refl; pending = refl })
          (λ f.
            if_cases {A = Executor × Bool} (λ r. IsUnmoved e r.0)
              (e.behavior.motion_mode == MotionMode.mapping
                || e.behavior.motion_mode == MotionMode.failed)
              (λ d. record { behavior = refl; follow = refl; pending = refl })
              (λ d. absurd (ground arith))))

pub shut_follow-IsQuiet :
    (p : Bool) (e : Executor) (b : Bool) (o : FollowAnswers)
    → is_shut e.behavior.motion_mode ≡ true
    → IsKept (IsQuiet p) e
    → IsKept (IsQuiet p) (start_follow e b o).0
unfolding start_follow
shut_follow-IsQuiet p e b o h v =
    if_cases {A = Executor × Bool} (λ r. IsKept (IsQuiet p) r.0)
      (e.behavior.motion_mode == MotionMode.stopping) (λ g. absurd (ground arith))
      (λ g.
        if_cases {A = Executor × Bool} (λ r. IsKept (IsQuiet p) r.0)
          (e.behavior.motion_mode == MotionMode.starting_follow
            || e.behavior.motion_mode == MotionMode.following)
          (λ f. kept v.parts)
          (λ f.
            if_cases {A = Executor × Bool} (λ r. IsKept (IsQuiet p) r.0)
              (e.behavior.motion_mode == MotionMode.mapping
                || e.behavior.motion_mode == MotionMode.failed)
              (λ d. kept v.parts) (λ d. absurd (ground arith))))
