-- ===== src/Robot/Fsm/Invariant.antt =====
-- What holds of the state of include/RobotFsm.h between two calls, after any history of them.
use rover_ops_jm.Prelude.{Bool, true, false, ◌||◌, ◌==◌, ◌≡◌, ◌⊎◌, subst, sym, arith}
use rover_ops_jm.Robot.State.{MotionMode, TaskStatus, RobotDto, mode_eq, task_eq}
use rover_ops_jm.Robot.Fsm.{initial}
use rover_ops_jm.Robot.Fsm.Step.{Operation, apply, is_allowed, Reach, here, next}

-- The modes in which a navigation environment may be up.
abbrev may_have_environment : MotionMode → Bool
may_have_environment mode =
    mode == MotionMode.navigation_ready
    || mode == MotionMode.navigating
    || mode == MotionMode.stopping

abbrev may_be_localized : MotionMode → Bool
may_be_localized mode =
    mode == MotionMode.starting_navigation
    || mode == MotionMode.navigation_ready
    || mode == MotionMode.navigating
    || mode == MotionMode.stopping
    || mode == MotionMode.failed

abbrev may_have_fault : MotionMode → Bool
may_have_fault mode = mode == MotionMode.stopping || mode == MotionMode.failed

-- The task statuses that go with a mode.
abbrev fits : MotionMode → TaskStatus → Bool
fits MotionMode.idle t = t == TaskStatus.idle || t == TaskStatus.cancelled
fits MotionMode.starting_navigation t = t == TaskStatus.idle
fits MotionMode.navigating t = t == TaskStatus.running || t == TaskStatus.paused
fits MotionMode.starting_follow t = t == TaskStatus.cancelled
fits MotionMode.following t = t == TaskStatus.running
fits MotionMode.mapping t = t == TaskStatus.idle || t == TaskStatus.cancelled
fits MotionMode.mapping_processing t = t == TaskStatus.idle || t == TaskStatus.cancelled
fits MotionMode.stopping t = t == TaskStatus.stopping
fits MotionMode.navigation_ready TaskStatus.running = false
fits MotionMode.navigation_ready TaskStatus.paused = false
fits MotionMode.navigation_ready t = true
fits MotionMode.failed t = true

pub record IsConsistent (s : RobotDto) : Type 0 where
  pub environment :
      s.navigation_environment_ready ≡ true → may_have_environment s.motion_mode ≡ true
  pub localized : s.localization_ready ≡ true → may_be_localized s.motion_mode ≡ true
  pub placeholder : s.follow_placeholder ≡ true → s.motion_mode ≡ MotionMode.following
  pub fault : (s.fault_reason ≡ "") ⊎ (may_have_fault s.motion_mode ≡ true)
  pub status : fits s.motion_mode s.task_status ≡ true

pub initial-IsConsistent : IsConsistent initial
unfolding initial
initial-IsConsistent = ground arith

pub apply-IsConsistent :
    (s : RobotDto) (op : Operation)
    → is_allowed s op ≡ true
    → IsConsistent s
    → IsConsistent (apply s op)
unfolding apply
apply-IsConsistent s Operation.begin_navigation h c = ground arith
apply-IsConsistent s op h c = ground arith

-- Whatever calls are made, each `stopped` inside a stop or a follow that is starting, the state
-- keeps these rules: an environment or a localization is marked ready only in the modes that can
-- have one, the follow placeholder is set only while following, a fault reason is kept only while
-- stopping or failed, and the task status is one that fits the mode.
pub Reach-IsConsistent : {s : RobotDto} → Reach s → IsConsistent s
Reach-IsConsistent here = initial-IsConsistent
Reach-IsConsistent (next {s} op r h e) =
    subst IsConsistent (sym e) (apply-IsConsistent s op h (Reach-IsConsistent r))
