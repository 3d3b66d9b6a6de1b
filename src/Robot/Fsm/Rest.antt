-- ===== src/Robot/Fsm/Rest.antt =====
-- The machine of include/RobotFsm.h at rest: consistent, with no stop half done. Every call but
-- those that begin a stop keeps it there.
use rover_ops_jm.Prelude.{String, Bool, true, ◌≡◌, ◌≢◌, ◌⊎◌, refl, arith}
use rover_ops_jm.Robot.State.{MotionMode, TaskStatus, RobotDto}
use rover_ops_jm.Robot.Fsm.{
  initial, begin_navigation, navigation_ready, navigation_start_aborted, stopped, follow_started,
  follow_stopped, stop_follow, task_state, localization_ready, mapping, mapping_processing,
  mapping_failed, begin_mapping, begin_stop, begin_follow, FollowDecision,
}
use rover_ops_jm.Robot.Fsm.Step.{Operation, apply}
use rover_ops_jm.Robot.Fsm.Invariant.{IsConsistent, initial-IsConsistent, apply-IsConsistent}

pub record IsAtRest (s : RobotDto) : Type 0 where
  pub consistent : IsConsistent s
  pub settled : s.motion_mode ≢ MotionMode.stopping

pub initial-IsAtRest : IsAtRest initial
unfolding initial
initial-IsAtRest = record { consistent = unfold initial in initial-IsConsistent; settled = λ e. cc }

pub begin_navigation-IsAtRest : (s : RobotDto) → IsAtRest s → IsAtRest (begin_navigation s).0
unfolding begin_navigation apply
begin_navigation-IsAtRest s h = record {
  consistent = apply-IsConsistent s Operation.begin_navigation refl h.consistent;
  settled = ground arith;
}

pub navigation_start_aborted-IsAtRest :
    (s : RobotDto) → IsAtRest s → IsAtRest (navigation_start_aborted s).0
unfolding navigation_start_aborted apply
navigation_start_aborted-IsAtRest s h = record {
  consistent = apply-IsConsistent s Operation.navigation_start_aborted refl h.consistent;
  settled = ground arith;
}

pub stop_follow-IsAtRest : (s : RobotDto) → IsAtRest s → IsAtRest (stop_follow s).0
unfolding stop_follow apply
stop_follow-IsAtRest s h = record {
  consistent = apply-IsConsistent s Operation.stop_follow refl h.consistent;
  settled = ground arith;
}

pub mapping_processing-IsAtRest : (s : RobotDto) → IsAtRest s → IsAtRest (mapping_processing s).0
unfolding mapping_processing apply
mapping_processing-IsAtRest s h = record {
  consistent = apply-IsConsistent s Operation.mapping_processing refl h.consistent;
  settled = ground arith;
}

pub begin_mapping-IsAtRest : (s : RobotDto) → IsAtRest s → IsAtRest (begin_mapping s).0
unfolding begin_mapping apply
begin_mapping-IsAtRest s h = record {
  consistent = apply-IsConsistent s Operation.begin_mapping refl h.consistent;
  settled = ground arith;
}

pub navigation_ready-IsAtRest :
    (s : RobotDto) (b : Bool) (t : String) → IsAtRest s → IsAtRest (navigation_ready s b t)
unfolding navigation_ready apply
navigation_ready-IsAtRest s b t h = record {
  consistent = apply-IsConsistent s (Operation.navigation_ready b t) refl h.consistent;
  settled = ground arith;
}

pub follow_started-IsAtRest : (s : RobotDto) (b : Bool) → IsAtRest s → IsAtRest (follow_started s b)
unfolding follow_started apply
follow_started-IsAtRest s b h = record {
  consistent = apply-IsConsistent s (Operation.follow_started b) refl h.consistent;
  settled = ground arith;
}

pub follow_stopped-IsAtRest :
    (s : RobotDto) (b : Bool) (t : String) → IsAtRest s → IsAtRest (follow_stopped s b t).0
unfolding follow_stopped apply
follow_stopped-IsAtRest s b t h = record {
  consistent = apply-IsConsistent s (Operation.follow_stopped b t) refl h.consistent;
  settled = ground arith;
}

pub task_state-IsAtRest : (s : RobotDto) (k : TaskStatus) → IsAtRest s → IsAtRest (task_state s k)
unfolding task_state apply
task_state-IsAtRest s k h = record {
  consistent = apply-IsConsistent s (Operation.task_state k) refl h.consistent;
  settled = ground arith;
}

pub localization_ready-IsAtRest :
    (s : RobotDto) (b : Bool) → IsAtRest s → IsAtRest (localization_ready s b)
unfolding localization_ready apply
localization_ready-IsAtRest s b h = record {
  consistent = apply-IsConsistent s (Operation.localization_ready b) refl h.consistent;
  settled = ground arith;
}

pub mapping-IsAtRest : (s : RobotDto) (b : Bool) → IsAtRest s → IsAtRest (mapping s b).0
unfolding mapping apply
mapping-IsAtRest s b h = record {
  consistent = apply-IsConsistent s (Operation.mapping b) refl h.consistent;
  settled = ground arith;
}

pub mapping_failed-IsAtRest :
    (s : RobotDto) (t : String) → IsAtRest s → IsAtRest (mapping_failed s t).0
unfolding mapping_failed apply
mapping_failed-IsAtRest s t h = record {
  consistent = apply-IsConsistent s (Operation.mapping_failed t) refl h.consistent;
  settled = ground arith;
}

-- `stopped` ends a stop or a follow that is starting.
pub stopped-IsAtRest :
    (s : RobotDto) (b : Bool) (t : String) (f : Bool)
    → IsConsistent s
    → (s.motion_mode ≡ MotionMode.stopping) ⊎ (s.motion_mode ≡ MotionMode.starting_follow)
    → IsAtRest (stopped s b t f)
unfolding stopped apply
stopped-IsAtRest s b t f c m = record {
  consistent = apply-IsConsistent s (Operation.stopped b t f) (ground arith) c;
  settled = ground arith;
}

-- A stop that begins leaves a consistent machine that is stopping.
pub begin_stop-stopping :
    (s : RobotDto)
    → IsConsistent s
    → (begin_stop s).1 ≡ true
    → IsConsistent (begin_stop s).0 × ((begin_stop s).0.motion_mode ≡ MotionMode.stopping)
unfolding begin_stop apply
begin_stop-stopping s c h = (apply-IsConsistent s Operation.begin_stop refl c, ground arith)

pub begin_follow-stopping :
    (s : RobotDto)
    → IsConsistent s
    → (begin_follow s).1 ≡ FollowDecision.start
    → IsConsistent (begin_follow s).0 × ((begin_follow s).0.motion_mode ≡ MotionMode.stopping)
unfolding begin_follow apply
begin_follow-stopping s c h = (apply-IsConsistent s Operation.begin_follow refl c, ground arith)

-- A follow that is not begun leaves the machine alone.
pub begin_follow_same :
    (s : RobotDto) → (begin_follow s).1 ≢ FollowDecision.start → (begin_follow s).0 ≡ s
unfolding begin_follow
begin_follow_same s h = ground arith
