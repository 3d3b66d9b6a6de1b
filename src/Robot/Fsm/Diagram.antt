-- ===== src/Robot/Fsm/Diagram.antt =====
-- The mode diagram that the calls of include/RobotFsm.h draw, and the way back to Idle.
use rover_ops_jm.Prelude.{Bool, true, false, ◌||◌, ◌==◌, ◌≡◌, ◌≢◌, refl, arith}
use rover_ops_jm.Robot.State.{HealthStatus, MotionMode, TaskStatus, RobotDto, mode_eq}
use rover_ops_jm.Robot.Fsm.{is_navigation}
use rover_ops_jm.Robot.Fsm.Step.{Operation, apply, is_allowed}

-- The modes that a stop or a follow may leave for `stopping`.
abbrev pub can_stop : MotionMode → Bool
can_stop mode = mode == MotionMode.idle || is_navigation mode || mode == MotionMode.failed

abbrev pub is_mapping : MotionMode → Bool
is_mapping mode = mode == MotionMode.mapping || mode == MotionMode.mapping_processing

abbrev pub is_follow : MotionMode → Bool
is_follow mode = mode == MotionMode.starting_follow || mode == MotionMode.following

infix 40 ◌⟶◌
pub data ◌⟶◌ : MotionMode → MotionMode → Type 0 where
  stay : {m : MotionMode} → m ⟶ m
  launch : MotionMode.idle ⟶ MotionMode.starting_navigation
  come_up : MotionMode.starting_navigation ⟶ MotionMode.navigation_ready
  break_down : MotionMode.starting_navigation ⟶ MotionMode.failed
  abort : MotionMode.starting_navigation ⟶ MotionMode.idle
  work : {m : MotionMode} → is_navigation m ≡ true → m ⟶ MotionMode.navigating
  rest : {m : MotionMode} → is_navigation m ≡ true → m ⟶ MotionMode.navigation_ready
  stop : {m : MotionMode} → can_stop m ≡ true → m ⟶ MotionMode.stopping
  stopped : MotionMode.stopping ⟶ MotionMode.idle
  stop_failed : MotionMode.stopping ⟶ MotionMode.failed
  preempted : MotionMode.stopping ⟶ MotionMode.starting_follow
  followed : MotionMode.starting_follow ⟶ MotionMode.following
  end_follow : {m : MotionMode} → is_follow m ≡ true → m ⟶ MotionMode.idle
  fail_follow : {m : MotionMode} → is_follow m ≡ true → m ⟶ MotionMode.failed
  collect : MotionMode.idle ⟶ MotionMode.mapping
  collect_again : MotionMode.mapping_processing ⟶ MotionMode.mapping
  process : MotionMode.mapping ⟶ MotionMode.mapping_processing
  end_mapping : {m : MotionMode} → is_mapping m ≡ true → m ⟶ MotionMode.idle
  fail_mapping : {m : MotionMode} → is_mapping m ≡ true → m ⟶ MotionMode.failed

ruleset edges = (
  stay, launch, come_up, break_down, abort, work, rest, stop, stopped, stop_failed, preempted,
  followed, end_follow, fail_follow, collect, collect_again, process, end_mapping, fail_mapping,
)

-- Every call either leaves the mode alone or follows an edge of the diagram, `stopped` being called
-- inside a stop or a follow that is starting.
pub apply-⟶ :
    (s : RobotDto) (op : Operation)
    → is_allowed s op ≡ true
    → s.motion_mode ⟶ (apply s op).motion_mode
unfolding apply is_navigation
apply-⟶ s Operation.begin_navigation h = grind (arith, edges)
apply-⟶ s op h = grind (arith, edges)

-- The diagram has no edge too many: in every state of a robot not known to be unhealthy, each edge
-- out of its mode is taken by some call that is allowed there.
pub ⟶-apply :
    {m n : MotionMode}
    → m ⟶ n
    → (s : RobotDto) → s.motion_mode ≡ m
    → s.health ≢ HealthStatus.un_healthy
    → (op : Operation) × (is_allowed s op ≡ true) × ((apply s op).motion_mode ≡ n)
unfolding apply is_navigation
⟶-apply stay s e h = (Operation.localization_ready true, refl, ground arith)
⟶-apply launch s e h = (Operation.begin_navigation, refl, ground arith)
⟶-apply come_up s e h = (Operation.navigation_ready true "", refl, ground arith)
⟶-apply break_down s e h = (Operation.navigation_ready false "", refl, ground arith)
⟶-apply abort s e h = (Operation.navigation_start_aborted, refl, ground arith)
⟶-apply (work k) s e h = (Operation.task_state TaskStatus.running, refl, ground arith)
⟶-apply (rest k) s e h = (Operation.task_state TaskStatus.cancelled, refl, ground arith)
⟶-apply (stop k) s e h = (Operation.begin_stop, refl, ground arith)
⟶-apply stopped s e h = (Operation.stopped true "" false, ground arith, ground arith)
⟶-apply stop_failed s e h = (Operation.stopped false "" false, ground arith, ground arith)
⟶-apply preempted s e h = (Operation.stopped true "" true, ground arith, ground arith)
⟶-apply followed s e h = (Operation.follow_started true, refl, ground arith)
⟶-apply (end_follow k) s e h = (Operation.stop_follow, refl, ground arith)
⟶-apply (fail_follow k) s e h = (Operation.follow_stopped false "", refl, ground arith)
⟶-apply collect s e h = (Operation.begin_mapping, refl, ground arith)
⟶-apply collect_again s e h = (Operation.mapping true, refl, ground arith)
⟶-apply process s e h = (Operation.mapping_processing, refl, ground arith)
⟶-apply (end_mapping k) s e h = (Operation.mapping false, refl, ground arith)
⟶-apply (fail_mapping k) s e h = (Operation.mapping_failed "", refl, ground arith)
