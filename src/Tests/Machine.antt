-- ===== src/Tests/Machine.antt =====
-- The state machine of include/RobotFsm.h on concrete histories.
use rover_ops_jm.Prelude.{true, false, [], ◌∷◌, ◌≡◌, refl, arith}
use rover_ops_jm.Robot.State.{MotionMode, RobotDto}
use rover_ops_jm.Robot.Fsm.{initial, navigation_current}
use rover_ops_jm.Robot.Fsm.Step.{Operation, apply, apply_all, here, next, is_allowed}
use rover_ops_jm.Robot.Fsm.Invariant.{IsConsistent, Reach-IsConsistent}
use rover_ops_jm.Robot.Fsm.Diagram.{◌⟶◌, launch, apply-⟶, ⟶-apply}
use rover_ops_jm.Robot.Fsm.Generation.{left_navigation-stale}

abbrev started : RobotDto
started = apply initial Operation.begin_navigation

abbrev running : RobotDto
running = apply started (Operation.navigation_ready true "")

Reach-IsConsistent_example : IsConsistent running
Reach-IsConsistent_example = Reach-IsConsistent (
    next (Operation.navigation_ready true "") (next Operation.begin_navigation here refl refl) refl
      refl)

apply-⟶_example : running.motion_mode ⟶ (apply running Operation.begin_stop).motion_mode
apply-⟶_example = apply-⟶ running Operation.begin_stop refl

⟶-apply_example :
    (op : Operation) × (is_allowed initial op ≡ true)
    × ((apply initial op).motion_mode ≡ MotionMode.starting_navigation)
unfolding initial
⟶-apply_example = ⟶-apply launch initial refl (λ h. cc)

left_navigation-stale_example :
    navigation_current
      (apply_all
        (apply running Operation.begin_stop)
        (Operation.stopped true "" false ∷ Operation.begin_navigation ∷ []))
      running.generation
    ≡ false
unfolding initial apply
left_navigation-stale_example =
    left_navigation-stale running Operation.begin_stop
      (Operation.stopped true "" false ∷ Operation.begin_navigation ∷ []) (omega arith) refl
      (omega arith)
