-- ===== src/Executor/Attempts.antt =====
-- An attempt that waits for the robot has a number; what ends an older one is ignored
-- (the `complete_` functions of src/CommandExecutor.cc).
use rover_ops_jm.Prelude.{
  ℕ, ◌+◌, ◌%◌, ◌^◌, String, Bool, true, false, ◌==◌, nat_eq, List, [], ◌∷◌, ◌≡◌, refl, ap, ◌∙◌,
  arith,
}
use rover_ops_jm.Executor.State.{Executor}
use rover_ops_jm.Executor.Environment.{invalidate_navigation_requests}
use rover_ops_jm.Executor.Navigation.{
  Run, complete_navigation_env_ready, complete_initial_pose_result, complete_navigation_task_result,
  complete_clear_waypoints_result, handle_initial_pose,
}

-- What a handler leaves, whether it returns or throws.
abbrev pub state_of : Run → Executor
state_of r = elim r [ Run.returned e ↦ e | Run.threw e ↦ e ]

-- The four kinds of attempts.
pub data Attempted : Type 0 where
  environment pose points clearing : Attempted

-- What ends an attempt of a number, with its success and a text.
pub record End : Type 0 where
  pub kind : Attempted
  pub attempt : ℕ
  pub success : Bool
  pub text : String

unfoldable pub complete : Attempted → Executor → ℕ → Bool → String → Executor
complete Attempted.environment e attempt success text =
    complete_navigation_env_ready e attempt success text
complete Attempted.pose e attempt success text = complete_initial_pose_result e attempt success text
complete Attempted.points e attempt success text =
    complete_navigation_task_result e attempt success text
complete Attempted.clearing e attempt success text =
    complete_clear_waypoints_result e attempt success text

unfoldable pub complete_all : Executor → List End → Executor
complete_all e [] = e
complete_all e (a ∷ ends) = complete_all (complete a.kind e a.attempt a.success a.text) ends

complete-void :
    (e : Executor) (kind : Attempted) (attempt : ℕ) (success : Bool) (text : String)
    → complete kind (invalidate_navigation_requests e) attempt success text
      ≡ invalidate_navigation_requests e
unfolding complete invalidate_navigation_requests complete_navigation_env_ready
    complete_initial_pose_result complete_navigation_task_result complete_clear_waypoints_result
complete-void e Attempted.environment attempt success text = refl
complete-void e Attempted.pose attempt success text = ground arith
complete-void e Attempted.points attempt success text = ground arith
complete-void e Attempted.clearing attempt success text = ground arith

-- Once the requests are invalidated, as a stop or a follow does, the ends that come directly behind
-- have no effect, however many, of whatever attempts and with whatever results.
pub invalidate-void :
    (e : Executor) (ends : List End)
    → complete_all (invalidate_navigation_requests e) ends ≡ invalidate_navigation_requests e
unfolding complete_all
invalidate-void e [] = refl
invalidate-void e (a ∷ ends) =
    ap (λ d. complete_all d ends) (complete-void e a.kind a.attempt a.success a.text)
    ∙ invalidate-void e ends

next_differs : (n : ℕ) → ((n + 1) % 2 ^ 64 == n) ≡ false
next_differs n = ground arith

-- A second pose supersedes the first: an end that carries the number of the first one, as its timeout
-- does, leaves the second one as it is. A word of the robot carries the number of the present one.
pub superseded-pose :
    (e : Executor) (valid success : Bool) (text : String)
    → (let first = state_of (handle_initial_pose e true) in
        let second = state_of (handle_initial_pose first valid) in
        complete_initial_pose_result second first.initial_pose.id success text ≡ second)
unfolding handle_initial_pose complete_initial_pose_result
superseded-pose e valid success text =
    ground (arith, next_differs ((e.initial_pose.id + 1) % 2 ^ 64))
