-- ===== src/Executor/Exclusion.antt =====
-- Which commands the behaviour keeps out, and the motion commands that it never does
-- (`robot_bt` of src/CommandExecutor.cc).
use rover_ops_jm.Prelude.{
  String, Bool, true, false, ◌⊎◌, inl, inr, refl, sym, subst, if_cases, if_keeps, ◌&&◌, ◌||◌, ◌==◌,
  if◌then◌else◌, ◌≡◌, ◌≢◌, arith,
}
use rover_ops_jm.Robot.State.{MotionMode, mode_eq}
use rover_ops_jm.Executor.Command.{Command, command_eq}
use rover_ops_jm.Executor.State.{Executor, Outcome, report_command_received, publish_fsm_state}
use rover_ops_jm.Executor.Gate.{is_managed_command, try_begin_command}
use rover_ops_jm.Executor.Admission.{reject, admit_web_motion_command}
use rover_ops_jm.Executor.Navigation.{Run}
use rover_ops_jm.Executor.Request.{Request, run_handler}
use rover_ops_jm.Executor.Dispatch.{
  is_behavior_command, is_start, is_web_motion, admit_and_route, robot_bt, begin_behavior, route,
}

-- Who may move the robot: a safety stop always, anybody else in an idle machine that no transition
-- holds.
abbrev pub IsFree : Executor → Request → Type 0
IsFree e r =
    (r.is_safety_stop ≡ true) ⊎ ((r.lock_free ≡ true) × (e.behavior.motion_mode ≡ MotionMode.idle))

-- All that happens is that the command is reported as received, behind which its handler is called.
abbrev pub IsPassed : Executor → Request → Run → Type 0
IsPassed e r d = d ≡ Run.returned (report_command_received e r.command)

-- All that happens is that a rejection with a text is sent.
abbrev pub IsRejected : Executor → Request → Run → Type 0
IsRejected e r d =
    (text : String) × (d ≡ Run.returned (publish_fsm_state e r.command Outcome.rejected text))

motion_route :
    (e : Executor) (r : Request)
    → is_web_motion r.command ≡ true
    → admit_and_route e r ≡ Run.returned (report_command_received e r.command)
unfolding admit_and_route is_web_motion is_behavior_command is_managed_command try_begin_command
    begin_behavior route run_handler
motion_route e r m = ground arith

abbrev verdict : Executor → Request → Run
verdict e r =
    if r.is_safety_stop || (r.lock_free && e.behavior.motion_mode == MotionMode.idle)
    then Run.returned (report_command_received e r.command)
    else if r.lock_free
    then Run.returned (reject e r.command)
    else Run.returned (publish_fsm_state e r.command Outcome.rejected "系统正在切换行为，禁止Web运控")

robot_bt-verdict :
    (e : Executor) (r : Request) → is_web_motion r.command ≡ true → robot_bt e r ≡ verdict e r
unfolding robot_bt is_web_motion is_start admit_web_motion_command
robot_bt-verdict e r m = ground (arith, motion_route e r m)

free_cases :
    (stop lock idle : Bool)
    → (stop || (lock && idle)) ≡ true
    → (stop ≡ true) ⊎ ((lock ≡ true) × (idle ≡ true))
free_cases true lock idle h = inl refl
free_cases false lock idle h = inr (ground arith, ground arith)

idle_mode : (mode : MotionMode) → (mode == MotionMode.idle) ≡ true → mode ≡ MotionMode.idle
idle_mode mode h = ground arith

is-IsFree :
    (e : Executor) (r : Request)
    → (r.is_safety_stop || (r.lock_free && e.behavior.motion_mode == MotionMode.idle)) ≡ true
    → IsFree e r
is-IsFree e r h =
    elim (free_cases r.is_safety_stop r.lock_free (e.behavior.motion_mode == MotionMode.idle) h) [
      | inl s ↦ inl s
      | inr (l, i) ↦ inr (l, idle_mode e.behavior.motion_mode i)
    ]

is_not-IsFree :
    (e : Executor) (r : Request)
    → (r.is_safety_stop || (r.lock_free && e.behavior.motion_mode == MotionMode.idle)) ≡ false
    → ¬ IsFree e r
is_not-IsFree e r h (inl s) = ground arith
is_not-IsFree e r h (inr (l, i)) = ground arith

-- A motion command of the web is passed on when it is a safety stop, in every state, or when the
-- machine is idle and nobody holds the behaviour mutex; in all other cases it is rejected with a
-- text. In no case does it change anything but the messages sent.
pub robot_bt-motion :
    (e : Executor) (r : Request)
    → is_web_motion r.command ≡ true
    → (IsFree e r × IsPassed e r (robot_bt e r)) ⊎ ((¬ IsFree e r) × IsRejected e r (robot_bt e r))
unfolding reject
robot_bt-motion e r m =
    let P : Run → Type 0 =
      λ d. (IsFree e r × IsPassed e r d) ⊎ ((¬ IsFree e r) × IsRejected e r d) in
    subst P (sym (robot_bt-verdict e r m)) (
      if_cases P (r.is_safety_stop || (r.lock_free && e.behavior.motion_mode == MotionMode.idle))
        (λ h. inl (is-IsFree e r h, refl))
        (λ h.
          if_keeps P r.lock_free (inr (is_not-IsFree e r h, (_, refl)))
            (inr (is_not-IsFree e r h, (_, refl)))))

-- Outside Idle the commands that start navigation, start mapping or change parameters are rejected
-- with a reason, and change nothing else.
pub robot_bt-exclusive :
    (e : Executor) (r : Request)
    → is_start r.command || r.command == Command.set_param ≡ true
    → e.behavior.motion_mode ≢ MotionMode.idle
    → robot_bt e r ≡ Run.returned (reject e r.command)
unfolding robot_bt is_web_motion is_start
robot_bt-exclusive e r m n = ground arith
