-- ===== src/Executor/Busy.antt =====
-- One managed command at a time (the busy gate of src/CommandExecutor.cc).
use rover_ops_jm.Prelude.{
  Bool, not, if_keeps, if_cases, ◌&&◌, true, false, ◌==◌, if◌then◌else◌, ◌≡◌, ◌≢◌, ◌∙◌, refl, none,
  some, arith,
}
use rover_ops_jm.Robot.State.{MotionMode, mode_eq}
use rover_ops_jm.Executor.Command.{Command, command_eq}
use rover_ops_jm.Executor.State.{Executor, Message, send}
use rover_ops_jm.Executor.Gate.{
  is_managed_command, try_begin_command, fail_unfinished_start, release_gate, finish_command,
}
use rover_ops_jm.Executor.Admission.{is_admitted, admit_behavior_command}
use rover_ops_jm.Executor.Navigation.{Run}
use rover_ops_jm.Executor.Request.{Request}
use rover_ops_jm.Executor.Dispatch.{
  is_behavior_command, is_start, is_web_motion, admit_and_route, robot_bt,
}

pub managed_behavior : (c : Command) → is_managed_command c ≡ true → is_behavior_command c ≡ true
unfolding is_behavior_command is_managed_command
managed_behavior c h = ground arith

pub managed_route :
    (e : Executor) (r : Request)
    → is_managed_command r.command ≡ true
    → r.command ≢ Command.stop_navigation
    → is_admitted e.behavior r.command ≡ true
    → robot_bt e r ≡ admit_and_route e r
unfolding robot_bt is_managed_command is_start is_web_motion is_admitted
managed_route e r m n a = ground arith

pub admitted_keeps :
    (e : Executor) (c : Command)
    → is_admitted e.behavior c ≡ true
    → admit_behavior_command e c ≡ (e, true)
unfolding admit_behavior_command
admitted_keeps e c a = rw a refl

taken :
    (e : Executor) (c a : Command)
    → is_managed_command c ≡ true
    → e.active_command ≡ some a
    → try_begin_command e c ≡ (send e (Message.busy c a), false)
unfolding try_begin_command
taken e c a m h = ground arith

-- While a managed command is active, another managed command that the behaviour admits, except the
-- stop of navigation, is told off with the name of the active one, and nothing else changes.
pub busy-robot_bt :
    (e : Executor) (r : Request) (active : Command)
    → e.active_command ≡ some active
    → is_managed_command r.command ≡ true
    → r.command ≢ Command.stop_navigation
    → is_admitted e.behavior r.command ≡ true
    → robot_bt e r ≡ Run.returned (send e (Message.busy r.command active))
unfolding admit_and_route
busy-robot_bt e r active h m n a =
    managed_route e r m n a
    ∙ rw (managed_behavior r.command m, admitted_keeps e r.command a, taken e r.command active m h)
        refl

fail_unfinished_start-active :
    (e : Executor) (d : Command) → (fail_unfinished_start e d).active_command ≡ e.active_command
unfolding fail_unfinished_start
fail_unfinished_start-active e d =
    if_keeps (λ (r : Executor). r.active_command ≡ e.active_command)
      (d == Command.start_navigation && e.behavior.motion_mode == MotionMode.starting_navigation)
      refl refl

release_gate-active :
    (e : Executor) (c d : Command)
    → e.active_command ≡ some c
    → (release_gate e d).active_command ≡ (if c == d then none else some c)
unfolding release_gate
release_gate-active e c d h = ground arith

begun-active :
    (e : Executor) (c : Command)
    → e.active_command ≡ none
    → is_managed_command c ≡ true
    → (try_begin_command e c).0.active_command ≡ some c
unfolding try_begin_command
begun-active e c h m = ground arith

-- A managed command that begins at a free gate holds it until that same command ends: the end of
-- another one leaves it as it is.
pub begin-finish :
    (e : Executor) (c d : Command)
    → e.active_command ≡ none
    → is_managed_command c ≡ true
    → is_managed_command d ≡ true
    → (finish_command (try_begin_command e c).0 d).active_command
      ≡ (if c == d then none else some c)
unfolding finish_command
begin-finish e c d h m n =
    let begun = (try_begin_command e c).0 in
    if_cases (λ (r : Executor). r.active_command ≡ (if c == d then none else some c))
      (not (is_managed_command d)) (λ k. absurd (clash n k))
      (λ k. release_gate-active _ c d (fail_unfinished_start-active begun d ∙ begun-active e c h m))
  where
    clash : {b : Bool} → b ≡ true → ¬ (not b ≡ true)
    clash t f = ground arith
