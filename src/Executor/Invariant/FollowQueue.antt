-- ===== src/Executor/Invariant/FollowQueue.antt =====
-- The queued follow and the stops of a follow keep the rules.
use rover_ops_jm.Prelude.{
  ℕ, zero, suc, Bool, true, false, not, ◌==◌, ◌≡◌, refl, Option, none, some, inl, inr,
  if◌then◌else◌, option_keeps, if_keeps, if_cases, arith,
}
use rover_ops_jm.Robot.State.{MotionMode, RobotDto, mode_eq}
use rover_ops_jm.Robot.Fsm
use rover_ops_jm.Robot.Fsm.{FollowDecision}
use rover_ops_jm.Robot.Fsm.Rest.{IsAtRest, stop_follow-IsAtRest, follow_stopped-IsAtRest}
use rover_ops_jm.FollowBackend.{Reply}
use rover_ops_jm.Executor.Command.{Command}
use rover_ops_jm.Executor.State.{Executor, FollowRequest}
use rover_ops_jm.Executor.Follow.{
  FollowAnswers, clear_pending_follow_request, start_follow, drain_pending, stop_backend,
  end_follow, halt_follow, end_backend_follow, process_pending_follow_request, handle_start_follow,
  handle_stop_follow, handle_follow_stop_command,
}
use rover_ops_jm.Executor.Rules.{IsSettled}
use rover_ops_jm.Executor.Invariant.Kept.{
  IsKept, kept, with_stance, IsResting, IsQuiet, quiet-IsSettled, settled-IsQuiet,
}
use rover_ops_jm.Executor.Invariant.Environment.{ask_backend-IsKept}
use rover_ops_jm.Executor.Invariant.Follow.{is_shut, IsEngaged, start_follow-IsDone}
use rover_ops_jm.Executor.Invariant.Shut.{shut_follow-IsQuiet}

module _ (p : Bool) where
  some-none : {o : Option FollowRequest} {r : FollowRequest} → o ≡ some r → ¬ (o ≡ none)
  some-none h n = cc

  drain-IsQuiet :
      (n : ℕ) (answers : ℕ → FollowAnswers) (e : Executor)
      → IsKept (IsQuiet p) e
      → IsKept (IsQuiet p) (drain_pending n answers e)
  unfolding drain_pending
  drain-IsQuiet zero answers e v = v
  drain-IsQuiet (suc n) answers e v =
      option_keeps (IsKept (IsQuiet p)) e.pending_follow (λ h. v)
        (λ r h. absurd (some-none h v.parts.stance.no_follow))

  emptied : (e : Executor) → IsKept (IsResting p) e → e.pending_follow ≡ none → IsKept (IsQuiet p) e
  emptied e v h =
      let t = v.parts.stance in
      kept
        (with_stance _ _ _ v.parts (record { at_rest = t.at_rest; no_follow = h; flag = t.flag }))

  cut :
      (e : Executor)
      → IsKept (IsResting p) e
      → IsKept (IsQuiet p) (record e { pending_follow = none })
  cut e v =
      let t = v.parts.stance in
      kept {e = record e { pending_follow = none }} (
        with_stance _ _ _ v.parts (record { at_rest = t.at_rest; no_follow = refl; flag = t.flag }))

  pub engaged-IsResting : (e : Executor) → IsKept (IsEngaged p) e → IsKept (IsResting p) e
  engaged-IsResting e v =
      let t = v.parts.stance in
      kept (with_stance _ _ _ v.parts (record { at_rest = t.at_rest; flag = t.flag }))

  pub shut :
      (e : Executor) (r : FollowRequest)
      → IsKept (IsEngaged p) e
      → e.pending_follow ≡ some r
      → is_shut e.behavior.motion_mode ≡ true
  shut e r v h = elim v.parts.stance.empty_or_shut [ inl n ↦ absurd (some-none h n) | inr s ↦ s ]

  -- One round serves what came during a follow: it is answered at once.
  drain_engaged-IsQuiet :
      (n : ℕ) (answers : ℕ → FollowAnswers) (e : Executor)
      → IsKept (IsEngaged p) e
      → IsKept (IsQuiet p) (drain_pending (suc n) answers e)
  unfolding drain_pending
  drain_engaged-IsQuiet n answers e v =
      let resting = engaged-IsResting e v in
      option_keeps (IsKept (IsQuiet p)) e.pending_follow (λ h. emptied e resting h)
        (λ r h.
          drain-IsQuiet n answers _
            (shut_follow-IsQuiet p _ r.start_backend (answers n) (shut e r v h) (cut e resting)))

  -- Two rounds are enough.
  pub drain_pending-IsQuiet :
      (n : ℕ) (answers : ℕ → FollowAnswers) (e : Executor)
      → IsKept (IsResting p) e
      → IsKept (IsQuiet p) (drain_pending (suc (suc n)) answers e)
  unfolding drain_pending
  drain_pending-IsQuiet n answers e v =
      option_keeps (IsKept (IsQuiet p)) e.pending_follow (λ h. emptied e v h)
        (λ r h.
          drain_engaged-IsQuiet n answers _
            (start_follow-IsDone p _ r.start_backend (answers (suc n)) (cut e v)).engaged)

pub process_pending-IsQuiet :
    (answers : ℕ → FollowAnswers) (e : Executor)
    → IsKept (IsResting false) e
    → IsKept (IsQuiet false) (process_pending_follow_request answers e)
unfolding process_pending_follow_request
process_pending-IsQuiet answers e v =
    let t = v.parts.stance in
    if_cases (IsKept (IsQuiet false)) e.processing_pending_follow (λ h. cc)
      (λ h.
        if_cases (IsKept (IsQuiet false)) (e.behavior.motion_mode == MotionMode.stopping)
          (λ g. absurd (t.at_rest.settled (ground arith)))
          (λ g.
            let drained =
              drain_pending-IsQuiet true 0 answers (record e { processing_pending_follow = true })
                (kept (with_stance _ _ _ v.parts (record { at_rest = t.at_rest; flag = refl }))) in
            kept (
              with_stance _ _ _ drained.parts (record {
                at_rest = drained.parts.stance.at_rest;
                no_follow = drained.parts.stance.no_follow;
                flag = refl;
              }))))

pub handle_start_follow-IsSettled :
    (e : Executor) (b : Bool) (o : FollowAnswers) (answers : ℕ → FollowAnswers)
    → IsSettled e
    → IsSettled (handle_start_follow e b o answers)
unfolding handle_start_follow
handle_start_follow-IsSettled e b o answers v =
    let done = start_follow-IsDone false e b o (settled-IsQuiet e v) in
    quiet-IsSettled _ (
      if_cases (IsKept (IsQuiet false)) (start_follow e b o).1
        (λ h. process_pending-IsQuiet answers _ (engaged-IsResting false _ done.engaged))
        (λ h. done.unlooked h))

module _ (p : Bool) where
  moved-IsQuiet :
      (e : Executor) (s : RobotDto)
      → IsAtRest s
      → IsKept (IsQuiet p) e
      → IsKept (IsQuiet p) (record e { behavior = s })
  moved-IsQuiet e s rest v =
      let t = v.parts.stance in
      kept (
        with_stance _ _ _ v.parts
          (record { at_rest = rest; no_follow = t.no_follow; flag = t.flag }))

  cleared-IsQuiet :
      (e : Executor) → IsKept (IsQuiet p) e → IsKept (IsQuiet p) (clear_pending_follow_request e)
  unfolding clear_pending_follow_request
  cleared-IsQuiet e v =
      let t = v.parts.stance in
      kept (
        with_stance _ _ _ v.parts (record { at_rest = t.at_rest; no_follow = refl; flag = t.flag }))

  end_follow-IsQuiet :
      (e : Executor) (ok : Bool) → IsKept (IsQuiet p) e → IsKept (IsQuiet p) (end_follow e ok)
  unfolding end_follow
  end_follow-IsQuiet e ok v =
      let done = moved-IsQuiet e _ (stop_follow-IsAtRest e.behavior v.parts.stance.at_rest) v in
      if_keeps (IsKept (IsQuiet p)) (not ok) (kept v.parts) (
        if_keeps (IsKept (IsQuiet p)) (not (Fsm.stop_follow e.behavior).1) (kept v.parts)
          (kept done.parts))

  handle_stop_follow-IsQuiet :
      (e : Executor) (reply : Reply)
      → IsKept (IsQuiet p) e
      → IsKept (IsQuiet p) (handle_stop_follow e reply)
  unfolding handle_stop_follow stop_backend
  handle_stop_follow-IsQuiet e reply v =
      let cleared = cleared-IsQuiet e v in
      end_follow-IsQuiet _ (stop_backend (clear_pending_follow_request e) reply).1 (
        if_keeps {A = Executor × Bool} (λ r. IsKept (IsQuiet p) r.0) e.follow.is_running
          (ask_backend-IsKept (IsQuiet p) (clear_pending_follow_request e) Command.stop_follow reply
            cleared)
          cleared)

  end_backend_follow-IsQuiet :
      (e : Executor) (ok : Bool)
      → IsKept (IsQuiet p) e
      → IsKept (IsQuiet p) (end_backend_follow e ok)
  unfolding end_backend_follow
  end_backend_follow-IsQuiet e ok v =
      let done = moved-IsQuiet e _ (stop_follow-IsAtRest e.behavior v.parts.stance.at_rest) v in
      if_keeps (IsKept (IsQuiet p)) (not ok) (kept v.parts) (
        if_keeps (IsKept (IsQuiet p)) (not (Fsm.stop_follow e.behavior).1) (kept v.parts)
          (kept done.parts))

  handle_follow_stop_command-IsQuiet :
      (e : Executor) (is_estop : Bool) (reply : Reply)
      → IsKept (IsQuiet p) e
      → IsKept (IsQuiet p) (handle_follow_stop_command e is_estop reply)
  unfolding handle_follow_stop_command halt_follow
  handle_follow_stop_command-IsQuiet e is_estop reply v =
      let command = if is_estop then Command.estop_follow else Command.stop_follow in
      let asked =
        ask_backend-IsKept (IsQuiet p) (clear_pending_follow_request e) command reply
          (cleared-IsQuiet e v) in
      let halted =
        moved-IsQuiet _ _ (follow_stopped-IsAtRest _ false "跟随急停" asked.parts.stance.at_rest)
          asked in
      if_keeps (IsKept (IsQuiet p)) is_estop (kept halted.parts)
        (end_backend_follow-IsQuiet _ _ asked)

pub stop_follow-IsSettled :
    (e : Executor) (reply : Reply) → IsSettled e → IsSettled (handle_stop_follow e reply)
stop_follow-IsSettled e reply v =
    quiet-IsSettled _ (handle_stop_follow-IsQuiet false e reply (settled-IsQuiet e v))

pub follow_stop_command-IsSettled :
    (e : Executor) (is_estop : Bool) (reply : Reply)
    → IsSettled e
    → IsSettled (handle_follow_stop_command e is_estop reply)
follow_stop_command-IsSettled e is_estop reply v =
    quiet-IsSettled _
      (handle_follow_stop_command-IsQuiet false e is_estop reply (settled-IsQuiet e v))
