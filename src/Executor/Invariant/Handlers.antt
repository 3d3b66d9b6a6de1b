-- ===== src/Executor/Invariant/Handlers.antt =====
-- The busy gate, the services and the pause and resume requests keep the rules.
use rover_ops_jm.Prelude.{
  ℕ, ◌<◌, ◌≤◌, Bool, true, false, ◌&&◌, ◌||◌, not, ◌==◌, ◌≡◌, refl, List, [], ◌∷◌, Option,
  Option-cases, inl, inr, if_keeps, if_cases, arith,
}
use rover_ops_jm.Robot.State.{RobotDto, TaskStatus, mode_eq}
use rover_ops_jm.Robot.Fsm
use rover_ops_jm.Robot.Fsm.Rest.{IsAtRest, navigation_ready-IsAtRest, task_state-IsAtRest}
use rover_ops_jm.Executor.Command.{Command, command_eq}
use rover_ops_jm.Executor.State.{Executor, TaskStateRequest, FollowRequest}
use rover_ops_jm.Executor.Rules.{Rules, IsSettled, IsServed, settled}
use rover_ops_jm.Executor.Gate.{
  finish_command, try_begin_command, fail_unfinished_start, release_gate,
}
use rover_ops_jm.Executor.Service.{
  process_requests, process_next_task_state_request, enqueue_task_state_request, settle_task_state,
  complete_task_state_transition, handle_task_state_request, run_service, service_result,
  service_status,
}

module _ {b : RobotDto} {f : Option FollowRequest} {p w t : Bool} {q : List TaskStateRequest}
    {n r : ℕ} where
  pub with_behavior : (s : RobotDto) → Rules b f p w t q n r → IsAtRest s → Rules s f p w t q n r
  with_behavior s v rest = record {
    at_rest = rest;
    no_follow = v.no_follow;
    not_processing = v.not_processing;
    served = v.served;
    progress = v.progress;
  }

  with_queue :
      (w' t' : Bool) (q' : List TaskStateRequest)
      → Rules b f p w t q n r
      → IsServed w' t' q'
      → Rules b f p w' t' q' n r
  with_queue w' t' q' v served = record {
    at_rest = v.at_rest;
    no_follow = v.no_follow;
    not_processing = v.not_processing;
    served = served;
    progress = v.progress;
  }

  pub with_points :
      (n' r' : ℕ) → Rules b f p w t q n r → (0 < n' → r' ≤ n') → Rules b f p w t q n' r'
  with_points n' r' v progress = record {
    at_rest = v.at_rest;
    no_follow = v.no_follow;
    not_processing = v.not_processing;
    served = v.served;
    progress = progress;
  }

-- While the worker runs there is nothing to check.
IsServed-running : (w t : Bool) (q : List TaskStateRequest) → w ≡ true → IsServed w t q
IsServed-running w t q e = record { no_requests = λ h. cc; no_transition = λ h. cc }

fail_unfinished_start-IsSettled :
    (e : Executor) (c : Command) → IsSettled e → IsSettled (fail_unfinished_start e c)
unfolding fail_unfinished_start
fail_unfinished_start-IsSettled e c v =
    if_keeps IsSettled _
      (settled (
        with_behavior _ v.rules
          (navigation_ready-IsAtRest e.behavior false "Navigation startup failed" v.rules.at_rest)))
      v

release_gate-IsSettled : (e : Executor) (c : Command) → IsSettled e → IsSettled (release_gate e c)
unfolding release_gate
release_gate-IsSettled e c v = elim (Option-cases e.active_command) [
  | inl h ↦ rw (h, release_gate) (settled v.rules)
  | inr (a, h) ↦ rw (h, release_gate) (if_keeps IsSettled _ (settled v.rules) (settled v.rules))
]

pub finish_command-IsSettled :
    (e : Executor) (c : Command) → IsSettled e → IsSettled (finish_command e c)
unfolding finish_command
finish_command-IsSettled e c v =
    if_keeps IsSettled _ v (release_gate-IsSettled _ c (fail_unfinished_start-IsSettled e c v))

pub try_begin_command-IsSettled :
    (e : Executor) (c : Command) → IsSettled e → IsSettled (try_begin_command e c).0
unfolding try_begin_command
try_begin_command-IsSettled e c v = elim (Option-cases e.active_command) [
  | inl h ↦
      rw (h, try_begin_command)
        (if_keeps {A = Executor × Bool} (λ r. IsSettled r.0) _ (settled v.rules) (settled v.rules))
  | inr (a, h) ↦
      rw (h, try_begin_command)
        (if_keeps {A = Executor × Bool} (λ r. IsSettled r.0) _ (settled v.rules) (settled v.rules))
]

-- The loop over the queue: it is left empty with the worker gone, or with a transition under way.
process_requests-IsSettled :
    (rs : List TaskStateRequest) (e : Executor)
    → e.worker_running ≡ true
    → e.transition_active ≡ false
    → IsSettled e
    → IsSettled (process_requests rs e)
unfolding process_requests
process_requests-IsSettled [] e w t v = settled (
    with_queue false e.transition_active [] v.rules
      (record { no_requests = λ h. refl; no_transition = λ h. t }))
process_requests-IsSettled (r ∷ rs) e w t v =
    if_keeps IsSettled _
      (settled (with_queue e.worker_running true rs v.rules (IsServed-running _ _ _ w)))
      (process_requests-IsSettled rs _ w t (settled v.rules))

pub process_next-IsSettled :
    (e : Executor)
    → e.worker_running ≡ true
    → IsSettled e
    → IsSettled (process_next_task_state_request e)
unfolding process_next_task_state_request
process_next-IsSettled e w v =
    if_cases IsSettled e.transition_active (λ t. v)
      (λ t. process_requests-IsSettled e.requests e w t v)

enqueue-IsSettled :
    (e : Executor) (r : TaskStateRequest) → IsSettled e → IsSettled (enqueue_task_state_request e r)
unfolding enqueue_task_state_request
enqueue-IsSettled e r v =
    if_cases IsSettled e.worker_running
      (λ w.
        settled
          (with_queue e.worker_running e.transition_active _ v.rules (IsServed-running _ _ _ w)))
      (λ w.
        process_next-IsSettled _ refl
          (settled (with_queue true e.transition_active _ v.rules (IsServed-running _ _ _ refl))))

pub handle_task_state_request-IsSettled :
    (e : Executor) (c : Command) → IsSettled e → IsSettled (handle_task_state_request e c)
unfolding handle_task_state_request
handle_task_state_request-IsSettled e c v = enqueue-IsSettled _ _ (settled v.rules)

-- A transition is under way only while the worker runs.
settle_task_state-IsSettled :
    (e : Executor) (success : Bool)
    → e.worker_running ≡ true
    → IsSettled e
    → IsSettled (settle_task_state e success)
      × ((settle_task_state e success).worker_running ≡ true)
unfolding settle_task_state finish_command
settle_task_state-IsSettled e true w v = (
  settled (
      with_behavior _
        (with_queue e.worker_running false e.requests v.rules (IsServed-running _ _ _ w))
        (task_state-IsAtRest e.behavior _ v.rules.at_rest)),
  w,
)
settle_task_state-IsSettled e false w v =
    (settled (with_queue e.worker_running false e.requests v.rules (IsServed-running _ _ _ w)), w)

complete_task_state_transition-IsSettled :
    (e : Executor) (success : Bool)
    → IsSettled e
    → IsSettled (complete_task_state_transition e success)
unfolding complete_task_state_transition
complete_task_state_transition-IsSettled e success v = if_keeps IsSettled _ v (
    if_cases IsSettled (not e.transition_active) (λ h. v)
      (λ h.
        let (rules, running) =
          settle_task_state-IsSettled e success (ground (arith, v.rules.served)) v in
        process_next-IsSettled _ running rules))

service_result-IsSettled :
    (e : Executor) (c : Command) (success : Bool)
    → IsSettled e
    → IsSettled (service_result e c success)
unfolding service_result
service_result-IsSettled e c success v =
    if_keeps IsSettled (not success) (settled v.rules)
      (if_keeps IsSettled (c == Command.start_task && not e.worker_running) (settled v.rules) v)

status-IsSettled :
    (e : Executor) (t : TaskStatus)
    → IsSettled e
    → IsSettled (record e { behavior = Fsm.task_state e.behavior t })
status-IsSettled e t v =
    settled (with_behavior _ v.rules (task_state-IsAtRest e.behavior t v.rules.at_rest))

service_status-IsSettled :
    (e : Executor) (c : Command) (success : Bool)
    → IsSettled e
    → IsSettled (service_status e c success)
unfolding service_status
service_status-IsSettled e c success v =
    if_keeps IsSettled (success && (c == Command.start_task || c == Command.start_recharge))
      (status-IsSettled e TaskStatus.running v)
      (if_keeps IsSettled (success && (c == Command.cancel_task || c == Command.stop_recharge))
        (status-IsSettled e TaskStatus.cancelled v) v)

pub run_service-IsSettled :
    (e : Executor) (c : Command) (generation : ℕ) (success : Bool)
    → IsSettled e
    → IsSettled (run_service e c generation success)
unfolding run_service
run_service-IsSettled e c generation success v =
    if_keeps IsSettled (not (Fsm.navigation_current e.behavior generation)) v (
      if_keeps IsSettled (c == Command.pause_or_resume_task)
        (complete_task_state_transition-IsSettled e success v)
        (settled
          (service_status-IsSettled _ c success
            (finish_command-IsSettled _ c (service_result-IsSettled e c success v))).rules))
