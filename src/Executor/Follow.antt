-- ===== src/Executor/Follow.antt =====
-- Starting and stopping a follow, and the follow that is queued while a stop is under way
-- (src/CommandExecutor.cc). The caller holds the behaviour mutex.
use rover_ops_jm.Prelude.{
  ℕ, zero, suc, Bool, true, false, ◌||◌, not, ◌==◌, if◌then◌else◌, none, some, List, [], ◌∷◌,
}
use rover_ops_jm.Robot.State.{MotionMode, mode_eq}
use rover_ops_jm.Robot.Fsm
use rover_ops_jm.Robot.Fsm.{FollowDecision}
use rover_ops_jm.FollowBackend
use rover_ops_jm.FollowBackend.{Reply}
use rover_ops_jm.Executor.Command.{Command, command_eq}
use rover_ops_jm.Executor.State.{Executor, Message, Outcome, Probe, send, publish_fsm_state}
use rover_ops_jm.Executor.Admission.{reject}
use rover_ops_jm.Executor.Environment.{
  Cleanup, is_navigation_environment_running, handle_stop_navigation,
  invalidate_navigation_requests,
}

-- What the outside answers to one attempt: the check for an environment, its clean-up if there is
-- one, and the reply of the follow backend. `arrivals` are the follow requests of other threads that
-- find the clean-up under way, with their choice of backend: they queue without the behaviour mutex.
pub record FollowAnswers : Type 0 where
  pub arrivals : List Bool
  pub before : Probe
  pub cleanup : Cleanup
  pub reply : Reply

unfoldable pub queue_pending_follow_request : Executor → Bool → Executor
queue_pending_follow_request e start_backend = record e {
  pending_follow = some (record { start_backend = start_backend });
}

-- Follow requests that arrive while a stop or a follow has the mode Stopping queue up, the last one
-- winning.
unfoldable pub queue_arrivals : Executor → List Bool → Executor
queue_arrivals e [] = e
queue_arrivals e (start_backend ∷ rest) =
    queue_arrivals
      (publish_fsm_state (queue_pending_follow_request e start_backend) Command.start_follow
        Outcome.received "正在停止，跟随指令已排队")
      rest

unfoldable pub clear_pending_follow_request : Executor → Executor
clear_pending_follow_request e = record e { pending_follow = none }

-- One call of the backend object, which sends its response on.
unfoldable pub ask_backend : Executor → Command → Reply → Executor × Bool
unfolding FollowBackend.handle_follow_function
ask_backend e command reply =
    let (backend, ok) = FollowBackend.handle_follow_function e.follow command reply in
    (send (record e { follow = backend }) (Message.follow_reply command ok), ok)

begin_following : Executor → Bool → Executor
begin_following e start_backend =
    let following = record e { behavior = Fsm.follow_started e.behavior (not start_backend) } in
    if start_backend
    then publish_fsm_state following Command.start_follow Outcome.success "跟随已启动"
    else publish_fsm_state following Command.start_follow Outcome.placeholder
        "Follow backend is not implemented; no device command sent"

-- The clean-up of the environment before a follow, and whether none is left.
unfoldable pub clean_up : Executor → FollowAnswers → Executor × Bool
unfolding is_navigation_environment_running handle_stop_navigation invalidate_navigation_requests
    queue_arrivals
clean_up e o =
    let announced =
      queue_arrivals
        (invalidate_navigation_requests
          (publish_fsm_state e Command.start_follow Outcome.received "正在停止导航环境"))
        o.arrivals in
    let (checked, running) = is_navigation_environment_running announced o.before in
    if running then handle_stop_navigation checked o.cleanup else (checked, true)

-- From the end of the clean-up on: the backend is asked.
unfoldable pub engage : Executor → Bool → Bool → FollowAnswers → Executor
unfolding ask_backend begin_following
engage e is_stopped start_backend o =
    let settled = record e {
      behavior =
          Fsm.stopped e.behavior is_stopped (if is_stopped then "" else "Navigation cleanup failed")
            true;
    } in
    let (answered, ok) =
      if start_backend then ask_backend settled Command.start_follow o.reply else (settled, true) in
    if not is_stopped
    then publish_fsm_state settled Command.start_follow Outcome.failed
        "Navigation cleanup failed; follow not started"
    else if not ok
    then publish_fsm_state
        (record answered { behavior = Fsm.stopped answered.behavior false "跟随后端启动失败" false })
        Command.start_follow Outcome.failed "跟随后端启动失败"
    else begin_following answered start_backend

-- From the admission of the follow on.
unfoldable pub take_over : Executor → Bool → FollowAnswers → Executor
unfolding clean_up engage
take_over e start_backend o =
    let (done, is_stopped) = clean_up e o in engage done is_stopped start_backend o

-- `begin_follow` and what its decision leads to.
unfoldable pub decide_follow : Executor → Bool → FollowAnswers → Executor × Bool
unfolding reject queue_pending_follow_request
decide_follow e start_backend o =
    let (s, decision) = Fsm.begin_follow e.behavior in
    let begun = record e { behavior = s } in
    elim decision [
      | FollowDecision.rejected ↦ (reject begun Command.start_follow, false)
      | FollowDecision.already_following ↦
          (publish_fsm_state begun Command.start_follow Outcome.success "正在进行跟随", false)
      | FollowDecision.queued ↦ (
        publish_fsm_state (queue_pending_follow_request begun start_backend) Command.start_follow
            Outcome.received "正在停止，跟随指令已排队",
        false,
      )
      | FollowDecision.start ↦ (take_over begun start_backend o, true)
    ]

-- `handle_follow_command` for `start_follow` up to its calls of `process_pending_follow_request`,
-- which are its last acts; the Boolean tells whether it makes one.
unfoldable pub start_follow : Executor → Bool → FollowAnswers → Executor × Bool
unfolding decide_follow queue_pending_follow_request reject
start_follow e start_backend o =
    if e.behavior.motion_mode == MotionMode.stopping
    then (
      publish_fsm_state (queue_pending_follow_request e start_backend) Command.start_follow
          Outcome.received "正在停止，跟随指令已排队",
      true,
    )
    else if e.behavior.motion_mode == MotionMode.starting_follow
        || e.behavior.motion_mode == MotionMode.following
    then (publish_fsm_state e Command.start_follow Outcome.success "正在进行跟随", false)
    else if e.behavior.motion_mode == MotionMode.mapping
        || e.behavior.motion_mode == MotionMode.failed
    then (reject e Command.start_follow, false)
    else decide_follow e start_backend o

-- The loop of `process_pending_follow_request`. While it runs, the calls of that function inside
-- `handle_follow_command` return at once, by the flag. `answers` gives each round its own.
unfoldable pub drain_pending : ℕ → (ℕ → FollowAnswers) → Executor → Executor
drain_pending zero answers e = e
drain_pending (suc fuel) answers e = elim e.pending_follow [
  | none ↦ e
  | some request ↦
      drain_pending fuel answers
        (start_follow (record e { pending_follow = none }) request.start_backend (answers fuel)).0
]

-- Two rounds of the loop are enough: what arrives during the first finds the machine following or in a
-- fault in the second (`Executor.Queue`).
unfoldable pub process_pending_follow_request : (ℕ → FollowAnswers) → Executor → Executor
unfolding drain_pending
process_pending_follow_request answers e =
    if e.processing_pending_follow
    then e
    else if e.behavior.motion_mode == MotionMode.stopping
    then e
    else record (drain_pending 2 answers (record e { processing_pending_follow = true })) {
      processing_pending_follow = false;
    }

unfoldable pub handle_start_follow :
    Executor → Bool → FollowAnswers → (ℕ → FollowAnswers) → Executor
unfolding process_pending_follow_request
handle_start_follow e start_backend o answers =
    let (done, drains) = start_follow e start_backend o in
    if drains then process_pending_follow_request answers done else done

-- The backend is asked to stop only if it is running.
unfoldable pub stop_backend : Executor → Reply → Executor × Bool
unfolding ask_backend
stop_backend e reply =
    if e.follow.is_running then ask_backend e Command.stop_follow reply else (e, true)

-- The rest of `stop_follow`, given the executor and the result of the backend.
unfoldable pub end_follow : Executor → Bool → Executor
unfolding reject
end_follow e ok =
    let (s, stopped) = Fsm.stop_follow e.behavior in
    if not ok
    then publish_fsm_state e Command.stop_follow Outcome.failed "跟随后端停止失败"
    else if not stopped
    then reject e Command.stop_follow
    else publish_fsm_state (record e { behavior = s }) Command.stop_follow Outcome.success
        "Follow stopped"

unfoldable pub handle_stop_follow : Executor → Reply → Executor
unfolding clear_pending_follow_request stop_backend end_follow
handle_stop_follow e reply =
    let (asked, ok) = stop_backend (clear_pending_follow_request e) reply in end_follow asked ok

-- `handle_follow_stop_command`, for the commands of the follow backend: an emergency stop halts the
-- machine whatever the backend says.
unfoldable pub halt_follow : Executor → Bool → Executor
halt_follow e backend_ok =
    publish_fsm_state (record e { behavior = (Fsm.follow_stopped e.behavior false "跟随急停").0 })
      Command.estop_follow (if backend_ok then Outcome.success else Outcome.failed)
      (if backend_ok then "跟随急停" else "跟随后端急停失败")

unfoldable pub end_backend_follow : Executor → Bool → Executor
end_backend_follow e backend_ok =
    let (s, stopped) = Fsm.stop_follow e.behavior in
    if not backend_ok
    then publish_fsm_state e Command.stop_follow Outcome.failed "跟随后端停止失败"
    else if not stopped
    then publish_fsm_state e Command.stop_follow Outcome.success "Follow backend stopped"
    else publish_fsm_state (record e { behavior = s }) Command.stop_follow Outcome.success
        "Follow stopped"

unfoldable pub handle_follow_stop_command : Executor → Bool → Reply → Executor
unfolding clear_pending_follow_request ask_backend halt_follow end_backend_follow
handle_follow_stop_command e is_estop reply =
    let command = if is_estop then Command.estop_follow else Command.stop_follow in
    let (asked, backend_ok) = ask_backend (clear_pending_follow_request e) command reply in
    if is_estop then halt_follow asked backend_ok else end_backend_follow asked backend_ok
