-- ===== src/Executor/Mapping.antt =====
-- Mapping: the collection process (src/mapping/maphandle.cc) and the handlers of
-- src/CommandExecutor.cc around it. A process id of -1 is 0.
use rover_ops_jm.Prelude.{
  ℕ, ◌+◌, ◌%◌, ◌^◌, String, Bool, true, false, ◌||◌, not, ◌==◌, nat_eq, ltb, if◌then◌else◌,
}
use rover_ops_jm.Robot.State.{MotionMode, mode_eq}
use rover_ops_jm.Robot.Fsm
use rover_ops_jm.Executor.Command.{Command}
use rover_ops_jm.Executor.State.{
  Executor, Message, Outcome, Worker, send, launch, publish_fsm_state, report_command_received,
}
use rover_ops_jm.Executor.Gate.{finish_command}
use rover_ops_jm.Executor.Navigation.{Run}

-- What the operating system answers to `start_mapping`; `pid` is 0 if the fork fails.
pub record MappingStart : Type 0 where
  pub files_removed : Bool
  pub script_found : Bool
  pub pid : ℕ

abbrev pub is_running : Executor → Bool
is_running e = ltb 0 e.mapping_process

-- `MappingHandle::handle_start_mapping`
unfoldable pub start_collection : Executor → MappingStart → Run
start_collection e m =
    if not m.files_removed
    then Run.threw e
    else if is_running e
    then Run.returned (send e (Message.mapping_reply Command.start_mapping false "already running"))
    else if not m.script_found
    then Run.returned (send e (Message.mapping_reply Command.start_mapping false "no script"))
    else if m.pid == 0
    then Run.returned (send e (Message.mapping_reply Command.start_mapping false "no process"))
    else Run.returned (
        send (record e { mapping_process = m.pid })
          (Message.mapping_reply Command.start_mapping true ""))

-- `CommandExecutor::handle_start_mapping`
unfoldable pub handle_start_mapping : Executor → MappingStart → Executor
unfolding start_collection
handle_start_mapping e m = elim (start_collection e m) [
  | Run.returned done ↦ done
  | Run.threw done ↦
      send
        (publish_fsm_state
          (record done { behavior = (Fsm.mapping done.behavior (is_running done)).0 })
          Command.start_mapping Outcome.failed "exception")
        (Message.mapping_reply Command.start_mapping false "exception")
]

unfoldable pub handle_start_mapping_command : Executor → MappingStart → Executor
unfolding handle_start_mapping
handle_start_mapping_command e m =
    let done = handle_start_mapping (report_command_received e Command.start_mapping) m in
    finish_command (record done { behavior = (Fsm.mapping done.behavior (is_running done)).0 })
      Command.start_mapping

-- `start_mapping_processing_timeout`: a new attempt, and a worker that watches it.
unfoldable pub start_mapping_processing_timeout : Executor → Executor
start_mapping_processing_timeout e =
    let next = (e.mapping_attempt + 1) % 2 ^ 64 in
    launch (record e { mapping_attempt = next }) (Worker.mapping_processing_timeout next)

-- The callback by which the mapping handler reports its result.
unfoldable pub mapping_result : Executor → Bool → String → Executor
unfolding start_mapping_processing_timeout
mapping_result e success reason =
    let (s, entered) = Fsm.mapping_processing e.behavior in
    let processing = record e { behavior = s } in
    let failed = record e { behavior = (Fsm.mapping_failed e.behavior reason).0 } in
    if success
    then publish_fsm_state
        (if entered then start_mapping_processing_timeout processing else processing)
        Command.stop_and_uploadmap Outcome.success ""
    else send (publish_fsm_state failed Command.stop_and_uploadmap Outcome.failed reason)
        (Message.mapping_reply Command.stop_and_uploadmap false reason)

-- What happens to the collection process and its result: whether the process exits after the
-- signals, the post-processing script is found and succeeds, and the upload gives a storage path.
pub record MappingStop : Type 0 where
  pub exited : Bool
  pub script_found : Bool
  pub processed : Bool
  pub uploaded : Bool

unfoldable pub post_process : Executor → MappingStop → Executor
unfolding mapping_result
post_process e m =
    if not m.script_found
    then mapping_result e false "建图后处理脚本不存在"
    else if not m.processed
    then mapping_result e false "建图后处理失败"
    else send (if m.uploaded then mapping_result e true "" else mapping_result e false "地图上传失败")
        (Message.mapping_reply Command.stop_and_uploadmap m.uploaded "ack")

-- `MappingHandle::stop_and_uploadmap_async`
unfoldable pub upload_reported : Executor → MappingStop → Executor
unfolding post_process mapping_result
upload_reported e m =
    let stopped = record e { mapping_process = 0 } in
    if not (is_running e)
    then mapping_result e false "没有正在运行的建图进程"
    else if not m.exited
    then mapping_result stopped false "建图进程无法停止"
    else post_process stopped m

-- Its worker: at the end the gate is freed, and a guard resets the running flag.
unfoldable pub stop_and_upload : Executor → MappingStop → Executor
unfolding upload_reported
stop_and_upload e m = record (finish_command (upload_reported e m) Command.stop_and_uploadmap) {
  stop_upload_running = false;
}

unfoldable pub handle_stop_and_uploadmap : Executor → Executor
handle_stop_and_uploadmap e =
    if e.stop_upload_running
    then send e (Message.mapping_reply Command.stop_and_uploadmap false "already running")
    else launch (record e { stop_upload_running = true }) Worker.stop_and_upload

-- What the map confirmation meets: the steps up to its end may throw, the storage path may have
-- fewer than two parts, the script may fail.
pub record Confirmation : Type 0 where
  pub path_ok : Bool
  pub script_ok : Bool
  pub steps_ok : Bool

unfoldable pub confirmation_failed : Executor → String → Executor
confirmation_failed e reason =
    send
      (publish_fsm_state (record e { behavior = (Fsm.mapping_failed e.behavior reason).0 })
        Command.nav_upload_successful Outcome.failed reason)
      (Message.mapping_reply Command.nav_upload_successful false reason)

unfoldable pub handle_start_sh : Executor → Confirmation → Executor
unfolding confirmation_failed
handle_start_sh e c =
    if not c.path_ok
    then confirmation_failed e "invalid storage_path"
    else if not c.script_ok
    then confirmation_failed e "map_process2.sh failed"
    else if not c.steps_ok
    then confirmation_failed e "nav-upload-successful exception"
    else let told = send e (Message.mapping_reply Command.nav_upload_successful true "") in
      publish_fsm_state (record told { behavior = (Fsm.mapping told.behavior false).0 })
        Command.nav_upload_successful Outcome.success ""

unfoldable pub handle_nav_upload_successful_command : Executor → Confirmation → Executor
unfolding handle_start_sh
handle_nav_upload_successful_command e c =
    finish_command (handle_start_sh (report_command_received e Command.nav_upload_successful) c)
      Command.nav_upload_successful

-- The worker of `start_mapping_processing_timeout` when its time is up.
unfoldable pub mapping_processing_expired : Executor → ℕ → Executor
mapping_processing_expired e attempt =
    if not (attempt == e.mapping_attempt)
      || not (e.behavior.motion_mode == MotionMode.mapping_processing)
    then e
    else let failed = record e {
      behavior = (Fsm.mapping_failed e.behavior "nav-upload-successful timeout").0;
    } in
      send (publish_fsm_state failed Command.nav_upload_successful Outcome.failed "等待地图处理/上传确认超时")
        (Message.mapping_reply Command.nav_upload_successful false "等待地图处理/上传确认超时")
