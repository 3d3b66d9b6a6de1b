-- ===== src/Executor/Upload.antt =====
-- What a mapping run comes to once its collection is stopped (src/CommandExecutor.cc,
-- src/mapping/maphandle.cc).
use rover_ops_jm.Prelude.{ℕ, false, ◌&&◌, nat_eq, if◌then◌else◌, ◌≡◌, ◌∙◌, refl, ap, arith}
use rover_ops_jm.Robot.State.{MotionMode, mode_eq}
use rover_ops_jm.Robot.Fsm
use rover_ops_jm.Executor.Command.{Command}
use rover_ops_jm.Executor.State.{Executor}
use rover_ops_jm.Executor.Gate.{finish_command, release_gate, fail_unfinished_start}
use rover_ops_jm.Executor.Mapping.{
  MappingStop, Confirmation, is_running, start_mapping_processing_timeout, mapping_result,
  post_process, upload_reported, stop_and_upload, confirmation_failed, handle_start_sh,
  handle_nav_upload_successful_command, mapping_processing_expired,
}

-- The end of another command than a start of navigation leaves the machine as it is.
finish_upload-behavior :
    (e : Executor) → (finish_command e Command.stop_and_uploadmap).behavior ≡ e.behavior
unfolding finish_command fail_unfinished_start release_gate
finish_upload-behavior e = ground arith

finish_confirmation-behavior :
    (e : Executor) → (finish_command e Command.nav_upload_successful).behavior ≡ e.behavior
unfolding finish_command fail_unfinished_start release_gate
finish_confirmation-behavior e = ground arith

upload_reported-mode :
    (e : Executor) (m : MappingStop)
    → e.behavior.motion_mode ≡ MotionMode.mapping
    → (upload_reported e m).behavior.motion_mode ≡ (
        if is_running e && m.exited && m.script_found && m.processed && m.uploaded
        then MotionMode.mapping_processing
        else MotionMode.failed)
unfolding upload_reported post_process mapping_result start_mapping_processing_timeout
    Fsm.mapping_processing Fsm.mapping_failed
upload_reported-mode e m h = ground arith

-- A mapping run whose collection is stopped goes on to the processing of the map exactly when the
-- collection was running and ended, its script was found and succeeded, and the upload succeeded;
-- else the machine is at fault. In every case the run can be stopped again.
pub stop_and_upload-mode :
    (e : Executor) (m : MappingStop)
    → e.behavior.motion_mode ≡ MotionMode.mapping
    → ((stop_and_upload e m).behavior.motion_mode ≡ (
        if is_running e && m.exited && m.script_found && m.processed && m.uploaded
        then MotionMode.mapping_processing
        else MotionMode.failed))
      × ((stop_and_upload e m).stop_upload_running ≡ false)
unfolding stop_and_upload
stop_and_upload-mode e m h = (
  ap (λ s. s.motion_mode) (finish_upload-behavior (upload_reported e m))
      ∙ upload_reported-mode e m h,
  refl,
)

handle_start_sh-mode :
    (e : Executor) (c : Confirmation)
    → e.behavior.motion_mode ≡ MotionMode.mapping_processing
    → (handle_start_sh e c).behavior.motion_mode
      ≡ (if c.path_ok && c.script_ok && c.steps_ok then MotionMode.idle else MotionMode.failed)
unfolding handle_start_sh confirmation_failed Fsm.mapping Fsm.mapping_failed
handle_start_sh-mode e c h = ground arith

-- The confirmation of the map ends the processing: in Idle if its storage path is usable, its script
-- succeeds and no step throws, else in a fault. The watch on the processing then has no effect,
-- whatever attempt it was started for.
pub confirmation-ends :
    (e : Executor) (c : Confirmation) (attempt : ℕ)
    → e.behavior.motion_mode ≡ MotionMode.mapping_processing
    → (let done = handle_nav_upload_successful_command e c in
        (done.behavior.motion_mode
          ≡ (if c.path_ok && c.script_ok && c.steps_ok then MotionMode.idle else MotionMode.failed))
        × (mapping_processing_expired done attempt ≡ done))
unfolding handle_nav_upload_successful_command mapping_processing_expired
confirmation-ends e c attempt h = (mode, ground (arith, mode))
  where
    mode :
        (handle_nav_upload_successful_command e c).behavior.motion_mode
        ≡ (if c.path_ok && c.script_ok && c.steps_ok then MotionMode.idle else MotionMode.failed)
    mode = ap (λ s. s.motion_mode) (finish_confirmation-behavior _) ∙ handle_start_sh-mode _ c h
