-- ===== src/Executor/Invariant/Mapping.antt =====
-- The mapping handlers keep the rules.
use rover_ops_jm.Prelude.{ℕ, String, Bool, true, false, ◌||◌, not, ◌==◌, nat_eq, if_keeps}
use rover_ops_jm.Robot.State.{MotionMode, RobotDto, mode_eq}
use rover_ops_jm.Robot.Fsm
use rover_ops_jm.Robot.Fsm.Rest.{
  IsAtRest, mapping-IsAtRest, mapping_processing-IsAtRest, mapping_failed-IsAtRest,
}
use rover_ops_jm.Executor.Command.{Command}
use rover_ops_jm.Executor.State.{Executor}
use rover_ops_jm.Executor.Rules.{IsSettled, settled}
use rover_ops_jm.Executor.Navigation.{Run}
use rover_ops_jm.Executor.Mapping.{
  MappingStart, MappingStop, Confirmation, is_running, start_collection, handle_start_mapping,
  handle_start_mapping_command, start_mapping_processing_timeout, mapping_result, post_process,
  upload_reported, stop_and_upload, handle_stop_and_uploadmap, confirmation_failed, handle_start_sh,
  handle_nav_upload_successful_command, mapping_processing_expired,
}
use rover_ops_jm.Executor.Invariant.Handlers.{with_behavior, finish_command-IsSettled}
use rover_ops_jm.Executor.Invariant.Navigation.{RunIsSettled, returned, threw}

pub moved-IsSettled :
    (e : Executor) (s : RobotDto) → IsAtRest s → IsSettled e → IsSettled (record e { behavior = s })
moved-IsSettled e s rest v = settled (with_behavior s v.rules rest)

-- What follows a handler keeps the rules, if it does so after a return and after a throw.
pub run_keeps :
    {f g : Executor → Executor} (r : Run)
    → ((e : Executor) → IsSettled e → IsSettled (f e))
    → ((e : Executor) → IsSettled e → IsSettled (g e))
    → RunIsSettled r
    → IsSettled (elim r [ Run.returned done ↦ f done | Run.threw left ↦ g left ])
run_keeps (Run.returned done) f g (RunIsSettled.returned v) = f done v
run_keeps (Run.threw left) f g (RunIsSettled.threw v) = g left v

start_collection-IsSettled :
    (e : Executor) (m : MappingStart) → IsSettled e → RunIsSettled (start_collection e m)
unfolding start_collection
start_collection-IsSettled e m v = if_keeps RunIsSettled (not m.files_removed) (threw v) (
    if_keeps RunIsSettled (is_running e) (returned (settled v.rules)) (
      if_keeps RunIsSettled (not m.script_found) (returned (settled v.rules)) (
        if_keeps RunIsSettled (m.pid == 0) (returned (settled v.rules))
          (returned (settled v.rules)))))

set_mapping-IsSettled :
    (e : Executor) (b : Bool)
    → IsSettled e
    → IsSettled (record e { behavior = (Fsm.mapping e.behavior b).0 })
set_mapping-IsSettled e b v = moved-IsSettled e _ (mapping-IsAtRest e.behavior b v.rules.at_rest) v

failed-IsSettled :
    (e : Executor) (t : String)
    → IsSettled e
    → IsSettled (record e { behavior = (Fsm.mapping_failed e.behavior t).0 })
failed-IsSettled e t v =
    moved-IsSettled e _ (mapping_failed-IsAtRest e.behavior t v.rules.at_rest) v

handle_start_mapping-IsSettled :
    (e : Executor) (m : MappingStart) → IsSettled e → IsSettled (handle_start_mapping e m)
unfolding handle_start_mapping
handle_start_mapping-IsSettled e m v =
    run_keeps (start_collection e m) (λ d w. w)
      (λ d w. settled (set_mapping-IsSettled d (is_running d) w).rules)
      (start_collection-IsSettled e m v)

pub handle_start_mapping_command-IsSettled :
    (e : Executor) (m : MappingStart) → IsSettled e → IsSettled (handle_start_mapping_command e m)
unfolding handle_start_mapping_command
handle_start_mapping_command-IsSettled e m v =
    finish_command-IsSettled _ _
      (set_mapping-IsSettled _ _ (handle_start_mapping-IsSettled _ m (settled v.rules)))

mapping_result-IsSettled :
    (e : Executor) (success : Bool) (reason : String)
    → IsSettled e
    → IsSettled (mapping_result e success reason)
unfolding mapping_result start_mapping_processing_timeout
mapping_result-IsSettled e success reason v =
    let processing =
      moved-IsSettled e _ (mapping_processing-IsAtRest e.behavior v.rules.at_rest) v in
    if_keeps IsSettled success
      (settled
        (if_keeps IsSettled (Fsm.mapping_processing e.behavior).1 (settled processing.rules)
          processing).rules)
      (settled (failed-IsSettled e reason v).rules)

post_process-IsSettled :
    (e : Executor) (m : MappingStop) → IsSettled e → IsSettled (post_process e m)
unfolding post_process
post_process-IsSettled e m v =
    if_keeps IsSettled (not m.script_found) (mapping_result-IsSettled e false _ v) (
      if_keeps IsSettled (not m.processed) (mapping_result-IsSettled e false _ v) (
        settled
          (if_keeps IsSettled m.uploaded (mapping_result-IsSettled e true "" v)
            (mapping_result-IsSettled e false "地图上传失败" v)).rules))

upload_reported-IsSettled :
    (e : Executor) (m : MappingStop) → IsSettled e → IsSettled (upload_reported e m)
unfolding upload_reported
upload_reported-IsSettled e m v =
    if_keeps IsSettled (not (is_running e)) (mapping_result-IsSettled e false _ v) (
      if_keeps IsSettled (not m.exited) (mapping_result-IsSettled _ false _ (settled v.rules))
        (post_process-IsSettled _ m (settled v.rules)))

pub stop_and_upload-IsSettled :
    (e : Executor) (m : MappingStop) → IsSettled e → IsSettled (stop_and_upload e m)
unfolding stop_and_upload
stop_and_upload-IsSettled e m v =
    settled
      (finish_command-IsSettled _ Command.stop_and_uploadmap
        (upload_reported-IsSettled e m v)).rules

pub handle_stop_and_uploadmap-IsSettled :
    (e : Executor) → IsSettled e → IsSettled (handle_stop_and_uploadmap e)
unfolding handle_stop_and_uploadmap
handle_stop_and_uploadmap-IsSettled e v =
    if_keeps IsSettled e.stop_upload_running (settled v.rules) (settled v.rules)

confirmation_failed-IsSettled :
    (e : Executor) (t : String) → IsSettled e → IsSettled (confirmation_failed e t)
unfolding confirmation_failed
confirmation_failed-IsSettled e t v = settled (failed-IsSettled e t v).rules

handle_start_sh-IsSettled :
    (e : Executor) (c : Confirmation) → IsSettled e → IsSettled (handle_start_sh e c)
unfolding handle_start_sh
handle_start_sh-IsSettled e c v =
    if_keeps IsSettled (not c.path_ok) (confirmation_failed-IsSettled e _ v) (
      if_keeps IsSettled (not c.script_ok) (confirmation_failed-IsSettled e _ v) (
        if_keeps IsSettled (not c.steps_ok) (confirmation_failed-IsSettled e _ v)
          (settled (set_mapping-IsSettled e false v).rules)))

pub nav_upload-IsSettled :
    (e : Executor) (c : Confirmation)
    → IsSettled e
    → IsSettled (handle_nav_upload_successful_command e c)
unfolding handle_nav_upload_successful_command
nav_upload-IsSettled e c v =
    finish_command-IsSettled _ _ (handle_start_sh-IsSettled _ c (settled v.rules))

pub mapping_expired-IsSettled :
    (e : Executor) (attempt : ℕ) → IsSettled e → IsSettled (mapping_processing_expired e attempt)
unfolding mapping_processing_expired
mapping_expired-IsSettled e attempt v =
    if_keeps IsSettled
      (not (attempt == e.mapping_attempt)
        || not (e.behavior.motion_mode == MotionMode.mapping_processing))
      v (settled (failed-IsSettled e _ v).rules)
