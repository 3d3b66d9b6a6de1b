-- ===== src/Executor/Admission.antt =====
-- Which command is admitted in which mode, and what a rejection says (src/CommandExecutor.cc).
use rover_ops_jm.Prelude.{String, Bool, true, false, ◌&&◌, ◌||◌, not, ◌==◌, if◌then◌else◌}
use rover_ops_jm.Robot.State.{MotionMode, RobotDto, mode_eq}
use rover_ops_jm.Robot.Fsm
use rover_ops_jm.Executor.Command.{Command, command_eq}
use rover_ops_jm.Executor.State.{Executor, Outcome, publish_fsm_state}

abbrev pub not_allowed : String
not_allowed = "Command is not allowed in current behavior state"

-- The branch of `behavior_rejection_message` for the types that it does not name.
general_message : MotionMode → String
unfolding Fsm.is_navigation
general_message mode =
    if mode == MotionMode.starting_follow || mode == MotionMode.following
    then "正在进行跟随"
    else if Fsm.is_navigation mode
    then "正在导航"
    else if mode == MotionMode.mapping || mode == MotionMode.mapping_processing
    then "正在建图"
    else not_allowed

-- The branch for `action_control` and `control`.
web_motion_message : MotionMode → String
web_motion_message MotionMode.starting_navigation = "正在导航，禁止Web运控"
web_motion_message MotionMode.navigation_ready = "正在导航，禁止Web运控"
web_motion_message MotionMode.navigating = "正在导航，禁止Web运控"
web_motion_message MotionMode.starting_follow = "正在进行跟随，禁止Web运控"
web_motion_message MotionMode.following = "正在进行跟随，禁止Web运控"
web_motion_message MotionMode.mapping = "正在建图，禁止Web运控"
web_motion_message MotionMode.mapping_processing = "正在建图，禁止Web运控"
web_motion_message MotionMode.stopping = "正在停止，禁止Web运控"
web_motion_message MotionMode.failed = "系统故障，禁止Web运控"
web_motion_message MotionMode.idle = not_allowed

-- The branch for `set_param`.
parameter_message : MotionMode → String
parameter_message MotionMode.starting_navigation = "正在导航，禁止修改参数"
parameter_message MotionMode.navigation_ready = "正在导航，禁止修改参数"
parameter_message MotionMode.navigating = "正在导航，禁止修改参数"
parameter_message MotionMode.starting_follow = "正在进行跟随，禁止修改参数"
parameter_message MotionMode.following = "正在进行跟随，禁止修改参数"
parameter_message MotionMode.mapping = "正在建图，禁止修改参数"
parameter_message MotionMode.mapping_processing = "正在建图，禁止修改参数"
parameter_message MotionMode.stopping = "正在停止，禁止修改参数"
parameter_message MotionMode.failed = "系统故障，禁止修改参数"
parameter_message MotionMode.idle = not_allowed

unfoldable pub behavior_rejection_message : Command → MotionMode → String
unfolding general_message web_motion_message parameter_message
behavior_rejection_message Command.start_navigation MotionMode.starting_follow = "正在进行跟随，导航指令已忽略"
behavior_rejection_message Command.start_navigation MotionMode.following = "正在进行跟随，导航指令已忽略"
behavior_rejection_message Command.start_navigation MotionMode.mapping = "正在建图，请先结束建图"
behavior_rejection_message Command.start_navigation MotionMode.mapping_processing = "正在建图，请先结束建图"
behavior_rejection_message Command.start_navigation MotionMode.stopping = "正在停止，请稍后重试"
behavior_rejection_message Command.start_navigation MotionMode.failed = "系统故障，请先停止/复位"
behavior_rejection_message Command.start_navigation _ = not_allowed
behavior_rejection_message Command.start_mapping MotionMode.starting_follow = "正在进行跟随，请先结束跟随"
behavior_rejection_message Command.start_mapping MotionMode.following = "正在进行跟随，请先结束跟随"
behavior_rejection_message Command.start_mapping MotionMode.starting_navigation = "正在导航，请先结束导航"
behavior_rejection_message Command.start_mapping MotionMode.navigation_ready = "正在导航，请先结束导航"
behavior_rejection_message Command.start_mapping MotionMode.navigating = "正在导航，请先结束导航"
behavior_rejection_message Command.start_mapping MotionMode.mapping = "正在建图"
behavior_rejection_message Command.start_mapping MotionMode.mapping_processing = "正在处理/上传建图数据"
behavior_rejection_message Command.start_mapping MotionMode.stopping = "正在停止，请稍后重试"
behavior_rejection_message Command.start_mapping MotionMode.failed = "系统故障，请先停止/复位"
behavior_rejection_message Command.start_mapping _ = not_allowed
behavior_rejection_message Command.start_follow MotionMode.mapping = "正在建图，请先结束建图"
behavior_rejection_message Command.start_follow MotionMode.mapping_processing = "正在建图，请先结束建图"
behavior_rejection_message Command.start_follow MotionMode.stopping = "正在停止，跟随指令已排队"
behavior_rejection_message Command.start_follow MotionMode.failed = "系统故障，请先停止/复位"
behavior_rejection_message Command.start_follow _ = not_allowed
behavior_rejection_message Command.stop_navigation MotionMode.starting_follow = "正在进行跟随，停止导航指令已忽略"
behavior_rejection_message Command.stop_navigation MotionMode.following = "正在进行跟随，停止导航指令已忽略"
behavior_rejection_message Command.stop_navigation MotionMode.mapping = "正在建图，请使用结束建图"
behavior_rejection_message Command.stop_navigation MotionMode.mapping_processing = "正在建图，请使用结束建图"
behavior_rejection_message Command.stop_navigation MotionMode.stopping = "正在停止"
behavior_rejection_message Command.stop_navigation _ = not_allowed
behavior_rejection_message Command.action_control mode = web_motion_message mode
behavior_rejection_message Command.control mode = web_motion_message mode
behavior_rejection_message Command.set_param mode = parameter_message mode
behavior_rejection_message _ mode = general_message mode

unfoldable pub reject : Executor → Command → Executor
unfolding behavior_rejection_message
reject e c =
    publish_fsm_state e c Outcome.rejected (behavior_rejection_message c e.behavior.motion_mode)

-- What a command of the last branch of `admit_behavior_command` needs besides a navigation mode.
needs_environment : Command → Bool
needs_environment Command.stop_recharge = false
needs_environment Command.cancel_task = false
needs_environment _ = true

needs_localization : Command → Bool
needs_localization Command.start_task = true
needs_localization Command.start_recharge = true
needs_localization _ = false

unfoldable pub navigation_allows : RobotDto → Command → Bool
unfolding needs_environment needs_localization Fsm.is_navigation
navigation_allows s c =
    Fsm.is_navigation s.motion_mode
    && (not (needs_environment c) || s.navigation_environment_ready)
    && (not (needs_localization c) || s.localization_ready)

unfoldable pub is_admitted : RobotDto → Command → Bool
unfolding navigation_allows
is_admitted s Command.start_navigation = s.motion_mode == MotionMode.idle
is_admitted s Command.start_mapping = s.motion_mode == MotionMode.idle
is_admitted s Command.stop_and_uploadmap = s.motion_mode == MotionMode.mapping
is_admitted s Command.nav_upload_successful = s.motion_mode == MotionMode.mapping_processing
is_admitted s c = navigation_allows s c

unfoldable pub admit_behavior_command : Executor → Command → Executor × Bool
unfolding is_admitted reject
admit_behavior_command e c = if is_admitted e.behavior c then (e, true) else (reject e c, false)

-- `lock_free` is the answer of `try_to_lock` on the behaviour mutex.
unfoldable pub admit_web_motion_command : Executor → Command → Bool → Bool → Executor × Bool
unfolding reject
admit_web_motion_command e c is_safety_stop lock_free =
    if is_safety_stop
    then (e, true)
    else if not lock_free
    then (publish_fsm_state e c Outcome.rejected "系统正在切换行为，禁止Web运控", false)
    else if e.behavior.motion_mode == MotionMode.idle
    then (e, true)
    else (reject e c, false)
