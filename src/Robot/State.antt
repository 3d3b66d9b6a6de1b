-- ===== src/Robot/State.antt =====
-- src/robotDto.h: the enumerations of the behaviour layer and the state snapshot. An enumeration
-- is compared by its underlying value, its position in the declaration.
use rover_ops_jm.Prelude.{ℕ, String, Bool, Eq, nat_beq}

pub data HealthStatus : Type 0 where
  unknow healthy un_healthy : HealthStatus

pub data MotionMode : Type 0 where
  idle starting_navigation navigation_ready starting_follow following navigating mapping :
      MotionMode
  mapping_processing stopping failed : MotionMode

pub data TaskStatus : Type 0 where
  idle starting running paused stopping successed cancelled failed : TaskStatus

pub data LightStatus : Type 0 where
  bms_error low_battey navigation follow default : LightStatus

abbrev health_value : HealthStatus → ℕ
health_value HealthStatus.unknow = 0
health_value HealthStatus.healthy = 1
health_value HealthStatus.un_healthy = 2

abbrev mode_value : MotionMode → ℕ
mode_value MotionMode.idle = 0
mode_value MotionMode.starting_navigation = 1
mode_value MotionMode.navigation_ready = 2
mode_value MotionMode.starting_follow = 3
mode_value MotionMode.following = 4
mode_value MotionMode.navigating = 5
mode_value MotionMode.mapping = 6
mode_value MotionMode.mapping_processing = 7
mode_value MotionMode.stopping = 8
mode_value MotionMode.failed = 9

abbrev task_value : TaskStatus → ℕ
task_value TaskStatus.idle = 0
task_value TaskStatus.starting = 1
task_value TaskStatus.running = 2
task_value TaskStatus.paused = 3
task_value TaskStatus.stopping = 4
task_value TaskStatus.successed = 5
task_value TaskStatus.cancelled = 6
task_value TaskStatus.failed = 7

instance abbrev pub health_eq : Eq HealthStatus
health_eq = record { beq = λ a b. nat_beq (health_value a) (health_value b) }

instance abbrev pub mode_eq : Eq MotionMode
mode_eq = record { beq = λ a b. nat_beq (mode_value a) (mode_value b) }

instance abbrev pub task_eq : Eq TaskStatus
task_eq = record { beq = λ a b. nat_beq (task_value a) (task_value b) }

pub record RobotDto : Type 0 where
  pub health : HealthStatus
  pub motion_mode : MotionMode
  pub task_status : TaskStatus
  pub navigation_environment_ready : Bool
  pub localization_ready : Bool
  pub follow_placeholder : Bool
  pub generation : ℕ
  pub fault_reason : String
  pub light_status : LightStatus
