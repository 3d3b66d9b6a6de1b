-- ===== src/RobotStatus.antt =====
-- The status snapshot for the cloud (src/robotState/robotState.cc). A snapshot that is sent is the
-- record itself, less what its own flags hide; the JSON values received from outside are texts.
pub mod Updates
use rover_ops_jm.Prelude.{String, Bool, true, false, ◌||◌, ◌==◌, if◌then◌else◌, Option, none, some}
use rover_ops_jm.Prelude.Texts.{text_eq}

pub record RobotStatus : Type 0 where
  pub latest_robot_state : String
  pub latest_bms_info : String
  pub map_info : Option (String × String)
  pub has_robot_state : Bool
  pub has_bms_info : Bool
  pub navigation_env_active : Bool

-- What `publish_snapshot` puts into the message.
pub record Snapshot : Type 0 where
  pub robot_state : Option String
  pub bms_info : Option String
  pub env_active : Bool
  pub map : Option (String × String)

unfoldable pub initial : RobotStatus
initial = record {
  latest_robot_state = "";
  latest_bms_info = "";
  map_info = none;
  has_robot_state = false;
  has_bms_info = false;
  navigation_env_active = false;
}

unfoldable pub publish_snapshot : RobotStatus → Snapshot
publish_snapshot s = record {
  robot_state = if s.has_robot_state then some s.latest_robot_state else none;
  bms_info = if s.has_bms_info then some s.latest_bms_info else none;
  env_active = s.navigation_env_active;
  map = s.map_info;
}

unfoldable pub read_ros_state_info : RobotStatus → String → RobotStatus
read_ros_state_info s message = record s { latest_robot_state = message; has_robot_state = true }

unfoldable pub update_battery : RobotStatus → String → Bool → RobotStatus
update_battery s info received = record s { latest_bms_info = info; has_bms_info = received }

unfoldable pub update_navigation_environment : RobotStatus → Bool → String → String → RobotStatus
update_navigation_environment s active address display_name = record s {
  navigation_env_active = active;
  map_info = if address == "" || display_name == "" then none else some (address, display_name);
}

unfoldable pub set_navigation_env_active : RobotStatus → Bool → RobotStatus
set_navigation_env_active s active = record s { navigation_env_active = active }

unfoldable pub clear_navigation_environment : RobotStatus → RobotStatus
clear_navigation_environment s = record s { navigation_env_active = false; map_info = none }
