-- ===== src/RobotStatus/Updates.antt =====
-- What the snapshot shows after any updates (src/robotState/robotState.cc).
use rover_ops_jm.Prelude.{
  String, Bool, false, ◌||◌, ◌==◌, if◌then◌else◌, List, [], ◌∷◌, Option, none, some, ◌≡◌, refl, ap,
}
use rover_ops_jm.Prelude.Texts.{text_eq}
use rover_ops_jm.RobotStatus.{
  RobotStatus, Snapshot, initial, publish_snapshot, read_ros_state_info, update_battery,
  update_navigation_environment, set_navigation_env_active, clear_navigation_environment,
}

-- The calls of the object.
pub data Update : Type 0 where
  state : String → Update
  battery : String → Bool → Update
  environment : Bool → String → String → Update
  active : Bool → Update
  clear : Update

unfoldable pub update : RobotStatus → Update → RobotStatus
update s (Update.state message) = read_ros_state_info s message
update s (Update.battery info received) = update_battery s info received
update s (Update.environment a address name) = update_navigation_environment s a address name
update s (Update.active a) = set_navigation_env_active s a
update s Update.clear = clear_navigation_environment s

unfoldable pub update_all : RobotStatus → List Update → RobotStatus
update_all s [] = s
update_all s (u ∷ us) = update_all (update s u) us

-- Each part of the snapshot by itself: the latest call that sets it.
unfoldable pub latest_state : Option String → List Update → Option String
latest_state shown [] = shown
latest_state shown (Update.state message ∷ us) = latest_state (some message) us
latest_state shown (_ ∷ us) = latest_state shown us

unfoldable pub latest_battery : Option String → List Update → Option String
latest_battery shown [] = shown
latest_battery shown (Update.battery info received ∷ us) =
    latest_battery (if received then some info else none) us
latest_battery shown (_ ∷ us) = latest_battery shown us

unfoldable pub latest_active : Bool → List Update → Bool
latest_active shown [] = shown
latest_active shown (Update.environment a address name ∷ us) = latest_active a us
latest_active shown (Update.active a ∷ us) = latest_active a us
latest_active shown (Update.clear ∷ us) = latest_active false us
latest_active shown (_ ∷ us) = latest_active shown us

unfoldable pub latest_map : Option (String × String) → List Update → Option (String × String)
latest_map shown [] = shown
latest_map shown (Update.environment a address name ∷ us) =
    latest_map (if address == "" || name == "" then none else some (address, name)) us
latest_map shown (Update.clear ∷ us) = latest_map none us
latest_map shown (_ ∷ us) = latest_map shown us

abbrev latest : Snapshot → List Update → Snapshot
latest shown us = record {
  robot_state = latest_state shown.robot_state us;
  bms_info = latest_battery shown.bms_info us;
  env_active = latest_active shown.env_active us;
  map = latest_map shown.map us;
}

update_all-latest :
    (s : RobotStatus) (us : List Update)
    → publish_snapshot (update_all s us) ≡ latest (publish_snapshot s) us
unfolding publish_snapshot update_all update read_ros_state_info update_battery
    update_navigation_environment set_navigation_env_active clear_navigation_environment
    latest_state latest_battery latest_active latest_map
update_all-latest s [] = refl
update_all-latest s (Update.state message ∷ us) =
    update_all-latest (update s (Update.state message)) us
update_all-latest s (Update.battery info received ∷ us) =
    update_all-latest (update s (Update.battery info received)) us
update_all-latest s (Update.environment a address name ∷ us) =
    update_all-latest (update s (Update.environment a address name)) us
update_all-latest s (Update.active a ∷ us) = update_all-latest (update s (Update.active a)) us
update_all-latest s (Update.clear ∷ us) = update_all-latest (update s Update.clear) us

-- After any calls the snapshot shows the last state of the robot that was told, the last battery
-- unless it was told as not received, whether the last call about the environment left it active,
-- and the last map with an address and a name that was not cleared since: no call disturbs the parts
-- that are not its own.
pub update_all-snapshot :
    (us : List Update)
    → let shown = publish_snapshot (update_all initial us) in
      (shown.robot_state ≡ latest_state none us)
      × (shown.bms_info ≡ latest_battery none us)
      × (shown.env_active ≡ latest_active false us)
      × (shown.map ≡ latest_map none us)
unfolding initial publish_snapshot
update_all-snapshot us =
    let all = update_all-latest initial us in
    (
      ap (λ s. s.robot_state) all,
      ap (λ s. s.bms_info) all,
      ap (λ s. s.env_active) all,
      ap (λ s. s.map) all,
    )
