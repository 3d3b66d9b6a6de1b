-- ===== src/Robot.antt =====
-- The behaviour state of the robot (src/robotDto.h) and its state machine (include/RobotFsm.h).
pub mod State
pub mod Fsm
