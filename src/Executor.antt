-- ===== src/Executor.antt =====
-- The command executor (src/CommandExecutor.cc, include/CommandExecutor.h): admission, the busy
-- gate, and the handlers that drive the behaviour state machine.
pub mod Command
pub mod State
pub mod Gate
pub mod Admission
pub mod Environment
pub mod Follow
pub mod Service
pub mod Navigation
pub mod Mapping
pub mod Loss
pub mod Request
pub mod Dispatch
pub mod Rosout
pub mod Step
pub mod Rules
pub mod Busy
pub mod Queue
pub mod Upload
pub mod Startup
pub mod Recharge
pub mod Requests
pub mod Exclusion
pub mod Attempts
pub mod Progress
pub mod Cleanup
pub mod Invariant
