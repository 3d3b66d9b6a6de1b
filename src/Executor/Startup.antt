-- ===== src/Executor/Startup.antt =====
-- The way from Idle to a running navigation task (src/CommandExecutor.cc).
pub mod Begin
pub mod Stages
pub mod Task
pub mod Complete
