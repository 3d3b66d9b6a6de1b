-- ===== src/Tests.antt =====
-- The theorems at concrete runs.
pub mod Machine
pub mod Commands
pub mod Handlers
pub mod Devices
pub mod Network
pub mod Battery
pub mod Images
