-- ===== src/Gateway.antt =====
-- The connections of the robot to the cloud and to the handset (src/gateway).
pub mod State
pub mod Connection
pub mod Heartbeat
pub mod Handlers
pub mod Endpoint
pub mod Message
pub mod Step
pub mod Recovery
pub mod Backoff
pub mod Frame
pub mod Quiet
