-- ===== src/Executor/Invariant.antt =====
-- The rules of `Executor.Rules` hold in every state that the executor reaches.
pub mod Kept
pub mod Handlers
pub mod Navigation
pub mod Environment
pub mod Follow
pub mod Shut
pub mod FollowQueue
pub mod Mapping
pub mod Rosout
pub mod Loss
pub mod Routing
pub mod Stop
pub mod Dispatch
