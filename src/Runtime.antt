-- ===== src/Runtime.antt =====
-- crates/runtime: the status of an actor, its channel, its inbox and the registry of names.
pub mod Status
pub mod Lifecycle
pub mod Channel
pub mod Cast
pub mod Inbox
pub mod Registry
mod Tests
mod RegistryTests
