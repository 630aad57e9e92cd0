-- ===== src/Distr/Messaging.antt =====
-- crates/distr/src/messaging: calls of actors on other nodes. Their frames are in `Distr.Frame`.
pub mod Pending
pub mod Send
pub mod ActorQueue
pub mod Monitors
pub mod Dispatch
