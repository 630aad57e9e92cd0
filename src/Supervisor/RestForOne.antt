-- ===== src/Supervisor/RestForOne.antt =====
-- crates/supervisor/src/actor/rest_for_one.rs: a restart of one child is a restart of it and of those
-- started after it, one at a time.
pub mod Cascade
pub mod Stopping
pub mod Exits
pub mod Order
pub mod Restarting
pub mod Total
pub mod ShuttingDown
pub mod Rounds
pub mod EventLoop
