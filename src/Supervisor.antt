-- ===== src/Supervisor.antt =====
-- crates/supervisor: the supervisor actor.
pub mod Supervisee
pub mod Crates
pub mod Children
pub mod Inner
pub mod Runner
pub mod Accounts
pub mod OneForOne
pub mod OneForAll
pub mod RestForOne
mod Tests
mod StrategyTests
