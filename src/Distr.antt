-- ===== src/Distr.antt =====
-- crates/distr: actors on other nodes.
pub mod Bytes
pub mod Text
pub mod Frame
pub mod Links
pub mod Cluster
pub mod Messaging
mod Tests
mod ClusterTests
mod LinkTests
mod DispatchTests
mod MonitorTests
mod QueueTests
mod MessagingTests
