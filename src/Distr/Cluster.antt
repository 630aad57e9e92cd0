-- ===== src/Distr/Cluster.antt =====
-- crates/distr/src/cluster: who is in the cluster.
pub mod Member
pub mod State
pub mod Replay
pub mod Foca
pub mod Driver
pub mod Generation
