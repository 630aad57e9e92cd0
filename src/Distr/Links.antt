-- ===== src/Distr/Links.antt =====
-- crates/distr/src/link: the connections to other nodes.
pub mod Connections
pub mod Agreement
pub mod Health
pub mod Streams
use zestors.Base.{ℕ}

pub data PeerEvent : Type 0 where
  unreachable reachable : ℕ → PeerEvent
  disconnected : ℕ → ℕ → PeerEvent
