-- ===== src/Supervisor/Crates.antt =====
-- The containers of other crates that the supervisor is built on, and `ControlFlow`.
use zestors.Base.{ℕ, Option}
use zestors.External.IndexSet.{IndexSet}
use zestors.External.IndexMap.{IndexMap}
use zestors.External.StreamUnordered.{StreamUnordered}
use zestors.Supervisor.Supervisee.{Supervisee}

-- The values of the map are its entries, `SuperviseeMapEntry { token: Option<usize> }`.
pub record Crates : Type 1 where
  pub sets : IndexSet
  pub entries : IndexMap (Option ℕ)
  pub streams : StreamUnordered Supervisee
