-- ===== src/External.antt =====
-- What the code takes from other crates, as interfaces: their operations, and the documented behaviour
-- that the code relies on, stated through what a value holds. `External.Models` has an instance of each.
pub mod Fifo
pub mod IndexSet
pub mod IndexMap
pub mod StreamUnordered
pub mod DelayQueue
pub mod DashMap
pub mod Papaya
pub mod HashModels
pub mod Models
