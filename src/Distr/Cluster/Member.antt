-- ===== src/Distr/Cluster/Member.antt =====
-- crates/distr/src/cluster/member.rs and event.rs: a node in the cluster, and what is told about it.
use zestors.Base.{ℕ, ◌+◌, ◌≡◌, Bool, ◌&&◌, true, false, Option, none, some, List, ltb, ◌==◌, arith}

-- A name and an address are only compared.
pub record Member : Type 0 where
  pub name : ℕ
  pub addr : ℕ
  pub generation : ℕ

-- The derived `==` of a member.
abbrev pub eq : Member → Member → Bool
eq a b = a.name == b.name && (a.addr == b.addr && a.generation == b.generation)

pub eq→≡ : (a b : Member) → eq a b ≡ true → a ≡ b
eq→≡ a b h = ground arith

pub eq_refl : (a : Member) → eq a a ≡ true
eq_refl a = ground arith

-- Whether a value of a map is that member.
abbrev pub is_member : Option Member → Member → Bool
is_member none m = false
is_member (some a) m = eq a m

unfoldable pub renew : Member → Member
renew m = record m { generation = m.generation + 1 }

unfoldable pub win_addr_conflict : Member → Member → Bool
win_addr_conflict m adversary = ltb adversary.generation m.generation

pub data ClusterEvent : Type 0 where
  up left failed unreachable reachable : Member → ClusterEvent

-- `ClusterEvent::member`.
unfoldable pub member_of : ClusterEvent → Member
member_of (up m) = m
member_of (left m) = m
member_of (failed m) = m
member_of (unreachable m) = m
member_of (reachable m) = m

pub data NodeStatus : Type 0 where
  starting up leaving defunct : NodeStatus

pub record ClusterSnapshot : Type 0 where
  pub members : List Member
  pub unreachable : List ℕ
