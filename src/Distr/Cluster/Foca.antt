-- ===== src/Distr/Cluster/Foca.antt =====
-- The membership protocol, `foca::Foca`, as the cluster drives it: an input yields the notifications that
-- `AccumulatingRuntime` then hands out. What it asks to be sent and scheduled is left out.
use zestors.Base.{ℕ, ◌≡◌, Bool, Option, List, All}
use zestors.Distr.Bytes.{Bytes}
use zestors.Distr.Cluster.Member.{Member}

pub data OwnedNotification : Type 0 where
  member_up member_down : Member → OwnedNotification
  rename : Member → Member → OwnedNotification
  rejoin : Member → OwnedNotification
  active idle defunct : OwnedNotification

-- A rename is from one incarnation of a node to another.
abbrev pub KeepsAddr : OwnedNotification → Type 0
KeepsAddr (rename before after) = after.name ≡ before.name
KeepsAddr n = Unit

pub record Foca : Type 1 where
  pub State : Type 0
  pub handle_data : State → Bytes → State × List OwnedNotification
  pub handle_timer : State → ℕ → State × List OwnedNotification
  pub announce : State → Member → State × List OwnedNotification
  pub leave_cluster : State → State × List OwnedNotification
  -- Whether `iter_members` yields one.
  pub has_members : State → Bool
  -- The sender in the header of a packet, if it has one.
  pub sender_of : Bytes → Option ℕ
  pub keeps_handle_data : (f : State) (d : Bytes) → All KeepsAddr (handle_data f d).1
  pub keeps_handle_timer : (f : State) (t : ℕ) → All KeepsAddr (handle_timer f t).1
  pub keeps_announce : (f : State) (m : Member) → All KeepsAddr (announce f m).1
  pub keeps_leave_cluster : (f : State) → All KeepsAddr (leave_cluster f).1
