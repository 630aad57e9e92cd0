-- ===== src/Distr/Cluster/State.antt =====
-- crates/distr/src/cluster/state.rs: what this node knows about the cluster. A change that is made under
-- the lock is one step, which returns what it publishes.
use zestors.Base.{
  ℕ, Bool, true, false, not, ◌&&◌, ◌||◌, Option, none, some, List, [], ◌∷◌, elem, ◌==◌,
  if◌then◌else◌,
}
use zestors.Base.Maps
use zestors.Base.Maps.{is_some, include, without}
use zestors.Distr.Cluster.Member.{Member, is_member, ClusterEvent, ClusterSnapshot, NodeStatus}

pub record MemberList : Type 0 where
  pub local : Member
  pub members : List (ℕ × Member)
  pub unreachable : List ℕ

-- `Cluster::new`.
unfoldable pub new : Member → MemberList
new m = record { local = m; members = []; unreachable = [] }

unfoldable pub set_local : Member → MemberList → MemberList
set_local m s = record s { local = m }

unfoldable pub member : ℕ → MemberList → Option Member
member node s = Maps.get node s.members

unfoldable pub members : MemberList → List Member
members s = Maps.values s.members

unfoldable pub is_reachable : ℕ → MemberList → Bool
is_reachable node s = is_some (Maps.get node s.members) && not (elem node s.unreachable)

-- `subscribe_with_snapshot`, without the receiver.
unfoldable pub snapshot : MemberList → ClusterSnapshot
snapshot s = record { members = Maps.values s.members; unreachable = s.unreachable }

-- `members.iter().any(..)`, of `ClusterSnapshot::is_reachable`.
abbrev any_named : ℕ → List Member → Bool
any_named node [] = false
any_named node (m ∷ ms) = m.name == node || any_named node ms

unfoldable pub snapshot_is_reachable : ℕ → ClusterSnapshot → Bool
snapshot_is_reachable node s = not (elem node s.unreachable) && any_named node s.members

unfoldable pub contains : Member → MemberList → Bool
contains m s = is_member (Maps.get m.name s.members) m

unfoldable pub member_up : Member → MemberList → MemberList × List ClusterEvent
member_up m s =
    let s' = record s { members = Maps.insert m.name m s.members } in
    if is_member (Maps.get m.name s.members) m
    then (s', [])
    else (record s' { unreachable = without m.name s.unreachable }, ClusterEvent.up m ∷ [])

abbrev pub cut_off : ℕ → MemberList → Option Member → MemberList × Option Member × List ClusterEvent
cut_off node s none = (s, none, [])
cut_off node s (some m) =
    let s' = record s { unreachable = include node s.unreachable } in
    if elem node s.unreachable
    then (s', none, [])
    else (s', some m, ClusterEvent.unreachable m ∷ [])

unfoldable pub member_unreachable : ℕ → MemberList → MemberList × Option Member × List ClusterEvent
member_unreachable node s = cut_off node s (Maps.get node s.members)

abbrev pub restored :
    ℕ → MemberList → Option Member → MemberList × Option Member × List ClusterEvent
restored node s none = (s, none, [])
restored node s (some m) =
    let s' = record s { unreachable = without node s.unreachable } in
    if elem node s.unreachable then (s', some m, ClusterEvent.reachable m ∷ []) else (s', none, [])

unfoldable pub member_reachable : ℕ → MemberList → MemberList × Option Member × List ClusterEvent
member_reachable node s = restored node s (Maps.get node s.members)

-- The two parts of the list, without a node.
abbrev forget : ℕ → MemberList → MemberList
forget node s = record s {
  members = Maps.remove node s.members;
  unreachable = without node s.unreachable;
}

abbrev pub departed :
    ℕ → ℕ → MemberList → Option Member → MemberList × Option Member × List ClusterEvent
departed node generation s none = (s, none, [])
departed node generation s (some m) =
    if not (m.generation == generation)
    then (s, none, [])
    else (forget node s, some m, ClusterEvent.left m ∷ [])

unfoldable pub member_left : ℕ → ℕ → MemberList → MemberList × Option Member × List ClusterEvent
member_left node generation s = departed node generation s (Maps.get node s.members)

unfoldable pub member_failed : Member → MemberList → MemberList × List ClusterEvent
member_failed m s =
    if is_member (Maps.get m.name s.members) m
    then (forget m.name s, ClusterEvent.failed m ∷ [])
    else (s, [])

unfoldable pub member_renamed : Member → Member → MemberList → MemberList × List ClusterEvent
member_renamed before after s =
    if is_member (Maps.get before.name s.members) before
    then (
      record s {
        members = Maps.insert after.name after s.members;
        unreachable = without after.name s.unreachable;
      },
      ClusterEvent.failed before ∷ ClusterEvent.up after ∷ [],
    )
    else (s, [])

abbrev is_running : NodeStatus → Bool
is_running NodeStatus.up = true
is_running s = false

abbrev allowed : NodeStatus → NodeStatus → Bool
allowed NodeStatus.defunct next = false
allowed NodeStatus.leaving next = not (is_running next)
allowed current next = true

-- The status after `set_status`. To set the status that is there changes nothing.
unfoldable pub set_status : NodeStatus → NodeStatus → NodeStatus
set_status next current = if allowed current next then next else current
