-- ===== src/Distr/Cluster/Driver.antt =====
-- crates/distr/src/cluster/membership/driver.rs and message.rs: what drives the protocol and keeps the list of
-- members by it.
pub mod Suspects
pub mod Tracks
pub mod Follows
pub mod Restart
use zestors.Base.{
  ℕ, Bool, true, false, not, ◌&&◌, ◌||◌, Option, none, some, List, [], ◌∷◌, ◌++◌, elem, ◌==◌,
  if◌then◌else◌,
}
use zestors.Base.Maps
use zestors.Base.Maps.{is_some}
use zestors.External.DelayQueue.{DelayQueue}
use zestors.Distr.Bytes.{Bytes}
use zestors.Distr.Links.{PeerEvent, unreachable, reachable, disconnected}
use zestors.Distr.Cluster.Member.{Member, ClusterEvent, NodeStatus}
use zestors.Distr.Cluster.State.{
  MemberList, contains, member_unreachable, member_reachable, member_left, set_local, set_status,
  members,
}
use zestors.Distr.Cluster.State
use zestors.Distr.Cluster.Foca.{
  Foca, OwnedNotification, member_up, member_down, rename, rejoin, active, idle, defunct,
}

-- `Message` of membership/message.rs.
pub data Message : Type 0 where
  gossip : Bytes → Message
  departure : Message

unfoldable pub encode : Message → Bytes
encode (gossip payload) = 1 ∷ payload
encode departure = 2 ∷ []

unfoldable pub decode : Bytes → Option Message
decode [] = none
decode (kind ∷ rest) =
    if kind == 1 then some (gossip rest) else if kind == 2 then some departure else none

-- What the driver tells others: an event it publishes, a message it queues for a node, and a peer that the
-- links are to forget.
pub data Effect : Type 0 where
  published : ClusterEvent → Effect
  queued : Member → Message → Effect
  forgets : ℕ → ℕ → Effect

abbrev pub publish : List ClusterEvent → List Effect
publish [] = []
publish (e ∷ es) = published e ∷ publish es

abbrev pub say_goodbye : List Member → List Effect
say_goodbye [] = []
say_goodbye (m ∷ ms) = queued m departure ∷ say_goodbye ms

-- One turn of the `select!`, with what it is about. `expired` is the key of a departure that is due.
pub data Input : Type 0 where
  incoming : ℕ → ℕ → Bytes → Input
  peer_event : PeerEvent → Input
  timer : ℕ → Input
  expired : ℕ → Input
  rejoin_tick : Input
  announce_command : Member → Input
  leave_command : Input

module _ (Q : DelayQueue Member) where
  abbrev pub try_remove : Option ℕ → Q.Queue → Q.Queue
  try_remove none q = q
  try_remove (some k) q = Q.remove q k

module _ (F : Foca) (Q : DelayQueue Member) where
  pub record Driver : Type 0 where
    pub foca : F.State
    pub cluster : MemberList
    pub status : NodeStatus
    pub seeds : List Member
    pub grace : ℕ
    pub leaving : Bool
    pub pending_down : Q.Queue
    pub pending_keys : List (ℕ × ℕ)

  unfoldable pub new : F.State → MemberList → NodeStatus → List Member → ℕ → Driver
  new foca cluster status seeds grace = record {
    foca = foca;
    cluster = cluster;
    status = status;
    seeds = seeds;
    grace = grace;
    leaving = false;
    pending_down = Q.new;
    pending_keys = [];
  }

  unfoldable pub cancel_pending : ℕ → Driver → Driver
  cancel_pending node d = record d {
    pending_down = try_remove Q (Maps.get node d.pending_keys) d.pending_down;
    pending_keys = Maps.remove node d.pending_keys;
  }

  -- A node that was declared down waits out its grace.
  unfoldable pub suspect : Member → Driver → Driver
  suspect m d =
      let (key, q) = Q.insert d.pending_down m d.grace in
      record d {
        pending_down = try_remove Q (Maps.get m.name d.pending_keys) q;
        pending_keys = Maps.insert m.name key d.pending_keys;
      }

  unfoldable pub notify : OwnedNotification → Driver → Driver × List Effect
  unfolding suspect cancel_pending
  notify (member_up m) d =
      let d' = cancel_pending m.name d in
      let (cluster, es) = State.member_up m d'.cluster in
      (record d' { cluster = cluster }, publish es)
  notify (member_down m) d =
      (if contains m d.cluster then suspect m d else d, forgets m.name m.generation ∷ [])
  notify (rename before after) d =
      let d' = cancel_pending before.name d in
      let (cluster, es) = State.member_renamed before after d'.cluster in
      (record d' { cluster = cluster }, forgets before.name before.generation ∷ publish es)
  notify (rejoin m) d = (record d { cluster = set_local m d.cluster }, [])
  notify active d = (d, [])
  notify idle d = (d, [])
  notify defunct d =
      (if d.leaving then d else record d { status = set_status NodeStatus.defunct d.status }, [])

  -- The notifications of `drain`.
  unfoldable pub drain : List OwnedNotification → Driver → Driver × List Effect
  unfolding notify
  drain [] d = (d, [])
  drain (n ∷ ns) d = let (d', es) = notify n d in let (d'', fs) = drain ns d' in (d'', es ++ fs)

  unfoldable pub on_peer_event : PeerEvent → Driver → Driver × List Effect
  on_peer_event (unreachable node) d =
      let (cluster, m, es) = member_unreachable node d.cluster in
      (record d { cluster = cluster }, publish es)
  on_peer_event (reachable node) d =
      let (cluster, m, es) = member_reachable node d.cluster in
      (record d { cluster = cluster }, publish es)
  on_peer_event (disconnected node generation) d = (d, [])

  abbrev pub cancel_left : Option Member → Driver → Driver
  cancel_left none d = d
  cancel_left (some m) d = cancel_pending m.name d

  -- Whether a packet names the node it came from as its sender.
  abbrev pub names_sender : Option ℕ → ℕ → Bool
  names_sender none node = false
  names_sender (some n) node = n == node

  -- What foca did with an input, before its notifications are drained.
  abbrev pub Handled : Type 0
  Handled = Driver × List OwnedNotification × List Effect

  abbrev pub handled : Driver → F.State × List OwnedNotification → Handled
  handled d (foca, ns) = (record d { foca = foca }, ns, [])

  abbrev pub departs : ℕ → ℕ → Driver → Handled
  departs node generation d =
      let (cluster, m, es) = member_left node generation d.cluster in
      (cancel_left m (record d { cluster = cluster }), [], publish es)

  abbrev pub on_message : ℕ → ℕ → Option Message → Driver → Handled
  on_message node generation none d = (d, [], [])
  on_message node generation (some (gossip payload)) d =
      if names_sender (F.sender_of payload) node
      then handled d (F.handle_data d.foca payload)
      else (d, [], [])
  on_message node generation (some departure) d = departs node generation d

  unfoldable pub on_incoming : ℕ → ℕ → Bytes → Driver → Handled
  unfolding decode cancel_pending
  on_incoming node generation payload d = on_message node generation (decode payload) d

  unfoldable pub announce : Member → Driver → Handled
  announce seed d =
      if seed.name == d.cluster.local.name then (d, [], []) else handled d (F.announce d.foca seed)

  unfoldable pub announce_seeds : List Member → Driver → Handled
  unfolding announce
  announce_seeds [] d = (d, [], [])
  announce_seeds (m ∷ ms) d =
      let (d', ns, es) = announce m d in
      let (d'', ns', es') = announce_seeds ms d' in (d'', ns ++ ns', es ++ es')

  -- The end of a departure's grace.
  abbrev pub fails : Option Member → ℕ → Driver → Handled
  fails none k d = (d, [], [])
  fails (some m) k d =
      let (cluster, es) = State.member_failed m d.cluster in
      (
        record d {
          cluster = cluster;
          pending_down = Q.remove d.pending_down k;
          pending_keys = Maps.remove m.name d.pending_keys;
        },
        [],
        publish es,
      )

  unfoldable pub turn : Input → Driver → Handled
  unfolding on_incoming announce announce_seeds
  turn (incoming node generation payload) d = on_incoming node generation payload d
  turn (peer_event e) d = let (d', es) = on_peer_event e d in (d', [], es)
  turn (timer t) d = handled d (F.handle_timer d.foca t)
  turn (expired k) d = fails (Q.get d.pending_down k) k d
  turn rejoin_tick d = if F.has_members d.foca then (d, [], []) else announce_seeds d.seeds d
  turn (announce_command seed) d = announce seed d
  turn leave_command d =
      let d' = record d { leaving = true; status = set_status NodeStatus.leaving d.status } in
      let (foca, ns) = F.leave_cluster d'.foca in
      (record d' { foca = foca }, ns, say_goodbye (members d'.cluster))

  -- A turn of the loop, and the `drain` after it.
  unfoldable pub step : Input → Driver → Driver × List Effect
  unfolding turn drain
  step i d = let (d', ns, es) = turn i d in let (d'', fs) = drain ns d' in (d'', es ++ fs)

  abbrev pub ends : Input → Bool
  ends leave_command = true
  ends i = false

  -- The loop, which ends when it is told to leave.
  unfoldable pub run : List Input → Driver → Driver × List Effect
  unfolding step
  run [] d = (d, [])
  run (i ∷ is) d =
      let (d', es) = step i d in
      let (d'', fs) = run is d' in if ends i then (d', es) else (d'', es ++ fs)
