-- ===== src/Distr/Cluster/Driver/Follows.antt =====
-- crates/distr/src/cluster/membership/driver.rs: what the driver publishes, whatever comes.
use zestors.Base.{
  ℕ, ◌≡◌, inl, inr, refl, ap, Option, none, some, List, [], ◌∷◌, ◌++◌, ◌==◌, Bool-cases, All,
  All-append,
}
use zestors.External.DelayQueue.{DelayQueue}
use zestors.Distr.Cluster.Member.{Member, ClusterEvent}
use zestors.Distr.Cluster.State.{MemberList, contains, snapshot}
use zestors.Distr.Cluster.State
use zestors.Distr.Cluster.Foca.{
  Foca, OwnedNotification, member_up, member_down, rename, rejoin, active, idle, defunct, KeepsAddr,
}
use zestors.Distr.Cluster.Replay.{
  Change, came, failing, lost_contact, found_again, said_goodbye, replaced, set_to, apply,
  IsWellFormed, View, observe_all, Shows, Followed, AllNews,
}
use zestors.Distr.Cluster.Replay.Mutators.{apply-Followed}
use zestors.Distr.Cluster.Replay.Run.{then-Followed, view_of, view_of-Shows}
use zestors.Distr.Cluster.Driver.{
  Driver, Message, gossip, departure, decode, cancel_pending, suspect, notify, drain, on_incoming,
  on_message, cancel_left, announce, announce_seeds, fails, turn, step, run, Input, incoming,
  peer_event, timer, expired, rejoin_tick, announce_command, leave_command, on_peer_event, Handled,
  Effect, published, queued, forgets, publish, say_goodbye, names_sender, ends,
}
use zestors.Distr.Links.{PeerEvent}

-- The events among the effects.
abbrev pub events_of : List Effect → List ClusterEvent
events_of [] = []
events_of (published e ∷ es) = e ∷ events_of es
events_of (queued m msg ∷ es) = events_of es
events_of (forgets n g ∷ es) = events_of es

events_of-append : (es fs : List Effect) → events_of (es ++ fs) ≡ events_of es ++ events_of fs
events_of-append [] fs = refl
events_of-append (published e ∷ es) fs = ap (λ l. e ∷ l) (events_of-append es fs)
events_of-append (queued m msg ∷ es) fs = events_of-append es fs
events_of-append (forgets n g ∷ es) fs = events_of-append es fs

events_of-publish : (es : List ClusterEvent) → events_of (publish es) ≡ es
events_of-publish [] = refl
events_of-publish (e ∷ es) = ap (λ l. e ∷ l) (events_of-publish es)

events_of-say_goodbye : (ms : List Member) → events_of (say_goodbye ms) ≡ []
events_of-say_goodbye [] = refl
events_of-say_goodbye (m ∷ ms) = events_of-say_goodbye ms

module _ (F : Foca) (Q : DelayQueue Member) where
  -- A subscriber with that view follows.
  abbrev pub Follows : View → Driver F Q × List Effect → Type 0
  Follows v r = Followed v (r.0.cluster, events_of r.1)

  module _ (v : View) where
    stays : (d : Driver F Q) → IsWellFormed d.cluster → Shows v d.cluster → Follows v (d, [])
    stays d w sh = record { well = w; shows = sh; news = tt }

    -- A change of the list, published as it is.
    changes :
        (s : MemberList) (c : Change) (d : Driver F Q)
        → Followed v (apply c s)
        → d.cluster ≡ (apply c s).0
        → Follows v (d, publish (apply c s).1)
    changes s c d f e = rw (events_of-publish (apply c s).1, e) f

    notify-Follows :
        (n : OwnedNotification) (d : Driver F Q)
        → KeepsAddr n
        → IsWellFormed d.cluster
        → Shows v d.cluster
        → Follows v (notify F Q n d)
    unfolding notify apply suspect cancel_pending
    notify-Follows (member_up m) d k w sh =
        changes d.cluster (came m) (notify F Q (member_up m) d).0
          (apply-Followed v d.cluster w sh (came m) tt) refl
    notify-Follows (member_down m) d k w sh = elim (Bool-cases (contains m d.cluster)) [
      | inl known ↦ rw known (record { well = w; shows = sh; news = tt })
      | inr other ↦ rw other (record { well = w; shows = sh; news = tt })
    ]
    notify-Follows (rename b a) d k w sh =
        changes d.cluster (replaced b a) (notify F Q (rename b a) d).0
          (apply-Followed v d.cluster w sh (replaced b a) k) refl
    notify-Follows (rejoin m) d k w sh = apply-Followed v d.cluster w sh (set_to m) tt
    notify-Follows active d k w sh = stays d w sh
    notify-Follows idle d k w sh = stays d w sh
    notify-Follows defunct d k w sh = elim (Bool-cases d.leaving) [
      | inl yes' ↦ rw yes' (stays d w sh)
      | inr no' ↦ rw no' (record { well = w; shows = sh; news = tt })
    ]

    on_peer_event-Follows :
        (e : PeerEvent) (d : Driver F Q)
        → IsWellFormed d.cluster
        → Shows v d.cluster
        → Follows v (on_peer_event F Q e d)
    unfolding on_peer_event apply
    on_peer_event-Follows (PeerEvent.unreachable n) d w sh =
        changes d.cluster (lost_contact n) (on_peer_event F Q (PeerEvent.unreachable n) d).0
          (apply-Followed v d.cluster w sh (lost_contact n) tt) refl
    on_peer_event-Follows (PeerEvent.reachable n) d w sh =
        changes d.cluster (found_again n) (on_peer_event F Q (PeerEvent.reachable n) d).0
          (apply-Followed v d.cluster w sh (found_again n) tt) refl
    on_peer_event-Follows (PeerEvent.disconnected n g) d w sh = stays d w sh

    -- What a turn hands on: it follows, and foca's notifications keep their promise.
    pub record Handles (h : Handled F Q) : Type 0 where
      pub follows : Follows v (h.0, h.2)
      pub keeps : All KeepsAddr h.1

    announce-Handles :
        (m : Member) (d : Driver F Q)
        → IsWellFormed d.cluster
        → Shows v d.cluster
        → Handles (announce F Q m d)
          × ((announce F Q m d).0.cluster ≡ d.cluster)
          × ((announce F Q m d).2 ≡ [])
    unfolding announce
    announce-Handles m d w sh = elim (Bool-cases (m.name == d.cluster.local.name)) [
      | inl own ↦ rw own (record { follows = stays d w sh; keeps = tt }, refl, refl)
      | inr other ↦
          rw other
            (record { follows = stays d w sh; keeps = F.keeps_announce d.foca m }, refl, refl)
    ]

    announce_seeds-Handles :
        (ms : List Member) (d : Driver F Q)
        → IsWellFormed d.cluster
        → Shows v d.cluster
        → Handles (announce_seeds F Q ms d)
    unfolding announce_seeds
    announce_seeds-Handles [] d w sh = record { follows = stays d w sh; keeps = tt }
    announce_seeds-Handles (m ∷ ms) d w sh =
        let (one, same, nothing) = announce-Handles m d w sh in
        let rest = announce_seeds-Handles ms (announce F Q m d).0 (rw same w) (rw same sh) in
        record {
          follows = rw nothing rest.follows;
          keeps =
              All-append KeepsAddr (announce F Q m d).1
                (announce_seeds F Q ms (announce F Q m d).0).1 one.keeps rest.keeps;
        }

    cancel_left-cluster :
        (o : Option Member) (d : Driver F Q) → (cancel_left F Q o d).cluster ≡ d.cluster
    unfolding cancel_pending
    cancel_left-cluster none d = refl
    cancel_left-cluster (some m) d = refl

    on_message-Handles :
        (node generation : ℕ) (o : Option Message) (d : Driver F Q)
        → IsWellFormed d.cluster
        → Shows v d.cluster
        → Handles (on_message F Q node generation o d)
    unfolding apply
    on_message-Handles node generation none d w sh = record { follows = stays d w sh; keeps = tt }
    on_message-Handles node generation (some (gossip payload)) d w sh =
        elim (Bool-cases (names_sender F Q (F.sender_of payload) node)) [
          | inl named ↦
              rw named
                (record { follows = stays d w sh; keeps = F.keeps_handle_data d.foca payload })
          | inr other ↦ rw other (record { follows = stays d w sh; keeps = tt })
        ]
    on_message-Handles node generation (some departure) d w sh =
        let c = said_goodbye node generation in
        let r = apply c d.cluster in
        record {
          follows =
              changes d.cluster c (on_message F Q node generation (some departure) d).0
                (apply-Followed v d.cluster w sh c tt)
                (cancel_left-cluster (State.member_left node generation d.cluster).1
                  (record d { cluster = r.0 }));
          keeps = tt;
        }

    fails-Handles :
        (k : ℕ) (o : Option Member) (d : Driver F Q)
        → IsWellFormed d.cluster
        → Shows v d.cluster
        → Handles (fails F Q o k d)
    unfolding apply
    fails-Handles k none d w sh = record { follows = stays d w sh; keeps = tt }
    fails-Handles k (some m) d w sh = record {
      follows =
          changes d.cluster (failing m) (fails F Q (some m) k d).0
            (apply-Followed v d.cluster w sh (failing m) tt) refl;
      keeps = tt;
    }

    turn-Handles :
        (i : Input) (d : Driver F Q)
        → IsWellFormed d.cluster
        → Shows v d.cluster
        → Handles (turn F Q i d)
    unfolding turn on_incoming
    turn-Handles (incoming node generation payload) d w sh =
        on_message-Handles node generation (decode payload) d w sh
    turn-Handles (peer_event e) d w sh = record {
      follows = on_peer_event-Follows e d w sh;
      keeps = tt;
    }
    turn-Handles (timer t) d w sh = record {
      follows = stays d w sh;
      keeps = F.keeps_handle_timer d.foca t;
    }
    turn-Handles (expired k) d w sh = fails-Handles k (Q.get d.pending_down k) d w sh
    turn-Handles rejoin_tick d w sh = elim (Bool-cases (F.has_members d.foca)) [
      | inl some' ↦ rw some' (record { follows = stays d w sh; keeps = tt })
      | inr none' ↦ rw none' (announce_seeds-Handles d.seeds d w sh)
    ]
    turn-Handles (announce_command seed) d w sh = (announce-Handles seed d w sh).0
    turn-Handles leave_command d w sh = record {
      follows =
          rw (events_of-say_goodbye (State.members d.cluster))
            (record { well = w; shows = sh; news = tt });
      keeps = F.keeps_leave_cluster d.foca;
    }

  after-Follows :
      (v : View) (d d' : Driver F Q) (es fs : List Effect)
      → Follows v (d, es)
      → Follows (observe_all v (events_of es)) (d', fs)
      → Follows v (d', es ++ fs)
  after-Follows v d d' es fs one rest =
      rw (events_of-append es fs)
        (then-Followed v d.cluster d'.cluster (events_of es) (events_of fs) one rest)

  drain-Follows :
      (v : View) (ns : List OwnedNotification) (d : Driver F Q)
      → All KeepsAddr ns
      → IsWellFormed d.cluster
      → Shows v d.cluster
      → Follows v (drain F Q ns d)
  unfolding drain
  drain-Follows v [] d k w sh = stays v d w sh
  drain-Follows v (n ∷ ns) d k w sh =
      let r = notify F Q n d in
      let one = notify-Follows v n d k.0 w sh in
      after-Follows v r.0 (drain F Q ns r.0).0 r.1 (drain F Q ns r.0).1 one
        (drain-Follows (observe_all v (events_of r.1)) ns r.0 k.1 one.well one.shows)

  pub step-Follows :
      (v : View) (i : Input) (d : Driver F Q)
      → IsWellFormed d.cluster
      → Shows v d.cluster
      → Follows v (step F Q i d)
  unfolding step
  step-Follows v i d w sh =
      let h = turn F Q i d in
      let one = turn-Handles v i d w sh in
      after-Follows v h.0 (drain F Q h.1 h.0).0 h.2 (drain F Q h.1 h.0).1 one.follows (
        drain-Follows (observe_all v (events_of h.2)) h.1 h.0 one.keeps one.follows.well
          one.follows.shows)

  run-Follows :
      (v : View) (is : List Input) (d : Driver F Q)
      → IsWellFormed d.cluster
      → Shows v d.cluster
      → Follows v (run F Q is d)
  unfolding run
  run-Follows v [] d w sh = stays v d w sh
  run-Follows v (i ∷ is) d w sh =
      let r = step F Q i d in
      let one = step-Follows v i d w sh in
      let rest = run-Follows (observe_all v (events_of r.1)) is r.0 one.well one.shows in
      elim (Bool-cases (ends F Q i)) [
        | inl last' ↦ rw last' one
        | inr more ↦
            rw more (after-Follows v r.0 (run F Q is r.0).0 r.1 (run F Q is r.0).1 one rest)
      ]

  -- A subscriber that takes a snapshot of the driver's list and follows the events knows, whatever
  -- messages, reports, timers, ended graces, seeds and commands come and whatever foca makes of them,
  -- exactly the members and the unreachable nodes that the list has after them; and every event was
  -- news to it. The list is well-formed when the snapshot is taken.
  pub run-Shows :
      (is : List Input) (d : Driver F Q)
      → IsWellFormed d.cluster
      → Shows
          (observe_all (view_of (snapshot d.cluster)) (events_of (run F Q is d).1))
          (run F Q is d).0.cluster
        × AllNews (view_of (snapshot d.cluster)) (events_of (run F Q is d).1)
  run-Shows is d w =
      let f = run-Follows (view_of (snapshot d.cluster)) is d w (view_of-Shows d.cluster w) in
      (f.shows, f.news)
