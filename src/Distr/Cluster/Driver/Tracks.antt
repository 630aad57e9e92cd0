-- ===== src/Distr/Cluster/Driver/Tracks.antt =====
-- crates/distr/src/cluster/membership/driver.rs: which nodes wait out their grace, whatever comes.
use zestors.Base.{
  ℕ, ◌≡◌, inl, inr, refl, ap, ◌∙◌, Option, none, some, List, [], ◌∷◌, ◌==◌, if◌then◌else◌,
  Bool-cases,
}
use zestors.Base.Maps
use zestors.External.DelayQueue.{DelayQueue}
use zestors.Distr.Cluster.Member.{Member, NodeStatus}
use zestors.Distr.Cluster.State.{MemberList, contains, member_left}
use zestors.Distr.Cluster.Foca.{
  Foca, OwnedNotification, member_up, member_down, rename, rejoin, active, idle, defunct,
}
use zestors.Distr.Cluster.Driver.{
  Driver, Message, gossip, departure, decode, cancel_pending, suspect, notify, drain, on_incoming,
  on_message, names_sender, ends, cancel_left, announce, announce_seeds, fails, turn, step, run,
  Input, incoming, peer_event, timer, expired, rejoin_tick, announce_command, leave_command,
  on_peer_event, new,
}
use zestors.Distr.Links.{PeerEvent}
use zestors.Distr.Cluster.Driver.Suspects.{
  Agree, pending, new-Agree, dropped-Agree, dropped-pending, suspected-Agree, suspected-pending,
  cancelled-Agree, cancelled-pending,
}

module _ (F : Foca) (Q : DelayQueue Member) where
  abbrev pub Tracks : Driver F Q → Type 0
  Tracks d = Agree Q d.pending_down d.pending_keys

  -- The incarnation of a node that was declared down and is not reported yet.
  abbrev pub suspects : Driver F Q → ℕ → Option Member
  suspects d n = pending Q d.pending_down d.pending_keys n

  -- What a notification means for the suspects.
  abbrev pub suspects_after :
      OwnedNotification → MemberList → (ℕ → Option Member) → ℕ → Option Member
  suspects_after (member_up m) s f = λ n. if m.name == n then none else f n
  suspects_after (member_down m) s f =
      if contains m s then (λ n. if m.name == n then some m else f n) else f
  suspects_after (rename before after) s f = λ n. if before.name == n then none else f n
  suspects_after other s f = f

  -- The map of suspects, kept by a state in which the queue and the keys agree.
  pub record Suspecting (d : Driver F Q) (f : ℕ → Option Member) : Type 0 where
    pub tracks : Tracks d
    pub same : (n : ℕ) → suspects d n ≡ f n

  cancel_pending-Suspecting :
      (n : ℕ) (d : Driver F Q)
      → Tracks d
      → Suspecting (cancel_pending F Q n d) (λ j. if n == j then none else suspects d j)
  unfolding cancel_pending
  cancel_pending-Suspecting n d a = record {
    tracks = cancelled-Agree Q d.pending_down d.pending_keys a n (Maps.get n d.pending_keys) refl;
    same = λ j.
        cancelled-pending Q d.pending_down d.pending_keys a n j (Maps.get n d.pending_keys) refl;
  }

  -- Of the notifications, that an incarnation that is a member is down makes it the one suspect of its name,
  -- that one is up or was replaced takes the suspect of its name away, and no other changes the suspects.
  pub notify-Suspecting :
      (n : OwnedNotification) (d : Driver F Q)
      → Tracks d
      → Suspecting (notify F Q n d).0 (suspects_after n d.cluster (suspects d))
  unfolding notify
  notify-Suspecting (member_up m) d a =
      let c = cancel_pending-Suspecting m.name d a in record { tracks = c.tracks; same = c.same }
  notify-Suspecting (member_down m) d a = elim (Bool-cases (contains m d.cluster)) [
    | inl known ↦ rw known (suspect-Suspecting)
    | inr other ↦ rw other (record { tracks = a; same = λ n. refl })
  ]
    where
      suspect-Suspecting :
          Suspecting (suspect F Q m d) (λ j. if m.name == j then some m else suspects d j)
      suspect-Suspecting = record {
        tracks =
            suspected-Agree Q d.pending_down d.pending_keys a m d.grace
              (Maps.get m.name d.pending_keys) refl;
        same = suspected-pending Q d.pending_down d.pending_keys a m d.grace;
      }
  notify-Suspecting (rename before after) d a =
      let c = cancel_pending-Suspecting before.name d a in
      record { tracks = c.tracks; same = c.same }
  notify-Suspecting (rejoin m) d a = record { tracks = a; same = λ n. refl }
  notify-Suspecting active d a = record { tracks = a; same = λ n. refl }
  notify-Suspecting idle d a = record { tracks = a; same = λ n. refl }
  notify-Suspecting defunct d a = elim (Bool-cases d.leaving) [
    | inl yes' ↦ rw yes' (record { tracks = a; same = λ n. refl })
    | inr no' ↦ rw no' (record { tracks = a; same = λ n. refl })
  ]

  stays : (d : Driver F Q) → Tracks d → Suspecting d (suspects d)
  stays d a = record { tracks = a; same = λ n. refl }

  announce-Suspecting :
      (m : Member) (d : Driver F Q) → Tracks d → Suspecting (announce F Q m d).0 (suspects d)
  unfolding announce
  announce-Suspecting m d a = elim (Bool-cases (m.name == d.cluster.local.name)) [
    | inl own ↦ rw own (stays d a)
    | inr other ↦ rw other (record { tracks = a; same = λ n. refl })
  ]

  announce_seeds-Suspecting :
      (ms : List Member) (d : Driver F Q)
      → Tracks d
      → Suspecting (announce_seeds F Q ms d).0 (suspects d)
  unfolding announce_seeds
  announce_seeds-Suspecting [] d a = stays d a
  announce_seeds-Suspecting (m ∷ ms) d a =
      let one = announce-Suspecting m d a in
      let rest = announce_seeds-Suspecting ms (announce F Q m d).0 one.tracks in
      record { tracks = rest.tracks; same = λ n. rest.same n ∙ one.same n }

  -- The suspects without the node of a member.
  abbrev pub without_node : Option Member → (ℕ → Option Member) → ℕ → Option Member
  without_node none f = f
  without_node (some m) f = λ n. if m.name == n then none else f n

  -- The member that leaves by a message.
  abbrev pub left_by : ℕ → ℕ → Option Message → MemberList → Option Member
  left_by node generation none s = none
  left_by node generation (some (gossip payload)) s = none
  left_by node generation (some departure) s = (member_left node generation s).1

  -- What a turn means for the suspects, before its notifications.
  abbrev pub suspects_turned : Input → Driver F Q → (ℕ → Option Member) → ℕ → Option Member
  suspects_turned (incoming node generation payload) d f =
      without_node (left_by node generation (decode payload) d.cluster) f
  suspects_turned (expired k) d f = without_node (Q.get d.pending_down k) f
  suspects_turned i d f = f

  cancel_left-Suspecting :
      (o : Option Member) (d : Driver F Q)
      → Tracks d
      → Suspecting (cancel_left F Q o d) (without_node o (suspects d))
  cancel_left-Suspecting none d a = stays d a
  cancel_left-Suspecting (some m) d a = cancel_pending-Suspecting m.name d a

  on_message-Suspecting :
      (node generation : ℕ) (o : Option Message) (d : Driver F Q)
      → Tracks d
      → Suspecting
          (on_message F Q node generation o d).0
          (without_node (left_by node generation o d.cluster) (suspects d))
  on_message-Suspecting node generation none d a = stays d a
  on_message-Suspecting node generation (some (gossip payload)) d a =
      elim (Bool-cases (names_sender F Q (F.sender_of payload) node)) [
        | inl named ↦ rw named (record { tracks = a; same = λ n. refl })
        | inr other ↦ rw other (stays d a)
      ]
  on_message-Suspecting node generation (some departure) d a =
      let r = member_left node generation d.cluster in
      let c = cancel_left-Suspecting r.1 (record d { cluster = r.0 }) a in
      record { tracks = c.tracks; same = c.same }

  fails-Suspecting :
      (k : ℕ) (o : Option Member) (d : Driver F Q)
      → Q.get d.pending_down k ≡ o
      → Tracks d
      → Suspecting (fails F Q o k d).0 (without_node o (suspects d))
  fails-Suspecting k none d e a = stays d a
  fails-Suspecting k (some m) d e a = record {
    tracks = dropped-Agree Q d.pending_down d.pending_keys a k m e;
    same = λ n. dropped-pending Q d.pending_down d.pending_keys a k m n e;
  }

  on_peer_event-Suspecting :
      (e : PeerEvent) (d : Driver F Q)
      → Tracks d
      → Suspecting (on_peer_event F Q e d).0 (suspects d)
  unfolding on_peer_event
  on_peer_event-Suspecting (PeerEvent.unreachable n) d a = record { tracks = a; same = λ n. refl }
  on_peer_event-Suspecting (PeerEvent.reachable n) d a = record { tracks = a; same = λ n. refl }
  on_peer_event-Suspecting (PeerEvent.disconnected n g) d a = stays d a

  -- Of the turns of the loop, a departure whose grace is over and a goodbye of a member in its
  -- generation take that node's suspect away, and no other turn changes the suspects.
  pub turn-Suspecting :
      (i : Input) (d : Driver F Q)
      → Tracks d
      → Suspecting (turn F Q i d).0 (suspects_turned i d (suspects d))
  unfolding turn on_incoming
  turn-Suspecting (incoming node generation payload) d a =
      on_message-Suspecting node generation (decode payload) d a
  turn-Suspecting (peer_event e) d a = on_peer_event-Suspecting e d a
  turn-Suspecting (timer t) d a = record { tracks = a; same = λ n. refl }
  turn-Suspecting (expired k) d a = fails-Suspecting k (Q.get d.pending_down k) d refl a
  turn-Suspecting rejoin_tick d a = elim (Bool-cases (F.has_members d.foca)) [
    | inl some' ↦ rw some' (stays d a)
    | inr none' ↦ rw none' (announce_seeds-Suspecting d.seeds d a)
  ]
  turn-Suspecting (announce_command seed) d a = announce-Suspecting seed d a
  turn-Suspecting leave_command d a = record { tracks = a; same = λ n. refl }

  -- What the notifications of a turn mean for the suspects.
  abbrev pub suspects_drained :
      List OwnedNotification → Driver F Q → (ℕ → Option Member) → ℕ → Option Member
  suspects_drained [] d f = f
  suspects_drained (n ∷ ns) d f =
      suspects_drained ns (notify F Q n d).0 (suspects_after n d.cluster f)

  after-≡ :
      (n : OwnedNotification) (s : MemberList) (f g : ℕ → Option Member)
      → ((j : ℕ) → f j ≡ g j)
      → (j : ℕ) → suspects_after n s f j ≡ suspects_after n s g j
  after-≡ (member_up m) s f g h j = ap (λ o. if m.name == j then none else o) (h j)
  after-≡ (member_down m) s f g h j = elim (Bool-cases (contains m s)) [
    | inl known ↦ rw known (ap (λ o. if m.name == j then some m else o) (h j))
    | inr other ↦ rw other (h j)
  ]
  after-≡ (rename before after) s f g h j = ap (λ o. if before.name == j then none else o) (h j)
  after-≡ (rejoin m) s f g h j = h j
  after-≡ active s f g h j = h j
  after-≡ idle s f g h j = h j
  after-≡ defunct s f g h j = h j

  drained-≡ :
      (ns : List OwnedNotification) (d : Driver F Q) (f g : ℕ → Option Member)
      → ((j : ℕ) → f j ≡ g j)
      → (j : ℕ) → suspects_drained ns d f j ≡ suspects_drained ns d g j
  drained-≡ [] d f g h j = h j
  drained-≡ (n ∷ ns) d f g h j =
      drained-≡ ns (notify F Q n d).0 (suspects_after n d.cluster f) (suspects_after n d.cluster g)
        (after-≡ n d.cluster f g h) j

  drain-Suspecting :
      (ns : List OwnedNotification) (d : Driver F Q)
      → Tracks d
      → Suspecting (drain F Q ns d).0 (suspects_drained ns d (suspects d))
  unfolding drain
  drain-Suspecting [] d a = record { tracks = a; same = λ j. refl }
  drain-Suspecting (n ∷ ns) d a =
      let one = notify-Suspecting n d a in
      let rest = drain-Suspecting ns (notify F Q n d).0 one.tracks in
      record {
        tracks = rest.tracks;
        same = λ j. rest.same j ∙ drained-≡ ns (notify F Q n d).0 _ _ one.same j;
      }

  -- A step of the driver changes the suspects only so: a departure whose grace is over and a goodbye of a
  -- member in its generation take the suspect of that node away; and then, in the order of foca's
  -- notifications, that an incarnation that is a member is down makes it the one suspect of its name, and
  -- that one is up or was replaced takes the suspect of its name away. The queue of departures and the table
  -- of its keys, which agree before, agree after.
  pub step-Suspecting :
      (i : Input) (d : Driver F Q)
      → Tracks d
      → Suspecting
          (step F Q i d).0
          (suspects_drained (turn F Q i d).1 (turn F Q i d).0 (suspects_turned i d (suspects d)))
  unfolding step
  step-Suspecting i d a =
      let one = turn-Suspecting i d a in
      let rest = drain-Suspecting (turn F Q i d).1 (turn F Q i d).0 one.tracks in
      record {
        tracks = rest.tracks;
        same = λ j. rest.same j ∙ drained-≡ (turn F Q i d).1 (turn F Q i d).0 _ _ one.same j;
      }

  pub step-Tracks : (i : Input) (d : Driver F Q) → Tracks d → Tracks (step F Q i d).0
  step-Tracks i d a = (step-Suspecting i d a).tracks

  run-Tracks : (is : List Input) (d : Driver F Q) → Tracks d → Tracks (run F Q is d).0
  unfolding run
  run-Tracks [] d a = a
  run-Tracks (i ∷ is) d a =
      let one = step-Tracks i d a in
      let rest = run-Tracks is (step F Q i d).0 one in
      elim (Bool-cases (ends F Q i)) [ inl last' ↦ rw last' one | inr more ↦ rw more rest ]

  -- From the start, and whatever comes, the queue of departures and the table of its keys agree: each key
  -- leads to a departure of its node, and each departure in the queue is found by its node, so that
  -- there is at most one for a node and it can be cancelled.
  pub run-new-Tracks :
      (foca : F.State) (s : MemberList) (status : NodeStatus) (seeds : List Member) (grace : ℕ)
      (is : List Input)
      → Tracks (run F Q is (new F Q foca s status seeds grace)).0
  unfolding new
  run-new-Tracks foca s status seeds grace is =
      run-Tracks is (new F Q foca s status seeds grace) (new-Agree Q)
