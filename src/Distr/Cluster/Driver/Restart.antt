-- ===== src/Distr/Cluster/Driver/Restart.antt =====
-- crates/distr/src/cluster/membership/driver.rs: what is reported of a node that comes back.
use zestors.Base.{
  ℕ, ◌≡◌, ◌≢◌, refl, sym, ap, ◌∙◌, Bool, true, false, Option, none, some, List, [], ◌∷◌, ◌++◌, ◌==◌,
  if◌then◌else◌, arith,
}
use zestors.Base.Maps
use zestors.Distr.Cluster.State
use zestors.External.DelayQueue.{DelayQueue}
use zestors.Distr.Cluster.Member.{Member, is_member, ClusterEvent}
use zestors.Distr.Cluster.State.{MemberList, contains}
use zestors.Distr.Cluster.Foca.{Foca, OwnedNotification, member_up, rename}
use zestors.Distr.Cluster.Driver.{Driver, cancel_pending, notify, drain, forgets, published, Effect}
use zestors.Distr.Cluster.Driver.Suspects.{at_key}
use zestors.Distr.Cluster.Driver.Tracks.{Tracks, suspects, notify-Suspecting}

-- What foca reports of a node that is back: that it was replaced, and that it is up again if the earlier
-- incarnation had been declared down.
abbrev pub restart_of : Member → Member → Bool → List OwnedNotification
restart_of m m' was_down = rename m m' ∷ (if was_down then member_up m' ∷ [] else [])

module _ (F : Foca) (Q : DelayQueue Member) where
  replaced :
      (m m' : Member) (d : Driver F Q)
      → contains m d.cluster ≡ true
      → (notify F Q (rename m m') d).0.cluster.members ≡ Maps.insert m'.name m' d.cluster.members
  unfolding notify State.member_renamed cancel_pending contains
  replaced m m' d h = rw h refl

  replaced_events :
      (m m' : Member) (d : Driver F Q)
      → contains m d.cluster ≡ true
      → (notify F Q (rename m m') d).1
        ≡ forgets m.name m.generation
          ∷ published (ClusterEvent.failed m)
          ∷ published (ClusterEvent.up m')
          ∷ []
  unfolding notify State.member_renamed cancel_pending contains
  replaced_events m m' d h = rw h refl

  is_up :
      (m : Member) (members : List (ℕ × Member)) (o : Option Member)
      → Maps.get m.name (Maps.insert m.name m members) ≡ o
      → is_member o m ≡ true
  is_up m members o e = ground (arith, Maps.get-insert members m.name m m.name)

  -- A report that a node is up which is listed already.
  known_up :
      (m : Member) (d : Driver F Q)
      → contains m d.cluster ≡ true
      → ((notify F Q (member_up m) d).1 ≡ [])
        × ((notify F Q (member_up m) d).0.cluster.members ≡ Maps.insert m.name m d.cluster.members)
  unfolding notify State.member_up cancel_pending contains
  known_up m d h = (rw h refl, rw h refl)

  contains-inserted :
      (m : Member) (d d' : Driver F Q)
      → d'.cluster.members ≡ Maps.insert m.name m d.cluster.members
      → contains m d'.cluster ≡ true
  unfolding contains
  contains-inserted m d d' e =
      ap (λ ms. is_member (Maps.get m.name ms) m) e ∙ is_up m d.cluster.members _ refl

  -- What is left after the reports of a node that is back.
  pub record Restarted (m m' : Member) (r : Driver F Q × List Effect) : Type 0 where
    pub events :
        r.1
        ≡ forgets m.name m.generation
          ∷ published (ClusterEvent.failed m)
          ∷ published (ClusterEvent.up m')
          ∷ []
    pub listed : contains m' r.0.cluster ≡ true
    pub tracks : Tracks F Q r.0
    pub no_departure : (k : ℕ) (x : Member) → Q.get r.0.pending_down k ≡ some x → x.name ≢ m.name

  no_suspect :
      (n : ℕ) (d : Driver F Q)
      → Tracks F Q d
      → suspects F Q d n ≡ none
      → (k : ℕ) (x : Member) → Q.get d.pending_down k ≡ some x
      → x.name ≢ n
  no_suspect n d a none' k x e = λ same.
      let key : Maps.get n d.pending_keys ≡ some k =
        ap (λ j. Maps.get j d.pending_keys) (sym same) ∙ a.leads_back k x e in
      let clash : none ≡ some x = sym none' ∙ ap (at_key Q d.pending_down) key ∙ e in cc

  cleared : (n : ℕ) (o : Option Member) → (if n == n then none else o) ≡ none
  cleared n o = ground arith

  either : (n j : ℕ) (o : Option Member) → o ≡ none → (if n == j then none else o) ≡ none
  either n j o e = ground arith

  -- When foca reports that a listed node was replaced by another incarnation, and, if the earlier one had been
  -- declared down, that the new one is up, then the earlier one is reported as failed and the new one as up, each
  -- once, whether the grace of the earlier one runs or not; the new one is listed, and no departure of the node
  -- waits any more to be reported. The queue of departures and the table of its keys agree before.
  pub restart-Restarted :
      (m m' : Member) (d : Driver F Q) (was_down : Bool)
      → Tracks F Q d
      → contains m d.cluster ≡ true
      → Restarted m m' (drain F Q (restart_of m m' was_down) d)
  unfolding drain
  restart-Restarted m m' d false a h =
      let one = notify-Suspecting F Q (rename m m') d a in
      let d1 = (notify F Q (rename m m') d).0 in
      record {
        events = ap (λ es. es ++ []) (replaced_events m m' d h);
        listed = contains-inserted m' d d1 (replaced m m' d h);
        tracks = one.tracks;
        no_departure =
            no_suspect m.name d1 one.tracks
              (one.same m.name ∙ cleared m.name (suspects F Q d m.name));
      }
  restart-Restarted m m' d true a h =
      let one = notify-Suspecting F Q (rename m m') d a in
      let d1 = (notify F Q (rename m m') d).0 in
      let two = notify-Suspecting F Q (member_up m') d1 one.tracks in
      let up = known_up m' d1 (contains-inserted m' d d1 (replaced m m' d h)) in
      record {
        events =
            ap (λ es. es ++ ((notify F Q (member_up m') d1).1 ++ [])) (replaced_events m m' d h)
            ∙ ap
                (λ es.
                  forgets m.name m.generation
                  ∷ published (ClusterEvent.failed m)
                  ∷ published (ClusterEvent.up m')
                  ∷ (es ++ []))
                up.0;
        listed = contains-inserted m' d1 (notify F Q (member_up m') d1).0 up.1;
        tracks = two.tracks;
        no_departure = no_suspect m.name (notify F Q (member_up m') d1).0 two.tracks (
            two.same m.name
            ∙ either m'.name m.name (suspects F Q d1 m.name)
                (one.same m.name ∙ cleared m.name (suspects F Q d m.name)));
      }
