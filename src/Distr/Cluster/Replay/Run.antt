-- ===== src/Distr/Cluster/Replay/Run.antt =====
-- A subscriber that has a snapshot and gets the events after it.
use zestors.Base.{
  ℕ, ◌≡◌, refl, subst, sym, All, Option, none, some, List, [], ◌∷◌, ◌++◌, elem, ◌==◌, if◌then◌else◌,
  arith,
}
use zestors.Base.Maps
use zestors.Base.Maps.{
  is_some, include, without, get-insert, get-remove, elem-include, elem-without, Entries,
  Entries-insert, Entries-remove, Entries-get, Entries-empty,
}
use zestors.Distr.Cluster.Member.{Member, ClusterEvent, ClusterSnapshot}
use zestors.Distr.Cluster.State.{MemberList, snapshot, new}
use zestors.Distr.Cluster.Replay.{
  Change, apply, run, IsWellFormed, View, observe, observe_all, Shows, AllNews, KeepsName, Followed,
}
use zestors.Distr.Cluster.Replay.Mutators.{apply-Followed}

abbrev find_named : ℕ → List Member → Option Member
find_named n [] = none
find_named n (m ∷ ms) = if m.name == n then some m else find_named n ms

-- What a subscriber knows from a snapshot.
abbrev pub view_of : ClusterSnapshot → View
view_of s = record {
  member_at = λ n. find_named n s.members;
  out_of_reach = λ n. elem n s.unreachable;
}

find_named-values :
    (ms : List (ℕ × Member)) (n : ℕ)
    → Entries (λ k m. m.name ≡ k) ms
    → find_named n (Maps.values ms) ≡ Maps.get n ms
unfolding Maps.get Maps.values Entries
find_named-values [] n e = refl
find_named-values ((k, m) ∷ ms) n e = ground (arith, find_named-values ms n)

pub view_of-Shows : (s : MemberList) → IsWellFormed s → Shows (view_of (snapshot s)) s
unfolding snapshot
view_of-Shows s w = record {
  same_member = λ n. find_named-values s.members n w.keyed;
  same_contact = λ n. refl;
}

observe_all-append :
    (v : View) (es fs : List ClusterEvent)
    → observe_all v (es ++ fs) ≡ observe_all (observe_all v es) fs
observe_all-append v [] fs = refl
observe_all-append v (e ∷ es) fs = observe_all-append (observe v e) es fs

AllNews-append :
    (v : View) (es fs : List ClusterEvent)
    → AllNews v es
    → AllNews (observe_all v es) fs
    → AllNews v (es ++ fs)
AllNews-append v [] fs a b = b
AllNews-append v (e ∷ es) fs a b = (a.0, AllNews-append (observe v e) es fs a.1 b)

-- One change after another.
pub then-Followed :
    (v : View) (s t : MemberList) (es fs : List ClusterEvent)
    → Followed v (s, es)
    → Followed (observe_all v es) (t, fs)
    → Followed v (t, es ++ fs)
then-Followed v s t es fs one rest = record {
  well = rest.well;
  shows = subst (λ u. Shows u t) (sym (observe_all-append v es fs)) rest.shows;
  news = AllNews-append v es fs one.news rest.news;
}

pub run-Followed :
    (v : View) (s : MemberList) (cs : List Change)
    → IsWellFormed s
    → Shows v s
    → All KeepsName cs
    → Followed v (run cs s)
unfolding run
run-Followed v s [] w sh k = record { well = w; shows = sh; news = tt }
run-Followed v s (c ∷ cs) w sh k =
    let r = apply c s in
    let one = apply-Followed v s w sh c k.0 in
    then-Followed v r.0 (run cs r.0).0 r.1 (run cs r.0).1 one
      (run-Followed (observe_all v r.1) r.0 cs one.well one.shows k.1)

-- A subscriber that starts from the snapshot of a well-formed list and follows the events published
-- after it knows, whatever changes come, exactly the members and the unreachable nodes of the list as
-- it then is: no change is missed and none is counted twice. A node that replaces another must have
-- its name.
pub run-snapshot :
    (s : MemberList) (cs : List Change)
    → IsWellFormed s
    → All KeepsName cs
    → Shows (observe_all (view_of (snapshot s)) (run cs s).1) (run cs s).0
run-snapshot s cs w k = (run-Followed (view_of (snapshot s)) s cs w (view_of-Shows s w) k).shows

pub new-IsWellFormed : (m : Member) → IsWellFormed (new m)
unfolding new
new-IsWellFormed m = record { keyed = Entries-empty (λ k a. a.name ≡ k); known = λ n h. cc }

-- Whatever changes come to a new cluster, every event is news: a node that is reported up is not known
-- in that incarnation; one that is reported left or failed is known in just that incarnation; and
-- reports of a member as unreachable and as reachable alternate. A node that replaces another must
-- have its name.
pub run-AllNews :
    (local : Member) (cs : List Change)
    → All KeepsName cs
    → AllNews (view_of (snapshot (new local))) (run cs (new local)).1
run-AllNews local cs k =
    (run-Followed (view_of (snapshot (new local))) (new local) cs (new-IsWellFormed local)
      (view_of-Shows (new local) (new-IsWellFormed local)) k).news
