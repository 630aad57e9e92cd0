-- ===== src/Distr/ClusterTests.antt =====
-- A node comes, gets out of reach, is declared down and fails; generations over a restart and between
-- threads.
use zestors.Base.{ℕ, ◌≡◌, refl, true, false, Option, none, some, ok, err, List, [], ◌∷◌, All, arith}
use zestors.Base.Maps
use zestors.External.Models.{list_delays}
use zestors.Distr.Bytes.{Bytes}
use zestors.Distr.Links.{PeerEvent}
use zestors.Distr.Cluster.Member.{Member, NodeStatus, up, unreachable, failed}
use zestors.Distr.Cluster.State
use zestors.Distr.Cluster.State.{MemberList, snapshot, contains}
use zestors.Distr.Cluster.Foca.{Foca, OwnedNotification, member_up, member_down, defunct, KeepsAddr}
use zestors.Distr.Cluster.Replay.{Shows, observe_all, AllNews, IsWellFormed}
use zestors.Distr.Cluster.Replay.Run.{view_of, new-IsWellFormed}
use zestors.Distr.Cluster.Driver.{
  Driver, Input, incoming, peer_event, timer, expired, leave_command, new, notify, suspect, turn,
  step, drain, run, on_peer_event,
}
use zestors.Distr.Cluster.Driver.Tracks.{
  Tracks, Suspecting, suspects, suspects_turned, suspects_drained, notify-Suspecting,
  step-Suspecting, run-new-Tracks,
}
use zestors.Distr.Cluster.Driver.Follows.{events_of, run-Shows}
use zestors.Distr.Cluster.Driver.Restart.{Restarted, restart_of, restart-Restarted}
use zestors.Distr.Cluster.Driver.Suspects.{new-Agree}
use zestors.Distr.Cluster.Generation.{holds, IoError, pick}
use zestors.Distr.Cluster.Generation.Growth.{Call, results, Grows, results-Grows}
use zestors.Distr.Cluster.Generation.Threads.{
  Thread, loading, trying, Process, first_state, exchange, load, succeed, Reach, here, later,
  Descends, Reach-Descends, become,
}

abbrev node : ℕ → ℕ → Member
node name generation = record { name = name; addr = 1; generation = generation }

abbrev told : Bytes → List OwnedNotification
told [] = []
told (b ∷ bs) = member_up (node b 1) ∷ []

abbrev first_byte : Bytes → Option ℕ
first_byte [] = none
first_byte (b ∷ bs) = some b

told-KeepsAddr : (d : Bytes) → All KeepsAddr (told d)
told-KeepsAddr [] = tt
told-KeepsAddr (b ∷ bs) = (tt, tt)

-- A protocol that takes a packet for an announcement of its sender, and a timer for the end of a node.
abbrev simple : Foca
simple = record {
  State = Unit {0};
  handle_data = λ f d. (f, told d);
  handle_timer = λ f t. (f, member_down (node t 1) ∷ []);
  announce = λ f m. (f, []);
  leave_cluster = λ f. (f, defunct ∷ []);
  has_members = λ f. false;
  sender_of = first_byte;
  keeps_handle_data = λ f d. told-KeepsAddr d;
  keeps_handle_timer = λ f t. (tt, tt);
  keeps_announce = λ f m. tt;
  keeps_leave_cluster = λ f. (tt, tt);
}

abbrev first_list : MemberList
first_list = record { local = node 0 1; members = []; unreachable = [] }

abbrev started : Driver simple (list_delays Member)
started = record {
  foca = tt;
  cluster = first_list;
  status = NodeStatus.up;
  seeds = [];
  grace = 5;
  leaving = false;
  pending_down = [];
  pending_keys = [];
}

abbrev inputs : List Input
inputs =
    incoming 7 1 (1 ∷ 7 ∷ [])
    ∷ peer_event (PeerEvent.unreachable 7)
    ∷ timer 7
    ∷ expired 0
    ∷ leave_command
    ∷ []

first_list-IsWellFormed : IsWellFormed first_list
unfolding State.new
first_list-IsWellFormed = new-IsWellFormed (node 0 1)

story :
    events_of (run simple (list_delays Member) inputs started).1
    ≡ up (node 7 1) ∷ unreachable (node 7 1) ∷ failed (node 7 1) ∷ []
unfolding run on_peer_event Maps.get Maps.insert Maps.remove Maps.include Maps.without Maps.values
    State.member_up State.member_unreachable State.member_failed State.contains State.set_status
    State.members
story = refl

run-Shows_example :
    Shows
      (observe_all
        (view_of (snapshot first_list))
        (events_of (run simple (list_delays Member) inputs started).1))
      (run simple (list_delays Member) inputs started).0.cluster
    × AllNews
        (view_of (snapshot first_list))
        (events_of (run simple (list_delays Member) inputs started).1)
run-Shows_example = run-Shows simple (list_delays Member) inputs started first_list-IsWellFormed

run-new-Tracks_example :
    Tracks simple
      (list_delays Member)
      (run simple
        (list_delays Member)
        inputs
        (new simple (list_delays Member) tt first_list NodeStatus.up [] 5)).0
run-new-Tracks_example =
    run-new-Tracks simple (list_delays Member) tt first_list NodeStatus.up [] 5 inputs

-- With node 7 a member.
abbrev joined : Driver simple (list_delays Member)
joined = record started { cluster = record first_list { members = (7, node 7 1) ∷ [] } }

joined-Tracks : Tracks simple (list_delays Member) joined
joined-Tracks = new-Agree (list_delays Member)

-- The timer of node 7 makes foca declare it down.
step-Suspecting_example :
    Suspecting simple (list_delays Member) (step simple (list_delays Member) (timer 7) joined).0 (
      suspects_drained simple
        (list_delays Member)
        (turn simple (list_delays Member) (timer 7) joined).1
        (turn simple (list_delays Member) (timer 7) joined).0
        (suspects_turned simple
          (list_delays Member)
          (timer 7)
          joined
          (suspects simple (list_delays Member) joined)))
step-Suspecting_example = step-Suspecting simple (list_delays Member) (timer 7) joined joined-Tracks

joined-contains : contains (node 7 1) joined.cluster ≡ true
unfolding contains Maps.get
joined-contains = refl

-- Node 7 is declared down, and is back while its grace runs.
abbrev down : Driver simple (list_delays Member)
down = (drain simple (list_delays Member) (member_down (node 7 1) ∷ []) joined).0

down-Tracks : Tracks simple (list_delays Member) down
unfolding drain
down-Tracks =
    (notify-Suspecting simple (list_delays Member) (member_down (node 7 1)) joined
      joined-Tracks).tracks

down-contains : contains (node 7 1) down.cluster ≡ true
unfolding drain notify suspect contains Maps.get
down-contains = refl

restart-Restarted_example :
    Restarted simple
      (list_delays Member)
      (node 7 1)
      (node 7 2)
      (drain simple (list_delays Member) (restart_of (node 7 1) (node 7 2) true) down)
restart-Restarted_example =
    restart-Restarted simple (list_delays Member) (node 7 1) (node 7 2) down true down-Tracks
      down-contains

-- A restart, a clock that went back, and a write that failed.
abbrev calls : List Call
calls =
    record { restarted = true; now = 100; writes = true }
    ∷ record { restarted = true; now = 50; writes = false }
    ∷ record { restarted = false; now = 60; writes = true }
    ∷ []

generations : (results calls 0 (holds 90) ≡ ok 100 ∷ err IoError.other ∷ ok 102 ∷ [])
unfolding results pick
generations = refl

results-Grows_example : Grows 90 (results calls 0 (holds 90))
results-Grows_example =
    results-Grows calls 0 (holds 90) (omega arith, (omega arith, (omega arith, tt))) (omega arith)

-- Two threads, of which the second is faster.
abbrev two : ℕ → Thread
two i = loading 0

abbrev both_loaded : Process
both_loaded = record (first_state two) {
  thread = become (become two 0 (trying 0 0)) 1 (trying 0 0);
}

abbrev second_got : Process
second_got = exchange 1 0 9 both_loaded

raced : Reach (first_state two) second_got
raced =
    later (later (later here (load 0 0 refl)) (load 1 0 refl))
      (succeed 1 0 0 9 refl refl (omega arith))

Reach-Descends_example : Descends second_got.handed
Reach-Descends_example = Reach-Descends two raced
