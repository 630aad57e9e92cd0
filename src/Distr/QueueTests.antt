-- ===== src/Distr/QueueTests.antt =====
-- What waits for an actor, and how often and in which order it is taken.
use zestors.Base.{All, ◌==◌, ℕ, ◌≡◌, refl, ◌++◌, true, false, none, some, List, [], ◌∷◌, arith}
use zestors.Distr.Messaging.ActorQueue.{
  admit, default, Work, Actor, start, route, release, routes, takes, Reach, start_of, later,
  actor_queue_bytes,
}
use zestors.Distr.Messaging.ActorQueue.Bounded.{AllBounded, Reach-AllBounded}
use zestors.Distr.Messaging.ActorQueue.Order.{routed, accepted, waiting, Reach-order}
use zestors.Distr.Messaging.ActorQueue.Overtaken.{overtaken}
use zestors.Distr.Messaging.ActorQueue.Once.{in_actor, count, Reach-in_actor}
use zestors.Distr.Messaging.ActorQueue.Drains.{After, Reach-drains}

large_message_is_let_in : (admit 100000000 default).1 ≡ true
unfolding admit
large_message_is_let_in = refl

full_bytes_refuse : (admit 1 (record { messages = 1; bytes = actor_queue_bytes })).1 ≡ false
unfolding admit
full_bytes_refuse = refl

abbrev work : ℕ → Work
work n = record { from = 0; msg = n; requests = []; payload = n ∷ []; call_id = none }

abbrev with_queue : List Work → ℕ → List Work → Actor
with_queue ws n taken = record {
  route = some (record {
    queue = ws;
    queued = record { messages = n; bytes = n };
    timed_out = false;
    closed = false;
  });
  older = [];
  processed = taken;
}

-- The first message is taken before the second one arrives.
taken_one : Reach (with_queue [] 0 (work 1 ∷ []))
unfolding route start admit release
taken_one = later (later start_of (routes (work 1))) (takes _ (work 1) [] refl refl refl)

abbrev waits_one : Reach (route (work 2) (with_queue [] 0 (work 1 ∷ []))).0
waits_one = later taken_one (routes (work 2))

Reach-AllBounded_example : AllBounded (route (work 2) (with_queue [] 0 (work 1 ∷ []))).0
unfolding taken_one
Reach-AllBounded_example = Reach-AllBounded waits_one (((tt, omega arith), tt), omega arith)

Reach-order_example :
    (route (work 2) (with_queue [] 0 (work 1 ∷ []))).0.processed
      ++ waiting (route (work 2) (with_queue [] 0 (work 1 ∷ []))).0.route
    ≡ accepted waits_one
unfolding taken_one
Reach-order_example = Reach-order waits_one ((tt, tt), refl)

overtaken_example :
    (s : Actor) × (r : Reach s) × (routed r ≡ routed taken_one ++ work 2 ∷ [] ++ work 3 ∷ [])
    × (s.processed ≡ work 1 ∷ [] ++ work 3 ∷ [] ++ work 2 ∷ [])
overtaken_example = overtaken [] (work 1 ∷ []) (work 2) (work 3) (omega arith) taken_one

Reach-in_actor_example :
    in_actor (λ w. w.msg == 2) (route (work 2) (with_queue [] 0 (work 1 ∷ []))).0
    ≡ count (λ w. w.msg == 2) (accepted waits_one)
Reach-in_actor_example = Reach-in_actor (λ w. w.msg == 2) waits_one

Reach-drains_example :
    (t : Actor) × (r : Reach t) × After waits_one t r
    × (waiting t.route ≡ [])
    × All (λ a. a.queue ≡ []) t.older
Reach-drains_example = Reach-drains waits_one
