-- ===== src/Distr/Messaging/ActorQueue/Bounded.antt =====
-- receive.rs: what bounds the queues of an actor.
use zestors.Base.{
  ◌≡◌, subst, inl, inr, true, Option, none, some, List, [], ◌∷◌, ◌++◌, length, All, Bool-cases,
}
use zestors.Distr.Messaging.ActorQueue.{
  admit, Work, ActorQueue, Actor, send, route_to, route, take, Step, routes, takes, times_out,
  closes, sweeps, finishes, Reach, start_of, later,
}
use zestors.Distr.Messaging.ActorQueue.Counts.{
  Fits, IsBounded, start-IsBounded, take-IsBounded, push-IsBounded, undone-IsBounded,
}

-- The queues of an actor.
abbrev pub RouteBounded : Option ActorQueue → Type 0
RouteBounded none = Unit
RouteBounded (some a) = IsBounded a

pub record AllBounded (s : Actor) : Type 0 where
  pub current : RouteBounded s.route
  pub earlier : All IsBounded s.older

send-AllBounded :
    (w : Work) (a : ActorQueue) (s : Actor)
    → Fits w
    → IsBounded a
    → AllBounded s
    → (admit (length w.payload) a.queued).1 ≡ true
    → AllBounded (send w (admit (length w.payload) a.queued).0 a s).0
send-AllBounded w a s f b v h = elim (Bool-cases a.closed) [
  | inl shut ↦
      let u = undone-IsBounded a b w f h in
      rw shut (record {
        current = start-IsBounded w f;
        earlier = (
          record {
            messages = u.messages;
            bytes = u.bytes;
            few = u.few;
            small = u.small;
            fits = u.fits;
          },
          v.earlier,
        );
      })
  | inr open' ↦
      let u = push-IsBounded a b w f h in
      rw open' (record {
        current = record {
          messages = u.messages;
          bytes = u.bytes;
          few = u.few;
          small = u.small;
          fits = u.fits;
        };
        earlier = v.earlier;
      })
]

route_to-AllBounded :
    (w : Work) (o : Option ActorQueue) (s : Actor)
    → Fits w
    → RouteBounded o
    → AllBounded s
    → AllBounded (route_to w o s).0
route_to-AllBounded w none s f b v = record { current = start-IsBounded w f; earlier = v.earlier }
route_to-AllBounded w (some a) s f b v = elim (Bool-cases (admit (length w.payload) a.queued).1) [
  | inl room ↦ rw room (send-AllBounded w a s f b v room)
  | inr full ↦ rw full v
]

-- The payloads that are sent fit.
abbrev pub Sends : {s t : Actor} → Step s t → Type 0
Sends (routes w) = Fits w
Sends (takes a w rest e q r) = Unit
Sends (times_out a e q r) = Unit
Sends (closes a e q r) = Unit
Sends (sweeps a e q) = Unit
Sends (finishes xs ys a w rest e q) = Unit

current-IsBounded : (s : Actor) (a : ActorQueue) → AllBounded s → s.route ≡ some a → IsBounded a
current-IsBounded s a v e = subst RouteBounded e v.current

All-middle : (xs ys : List ActorQueue) (a : ActorQueue) → All IsBounded (xs ++ a ∷ ys) → IsBounded a
All-middle [] ys a h = h.0
All-middle (x ∷ xs) ys a h = All-middle xs ys a h.1

All-replace :
    (xs ys : List ActorQueue) (a b : ActorQueue)
    → All IsBounded (xs ++ a ∷ ys)
    → IsBounded b
    → All IsBounded (xs ++ b ∷ ys)
All-replace [] ys a b h k = (k, h.1)
All-replace (x ∷ xs) ys a b h k = (h.0, All-replace xs ys a b h.1 k)

Step-AllBounded : {s t : Actor} (m : Step s t) → Sends m → AllBounded s → AllBounded t
unfolding route
Step-AllBounded {s} (routes w) f v = route_to-AllBounded w s.route s f v.current v
Step-AllBounded {s} (takes a w rest e q r) f v = record {
  current = take-IsBounded a (current-IsBounded s a v e) w rest q;
  earlier = v.earlier;
}
Step-AllBounded {s} (times_out a e q r) f v =
    let b = current-IsBounded s a v e in
    record {
      current = record {
        messages = b.messages;
        bytes = b.bytes;
        few = b.few;
        small = b.small;
        fits = b.fits;
      };
      earlier = v.earlier;
    }
Step-AllBounded {s} (closes a e q r) f v =
    let b = current-IsBounded s a v e in
    record {
      current = record {
        messages = b.messages;
        bytes = b.bytes;
        few = b.few;
        small = b.small;
        fits = b.fits;
      };
      earlier = v.earlier;
    }
Step-AllBounded {s} (sweeps a e q) f v = record {
  current = tt;
  earlier = (current-IsBounded s a v e, v.earlier);
}
Step-AllBounded {s} (finishes xs ys a w rest e q) f v =
    let all : All IsBounded (xs ++ a ∷ ys) = subst (All IsBounded) e v.earlier in
    record {
      current = v.current;
      earlier =
          All-replace xs ys a (take w rest a) all
            (take-IsBounded a (All-middle xs ys a all) w rest q);
    }

abbrev pub AllSend : {s : Actor} → Reach s → Type 0
AllSend start_of = Unit
AllSend (later r m) = AllSend r × Sends m

-- Whatever the router and the tasks do, in any order, each queue of an actor counts its messages and their
-- bytes right, and holds at most 100,000 messages, and at most 16 MiB unless it
-- is a single message. Each payload is shorter than 2 ^ 63.
pub Reach-AllBounded : {s : Actor} (r : Reach s) → AllSend r → AllBounded s
Reach-AllBounded start_of f = record { current = tt; earlier = tt }
Reach-AllBounded (later r m) f = Step-AllBounded m f.1 (Reach-AllBounded r f.0)
