-- ===== src/Distr/Messaging/ActorQueue/Overtaken.antt =====
-- receive.rs: a message that arrives when the wait of a task has just ended.
use zestors.Base.{
  ◌≡◌, refl, ap, true, false, some, List, [], ◌∷◌, ◌++◌, length, arith, ◌+◌, ◌≤◌, ltb,
}
use zestors.Distr.Messaging.ActorQueue.{
  Queued, admit, release, Work, ActorQueue, Actor, start, route, routes, takes, times_out, closes,
  finishes, Reach, later, default, actor_queue_bytes,
}
use zestors.Distr.Messaging.ActorQueue.Order.{routed}

-- An actor whose task waits for a message.
abbrev waits : ActorQueue
waits = record { queue = []; queued = default; timed_out = false; closed = false }

abbrev pub idle : List ActorQueue → List Work → Actor
idle older taken = record { route = some waits; older = older; processed = taken }

-- The queue that its task closes too late.
abbrev left_with : Work → Queued → ActorQueue
left_with w q = record { queue = w ∷ []; queued = q; timed_out = true; closed = true }

one : Work → Queued
unfolding admit
one w = (admit (length w.payload) default).0

abbrev behind : Work → List ActorQueue → List Work → Actor
behind w older taken = record {
  route = some (left_with w (one w));
  older = older;
  processed = taken;
}

-- There is room for a second message, but the queue is closed.
starts_anew :
    (older : List ActorQueue) (taken : List Work) (w1 w2 : Work)
    → length w1.payload + length w2.payload ≤ actor_queue_bytes
    → (route w2 (behind w1 older taken)).0 ≡ record {
      route = some (start w2);
      older =
          left_with w1 (release (length w2.payload) (admit (length w2.payload) (one w1)).0) ∷ older;
      processed = taken;
    }
unfolding route admit one
starts_anew older taken w1 w2 h =
    let fits : ltb actor_queue_bytes (0 + length w1.payload + length w2.payload) ≡ false =
      ground arith in
    let room' : (admit (length w2.payload) (one w1)).1 ≡ true = rw fits refl in rw room' refl

-- Whenever a task waits for a message, its wait can end just before one arrives, so that the message is in a
-- queue that is closed when the next one arrives, and the task that is started for the next one takes it
-- first. The two messages together are at most 16 MiB.
pub overtaken :
    (older : List ActorQueue) (taken : List Work) (w1 w2 : Work)
    → length w1.payload + length w2.payload ≤ actor_queue_bytes
    → (r : Reach (idle older taken))
    → (s : Actor) × (r' : Reach s) × (routed r' ≡ routed r ++ w1 ∷ [] ++ w2 ∷ [])
      × (s.processed ≡ taken ++ w2 ∷ [] ++ w1 ∷ [])
unfolding route start admit one
overtaken older taken w1 w2 h r =
    let idles = later r (times_out waits refl refl refl) in
    let first = later idles (routes w1) in
    let shut = later first (closes _ refl refl refl) in
    let second = later shut (routes w2) in
    let new = starts_anew older taken w1 w2 h in
    let ahead = later second (takes (start w2) w2 [] (ap (λ s. s.route) new) refl refl) in
    let last = later ahead (finishes [] older _ w1 [] (ap (λ s. s.older) new) refl) in
    (_, last, refl, ap (λ s. s.processed ++ w2 ∷ [] ++ w1 ∷ []) new)
