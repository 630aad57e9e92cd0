-- ===== src/Distr/Messaging/ActorQueue.antt =====
-- crates/distr/src/messaging/receive.rs: what waits for one actor, the part of the router that puts it there,
-- and the tasks that take it.
pub mod Counts
pub mod Bounded
pub mod Order
pub mod Overtaken
pub mod Once
pub mod Drains
use zestors.Base.{
  ℕ, ◌+◌, ◌-◌, ◌%◌, ◌^◌, ◌≡◌, Bool, true, false, not, ◌&&◌, ◌||◌, Option, none, some, List, [], ◌∷◌,
  ◌++◌, length, ltb, leb, if◌then◌else◌,
}
use zestors.Distr.Bytes.{Bytes}

abbrev pub actor_queue_messages : ℕ
actor_queue_messages = 100000

abbrev pub actor_queue_bytes : ℕ
actor_queue_bytes = 16777216

pub record Queued : Type 0 where
  pub messages : ℕ
  pub bytes : ℕ

abbrev pub default : Queued
default = record { messages = 0; bytes = 0 }

unfoldable pub admit : ℕ → Queued → Queued × Bool
admit len q =
    if ltb 0 q.messages
      && (leb actor_queue_messages q.messages || ltb actor_queue_bytes (q.bytes + len))
    then (q, false)
    else (record { messages = q.messages + 1; bytes = q.bytes + len }, true)

-- `fetch_sub` wraps.
unfoldable pub release : ℕ → Queued → Queued
release len q = record {
  messages = (q.messages + 2 ^ 64 - 1) % 2 ^ 64;
  bytes = (q.bytes + 2 ^ 64 - len) % 2 ^ 64;
}

pub record Work : Type 0 where
  pub from : ℕ
  pub msg : ℕ
  pub requests : List ℕ
  pub payload : Bytes
  pub call_id : Option ℕ

-- `ActorQueue`, with what is in the channel, and whether its task has waited in vain for a message and
-- whether it has closed the channel since.
pub record ActorQueue : Type 0 where
  pub queue : List Work
  pub queued : Queued
  pub timed_out : Bool
  pub closed : Bool

-- The queue in the router's table, those that earlier tasks still finish, and what was processed.
pub record Actor : Type 0 where
  pub route : Option ActorQueue
  pub older : List ActorQueue
  pub processed : List Work

-- The ids that wait for an answer to a message.
abbrev answers : Work → List ℕ
answers w = waiting w.call_id w.requests
  where
    waiting : Option ℕ → List ℕ → List ℕ
    waiting none ids = ids
    waiting (some id) ids = id ∷ ids

-- A new queue with one message, and its task.
unfoldable pub start : Work → ActorQueue
unfolding admit
start w = record {
  queue = w ∷ [];
  queued = (admit (length w.payload) default).0;
  timed_out = false;
  closed = false;
}

abbrev pub send : Work → Queued → ActorQueue → Actor → Actor × List ℕ
send w queued a s =
    if a.closed
    then (
      record s {
        route = some (start w);
        older = record a { queued = release (length w.payload) queued } ∷ s.older;
      },
      [],
    )
    else (record s { route = some (record a { queue = a.queue ++ w ∷ []; queued = queued }) }, [])

abbrev pub route_to : Work → Option ActorQueue → Actor → Actor × List ℕ
route_to w none s = (record s { route = some (start w) }, [])
route_to w (some a) s =
    let (queued, room) = admit (length w.payload) a.queued in
    if not room then (s, answers w) else send w queued a s

-- A message that waits for its turn. It returns the ids that are answered as overloaded.
unfoldable pub route : Work → Actor → Actor × List ℕ
unfolding admit release start
route w s = route_to w s.route s

-- A task takes its next message.
abbrev pub take : Work → List Work → ActorQueue → ActorQueue
take w rest a = record a { queue = rest; queued = release (length w.payload) a.queued }

-- What the router and the tasks can do next. Between the end of a task's wait and the closing of its
-- queue the router can still send. The queues that are closed leave the table at any time here, in the code
-- when it has 1024 actors.
pub data Step (s : Actor) : Actor → Type 0 where
  routes : (w : Work) → Step s (route w s).0
  takes :
      (a : ActorQueue) (w : Work) (rest : List Work)
      → s.route ≡ some a
      → a.queue ≡ w ∷ rest
      → a.timed_out ≡ a.closed
      → Step s (record s { route = some (take w rest a); processed = s.processed ++ w ∷ [] })
  times_out :
      (a : ActorQueue)
      → s.route ≡ some a
      → a.queue ≡ []
      → a.timed_out ≡ false
      → Step s (record s { route = some (record a { timed_out = true }) })
  closes :
      (a : ActorQueue)
      → s.route ≡ some a
      → a.timed_out ≡ true
      → a.closed ≡ false
      → Step s (record s { route = some (record a { closed = true }) })
  sweeps :
      (a : ActorQueue)
      → s.route ≡ some a
      → a.closed ≡ true
      → Step s (record s { route = none; older = a ∷ s.older })
  finishes :
      (xs ys : List ActorQueue) (a : ActorQueue) (w : Work) (rest : List Work)
      → s.older ≡ xs ++ a ∷ ys
      → a.queue ≡ w ∷ rest
      → Step s (record s { older = xs ++ take w rest a ∷ ys; processed = s.processed ++ w ∷ [] })

abbrev pub first_state : Actor
first_state = record { route = none; older = []; processed = [] }

pub data Reach : Actor → Type 0 where
  start_of : Reach first_state
  later : {s t : Actor} → Reach s → Step s t → Reach t
