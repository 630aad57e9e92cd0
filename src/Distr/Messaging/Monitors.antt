-- ===== src/Distr/Messaging/Monitors.antt =====
-- crates/distr/src/messaging/monitors.rs, and the operations of ops.rs that use it. A `CancellationToken` is
-- the number of tokens that were made before it.
pub mod Kept
pub mod Waiting
pub mod CalledOff
pub mod Early
use zestors.Base.{
  ℕ, suc, ◌≡◌, Bool, true, false, not, Option, none, some, List, [], ◌∷◌, ◌++◌, ◌==◌, elem,
  if◌then◌else◌,
}
use zestors.External.DashMap.{DashMap}
use zestors.External.HashModels.{pairs}

-- A monitoring node, and the id it gave the monitor.
abbrev pub Key : Type 0
Key = ℕ × ℕ

-- A monitor before its task runs, while it waits for the actor or for its token, after either, and after its
-- entry was removed.
pub data Stage : Type 0 where
  asked : Stage
  waiting : ℕ → Stage
  answered : Stage
  ended : Stage

-- The task that runs a `MonitorOp`.
pub record Monitor : Type 0 where
  pub key : Key
  pub stage : Stage

module _ (D : DashMap pairs ℕ) where
  pub record Monitors : Type 0 where
    pub live : D.Map
    pub next_token : ℕ
    pub cancelled : List ℕ

  unfoldable pub new : Monitors
  new = record { live = D.new; next_token = 0; cancelled = [] }

  unfoldable pub begin : Key → Monitors → Monitors × ℕ
  begin key m = (
    record m { live = D.insert m.live key m.next_token; next_token = suc m.next_token },
    m.next_token,
  )

  unfoldable pub end : Key → Monitors → Monitors
  end key m = record m { live = D.remove m.live key }

  abbrev pub cancel_removed : Key → Option ℕ → Monitors → Monitors
  cancel_removed key none m = m
  cancel_removed key (some token) m = record m {
    live = D.remove m.live key;
    cancelled = token ∷ m.cancelled;
  }

  unfoldable pub cancel : Key → Monitors → Monitors
  cancel key m = cancel_removed key (D.get m.live key) m

  abbrev pub token_if : Bool → Option ℕ → List ℕ → List ℕ
  token_if false o tokens = tokens
  token_if true none tokens = tokens
  token_if true (some token) tokens = token ∷ tokens

  -- The tokens of the entries that the node asked for, in the order of the iteration.
  abbrev pub tokens_of : ℕ → D.Map → List Key → List ℕ
  tokens_of node live [] = []
  tokens_of node live (k ∷ ks) = token_if (k.0 == node) (D.get live k) (tokens_of node live ks)

  unfoldable pub drop_node : ℕ → Monitors → Monitors
  drop_node node m = record m {
    live = D.retain (λ k token. not (k.0 == node)) m.live;
    cancelled = tokens_of node m.live (D.keys m.live) ++ m.cancelled;
  }

  pub record Node : Type 0 where
    pub monitors : Monitors
    pub tasks : List Monitor

  unfoldable pub first_state : Node
  unfolding new
  first_state = record { monitors = new; tasks = [] }

  -- Each operation of a message is a task of its own, and what they do comes in any order.
  pub data Step (s : Node) : Node → Type 0 where
    asks : (key : Key) → Step s (record s { tasks = record { key = key; stage = asked } ∷ s.tasks })
    begins :
        (xs ys : List Monitor) (key : Key)
        → s.tasks ≡ xs ++ record { key = key; stage = asked } ∷ ys
        → Step s (record {
          monitors = (begin key s.monitors).0;
          tasks = xs ++ record { key = key; stage = waiting (begin key s.monitors).1 } ∷ ys;
        })
    reaches :
        (xs ys : List Monitor) (key : Key) (token : ℕ)
        → s.tasks ≡ xs ++ record { key = key; stage = waiting token } ∷ ys
        → Step s (record s { tasks = xs ++ record { key = key; stage = answered } ∷ ys })
    gives_up :
        (xs ys : List Monitor) (key : Key) (token : ℕ)
        → s.tasks ≡ xs ++ record { key = key; stage = waiting token } ∷ ys
        → elem token s.monitors.cancelled ≡ true
        → Step s (record s { tasks = xs ++ record { key = key; stage = answered } ∷ ys })
    ends :
        (xs ys : List Monitor) (key : Key)
        → s.tasks ≡ xs ++ record { key = key; stage = answered } ∷ ys
        → Step s (record {
          monitors = end key s.monitors;
          tasks = xs ++ record { key = key; stage = ended } ∷ ys;
        })
    -- The run of a `DemonitorOp`.
    calls_off : (key : Key) → Step s (record s { monitors = cancel key s.monitors })
    loses : (node : ℕ) → Step s (record s { monitors = drop_node node s.monitors })

  pub data Reach : Node → Type 0 where
    start : Reach first_state
    later : {s t : Node} → Reach s → Step s t → Reach t

  abbrev pub keys_of : List Monitor → List Key
  keys_of [] = []
  keys_of (t ∷ ts) = t.key ∷ keys_of ts
