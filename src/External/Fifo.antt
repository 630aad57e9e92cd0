-- ===== src/External/Fifo.antt =====
-- `concurrent_queue::ConcurrentQueue`, unbounded and never closed, as crates/runtime uses it.
use zestors.Base.{ℕ, ◌≡◌, Option, none, some, List, [], ◌∷◌, ◌++◌, length}

pub record Fifo (A : Type 0) : Type 1 where
  pub Queue : Type 0
  pub unbounded : Queue
  pub push : Queue → A → Queue
  pub pop : Queue → Option (A × Queue)
  pub len : Queue → ℕ
  -- What the queue holds, oldest first.
  pub contents : Queue → List A
  pub contents-unbounded : contents unbounded ≡ []
  pub contents-push : (q : Queue) (a : A) → contents (push q a) ≡ contents q ++ a ∷ []
  pub len-contents : (q : Queue) → len q ≡ length (contents q)
  pub pop-empty : (q : Queue) → contents q ≡ [] → pop q ≡ none
  pub pop-cons :
      (q : Queue) (a : A) (as' : List A)
      → contents q ≡ a ∷ as'
      → (q' : Queue) × (pop q ≡ some (a, q')) × (contents q' ≡ as')
