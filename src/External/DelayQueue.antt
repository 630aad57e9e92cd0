-- ===== src/External/DelayQueue.antt =====
-- `tokio_util::time::DelayQueue<A>` as a store of values under keys. Which value expires, and when, is for
-- the caller to say.
use zestors.Base.{ℕ, ◌≡◌, Option, none, some, ◌==◌, if◌then◌else◌}

pub record DelayQueue (A : Type 0) : Type 1 where
  pub Queue : Type 0
  pub new : Queue
  pub insert : Queue → A → ℕ → ℕ × Queue
  pub get : Queue → ℕ → Option A
  -- `try_remove`, and what `poll_expired` does to the value that it returns.
  pub remove : Queue → ℕ → Queue
  pub get-new : (k : ℕ) → get new k ≡ none
  -- The key of an insertion is in no other use.
  pub insert-fresh : (q : Queue) (a : A) (delay : ℕ) → get q (insert q a delay).0 ≡ none
  pub get-insert :
      (q : Queue) (a : A) (delay k : ℕ)
      → get (insert q a delay).1 k ≡ (if (insert q a delay).0 == k then some a else get q k)
  pub get-remove : (q : Queue) (k j : ℕ) → get (remove q k) j ≡ (if k == j then none else get q j)
