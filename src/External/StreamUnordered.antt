-- ===== src/External/StreamUnordered.antt =====
-- `streamunordered::StreamUnordered<A>` as a store of streams under tokens.
use zestors.Base.{ℕ, ◌≡◌, Option, none, some, ◌==◌, if◌then◌else◌}

pub record StreamUnordered (A : Type 0) : Type 1 where
  pub Streams : Type 0
  pub new : Streams
  pub insert : Streams → A → ℕ × Streams
  pub get : Streams → ℕ → Option A
  -- A write through `get_mut`.
  pub set : Streams → ℕ → A → Streams
  pub take : Streams → ℕ → Option A × Streams
  pub get-new : (t : ℕ) → get new t ≡ none
  -- The token of an insertion is in no other use.
  pub insert-fresh : (s : Streams) (a : A) → get s (insert s a).0 ≡ none
  pub get-insert :
      (s : Streams) (a : A) (t : ℕ)
      → get (insert s a).1 t ≡ (if (insert s a).0 == t then some a else get s t)
  pub get-set :
      (s : Streams) (t : ℕ) (a b : A) (u : ℕ)
      → get s t ≡ some b
      → get (set s t a) u ≡ (if t == u then some a else get s u)
  pub take-get : (s : Streams) (t : ℕ) → (take s t).0 ≡ get s t
  pub get-take : (s : Streams) (t u : ℕ) → get (take s t).1 u ≡ (if t == u then none else get s u)
