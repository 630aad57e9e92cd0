-- ===== src/Distr/Cluster/Generation.antt =====
-- crates/distr/src/cluster/generation.rs: the number that tells the incarnations of a node apart.
pub mod Growth
pub mod Threads
use zestors.Base.{
  ℕ, ◌+◌, ◌-◌, ◌^◌, ◌≡◌, ◌≢◌, max, min, Bool, true, false, Option, none, some, Result, ok, err,
  List, [], ◌∷◌, ◌==◌, if◌then◌else◌,
}

abbrev pub u64_max : ℕ
u64_max = 18446744073709551615

abbrev saturating_add : ℕ → ℕ → ℕ
saturating_add a b = min (a + b) u64_max

-- The current time, unless that is not past the floor.
unfoldable pub pick : ℕ → ℕ → ℕ
pick now floor = max now (saturating_add floor 1)

-- What is in the store's place: nothing, the text of a number, another text, or nothing that can be read.
pub data File : Type 0 where
  missing : File
  holds : ℕ → File
  garbled unreadable : File

pub data IoError : Type 0 where
  invalid_data other : IoError

unfoldable pub read : File → Result ℕ IoError
read missing = ok 0
read (holds generation) = ok generation
read garbled = err invalid_data
read unreadable = err other

unfoldable pub read_store : Option File → Result ℕ IoError
unfolding read
read_store none = ok 0
read_store (some file) = read file

-- What the loop has for `last` after the compare-and-exchanges that failed, each of which found a value.
abbrev pub last_found : ℕ → List ℕ → ℕ
last_found last [] = last
last_found last (current ∷ more) = last_found current more

-- `LAST` and the store after a call, and what it returns. `writes` is whether the write of the store
-- succeeds; the write is in one step, so that a failed one leaves the store as it was.
pub record Called : Type 0 where
  pub last : ℕ
  pub store : Option File
  pub result : Result ℕ IoError

abbrev recorded : Bool → ℕ → Option File → Called
recorded writes g none = record { last = g; store = none; result = ok g }
recorded true g (some file) = record { last = g; store = some (holds g); result = ok g }
recorded false g (some file) = record { last = g; store = some file; result = err other }

abbrev next_from : Result ℕ IoError → Bool → ℕ → List ℕ → ℕ → Option File → Called
next_from (err e) writes now failed last store = record {
  last = last;
  store = store;
  result = err e;
}
next_from (ok stored) writes now failed last store =
    recorded writes (pick now (max (last_found last failed) stored)) store

unfoldable pub next : Bool → ℕ → List ℕ → ℕ → Option File → Called
unfolding read_store pick
next writes now failed last store = next_from (read_store store) writes now failed last store
