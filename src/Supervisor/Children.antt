-- ===== src/Supervisor/Children.antt =====
-- crates/supervisor/src/actor/map.rs: the supervisees under their names, in the order of their start.
pub mod Lookup
pub mod Edits
pub mod Loops
pub mod Starts
use zestors.Base.{
  ℕ, ◌≡◌, Bool, true, false, Option, none, some, Result, ok, err, Run, returns, panics, ◌>>=◌,
  expect, List, [], ◌∷◌, if◌then◌else◌,
}
use zestors.Supervision.Config.{ChildSpec, ChildDescription}
use zestors.Supervisor.Supervisee.{Supervisee, get_description, start, stop, is_shutting_down}
use zestors.Supervisor.Supervisee
use zestors.Supervisor.Crates.{Crates}

pub record SuperviseeMap (X : Crates) : Type 0 where
  pub mapping : X.entries.Map
  pub supervisees : X.streams.Streams

abbrev is_taken : Option (Option ℕ) → Bool
is_taken (some (some t)) = true
is_taken _ = false

abbrev pub names_of : List Supervisee → List ℕ
names_of [] = []
names_of (s ∷ ss) = s.spec.name ∷ names_of ss

abbrev descriptions_of : List Supervisee → List ChildDescription
descriptions_of [] = []
descriptions_of (s ∷ ss) = get_description s ∷ descriptions_of ss

module _ (X : Crates) where
  -- The token that a name has, if it is there and its entry is not empty.
  abbrev pub token_of : SuperviseeMap X → ℕ → Option ℕ
  token_of m k = elim (X.entries.get m.mapping k) [ none ↦ none | some t ↦ t ]

  abbrev pub store : SuperviseeMap X → Supervisee → SuperviseeMap X
  store m s =
      let (t, streams) = X.streams.insert m.supervisees s in
      record { mapping = X.entries.insert m.mapping s.spec.name (some t); supervisees = streams }

  unfoldable pub empty : SuperviseeMap X
  empty = record { mapping = X.entries.new; supervisees = X.streams.new }

  -- `SuperviseeMap::new`. Unlike `add` it does not look for a name that is there already.
  unfoldable pub new_from : SuperviseeMap X → List ChildSpec → SuperviseeMap X
  unfolding Supervisee.new
  new_from m [] = m
  new_from m (spec ∷ specs) = new_from (store m (Supervisee.new spec)) specs

  -- `get_mut(token).unwrap()`, and the write through it.
  unfoldable pub get_mut : SuperviseeMap X → ℕ → Run (Option Supervisee)
  get_mut m k = elim (token_of m k) [
    | none ↦ returns none
    | some t ↦ (expect (X.streams.get m.supervisees t) >>= λ s. returns (some s))
  ]

  unfoldable pub put : SuperviseeMap X → ℕ → Supervisee → SuperviseeMap X
  put m k s = elim (token_of m k) [
    | none ↦ m
    | some t ↦ record m { supervisees = X.streams.set m.supervisees t s }
  ]

  unfoldable pub remove : SuperviseeMap X → ℕ → Run (SuperviseeMap X × Option Supervisee)
  remove m k = elim (token_of m k) [
    | none ↦ returns (m, none)
    | some t ↦
        let (removed, streams) = X.streams.take m.supervisees t in
        (expect removed >>= λ s.
        returns
          (record { mapping = X.entries.insert m.mapping k none; supervisees = streams }, some s))
  ]

  -- `Err` is `DuplicateNameError`, with the name.
  unfoldable pub add : SuperviseeMap X → Supervisee → Result (SuperviseeMap X) ℕ
  add m s =
      if is_taken (X.entries.get m.mapping s.spec.name) then err s.spec.name else ok (store m s)

  -- The iterators over `supervisees()` that the three below are made of.
  unfoldable pub collect : SuperviseeMap X → List ℕ → Run (List Supervisee)
  collect m [] = returns []
  collect m (k ∷ ks) = get_mut m k >>= λ found.
      (collect m ks >>= λ rest. returns (elim found [ none ↦ rest | some s ↦ s ∷ rest ]))

  unfoldable pub names : SuperviseeMap X → Run (List ℕ)
  unfolding collect
  names m = collect m (X.entries.keys m.mapping) >>= λ ss. returns (names_of ss)

  unfoldable pub child_descriptions : SuperviseeMap X → Run (List ChildDescription)
  unfolding collect
  child_descriptions m = collect m (X.entries.keys m.mapping) >>= λ ss. returns (descriptions_of ss)

  -- `Err` names the supervisee that is shutting down.
  unfoldable pub start_each : List ℕ → SuperviseeMap X → Run (SuperviseeMap X × Result (Unit {0}) ℕ)
  start_each [] m = returns (m, ok tt)
  start_each (k ∷ ks) m = get_mut m k >>= λ found. elim found [
    | none ↦ start_each ks m
    | some s ↦ elim (start s).1 [
      | err e ↦ returns (put m k (start s).0, err k)
      | ok begun ↦ start_each ks (put m k (start s).0)
    ]
  ]

  unfoldable pub start_all : SuperviseeMap X → Run (SuperviseeMap X × Result (Unit {0}) ℕ)
  unfolding start_each
  start_all m = start_each (X.entries.keys m.mapping) m

  -- The names of those still alive afterwards.
  unfoldable pub stop_each : List ℕ → SuperviseeMap X → Run (SuperviseeMap X × List ℕ)
  stop_each [] m = returns (m, [])
  stop_each (k ∷ ks) m = get_mut m k >>= λ found. elim found [
    | none ↦ stop_each ks m
    | some s ↦
        (stop_each ks (put m k (stop s).0) >>= λ (m', waiting).
        returns (m', if is_shutting_down (stop s).1 then k ∷ waiting else waiting))
  ]

  unfoldable pub stop_all : SuperviseeMap X → Run (SuperviseeMap X × List ℕ)
  unfolding stop_each
  stop_all m = stop_each (X.entries.keys m.mapping) m
