-- ===== src/Supervisor/Children/Loops.antt =====
-- The loops over the map: listing the names, starting all, and stopping all.
use zestors.Base.{
  ℕ, ◌≡◌, refl, inl, inr, Bool, true, false, ◌&&◌, Option, none, some, returns, List, [], ◌∷◌, elem,
  if◌then◌else◌, Option-cases, arith,
}
use zestors.External.IndexMap.{is_some}
use zestors.Supervisor.Supervisee.{Supervisee, stop, is_shutting_down}
use zestors.Supervision.Config.{ChildDescription}
use zestors.Supervisor.Crates.{Crates}
use zestors.Supervisor.Children.{
  SuperviseeMap, child_descriptions, descriptions_of, put, collect, names_of, names, stop_each,
  stop_all,
}
use zestors.Supervisor.Children.Lookup.{
  IsWellFormed, child, get_mut-child, child-put, put-IsWellFormed, child-name,
}

-- What stopping makes of a supervisee that may be there, and whether its exit is still to come.
abbrev pub stopped : Option Supervisee → Option Supervisee
stopped none = none
stopped (some s) = some (stop s).0

abbrev pub waits : Option Supervisee → Bool
waits none = false
waits (some s) = is_shutting_down (stop s).1

-- Stopping twice is stopping once.
stopped_twice :
    (o : Option Supervisee) → (stopped (stopped o) ≡ stopped o) × (waits (stopped o) ≡ waits o)
unfolding stop
stopped_twice o = ground arith

stop-name : (s : Supervisee) → (stop s).0.spec.name ≡ s.spec.name
unfolding stop
stop-name s = refl

module _ (X : Crates) where
  -- A name that is there is one of the keys.
  pub elem-keys-child :
      (m : SuperviseeMap X) (j : ℕ) {s : Supervisee}
      → child X m j ≡ some s
      → elem j (X.entries.keys m.mapping) ≡ true
  unfolding child
  elem-keys-child m j h = ground (arith, X.entries.elem-keys m.mapping j)

  Collects : SuperviseeMap X → List ℕ → Type 0
  Collects m ks =
      (ss : List Supervisee) × (collect X m ks ≡ returns ss)
      × ((j : ℕ) → elem j (names_of ss) ≡ (elem j ks && is_some (child X m j)))

  collect-Collects : (m : SuperviseeMap X) (ks : List ℕ) → IsWellFormed X m → Collects m ks
  unfolding Collects collect
  collect-Collects m [] w = ([], refl, λ j. refl)
  collect-Collects m (k ∷ ks) w =
      let (ss, e, named) = collect-Collects m ks w in
      let found = get_mut-child X m k w in
      elim (Option-cases (child X m k)) [
        | inl absent ↦ (ss, ground (arith, found), λ j. ground (arith, named j))
        | inr (s, there) ↦ (
          s ∷ ss,
          ground (arith, found),
          λ j. ground (arith, named j, child-name X m k s w there),
        )
      ]

  Stops : SuperviseeMap X → List ℕ → Type 0
  Stops m ks =
      (m' : SuperviseeMap X) × (waiting : List ℕ) × (stop_each X ks m ≡ returns (m', waiting))
      × IsWellFormed X m'
      × ((j : ℕ) → child X m' j ≡ (if elem j ks then stopped (child X m j) else child X m j))
      × ((j : ℕ) → elem j waiting ≡ (elem j ks && waits (child X m j)))

  stop_each-Stops : (ks : List ℕ) (m : SuperviseeMap X) → IsWellFormed X m → Stops m ks
  unfolding Stops stop_each
  stop_each-Stops [] m w = (m, [], refl, w, λ j. refl, λ j. refl)
  stop_each-Stops (k ∷ ks) m w = elim (Option-cases (child X m k)) [
    | inl absent ↦
        let (m', waiting, e, w', after, waits') = stop_each-Stops ks m w in
        (
          m',
          waiting,
          ground (arith, get_mut-child X m k w),
          w',
          λ j. ground (arith, after j),
          λ j. ground (arith, waits' j),
        )
    | inr (s, there) ↦
        let named = child-name X m k s w there in
        let s' = (stop s).0 in
        let named' : s'.spec.name ≡ k = ground (arith, stop-name s) in
        let m1 = put X m k s' in
        let (m', waiting, e, w', after, waits') =
          stop_each-Stops ks m1 (put-IsWellFormed X m k s' w named') in
        (
          m',
          if is_shutting_down (stop s).1 then k ∷ waiting else waiting,
          ground (arith, get_mut-child X m k w),
          w',
          λ j.
              ground
                (arith, after j, child-put X m k s' w named' j there, stopped_twice (child X m j)),
          λ j.
              ground
                (arith, waits' j, child-put X m k s' w named' j there, stopped_twice (child X m j)),
        )
  ]

  -- In a well-formed map the names are listed without a panic, and are exactly those with a supervisee.
  pub names-child :
      (m : SuperviseeMap X)
      → IsWellFormed X m
      → (ks : List ℕ) × (names X m ≡ returns ks) × ((j : ℕ) → elem j ks ≡ is_some (child X m j))
  unfolding names Collects
  names-child m w =
      let (ss, e, named) = collect-Collects m (X.entries.keys m.mapping) w in
      (
        names_of ss,
        ground (arith, e),
        λ j. elim (Option-cases (child X m j)) [
          | inl absent ↦ ground (arith, named j)
          | inr (s, there) ↦ ground (arith, named j, elem-keys-child m j there)
        ],
      )

  -- Stopping all panics nowhere in a well-formed map, and stops each supervisee once; the names it
  -- returns are those whose exit is still to come.
  pub stop_all-child :
      (m : SuperviseeMap X)
      → IsWellFormed X m
      → (m' : SuperviseeMap X) × (waiting : List ℕ) × (stop_all X m ≡ returns (m', waiting))
        × IsWellFormed X m'
        × ((j : ℕ) → child X m' j ≡ stopped (child X m j))
        × ((j : ℕ) → elem j waiting ≡ waits (child X m j))
  unfolding stop_all Stops
  stop_all-child m w =
      let (m', waiting, e, w', after, waits') = stop_each-Stops (X.entries.keys m.mapping) m w in
      (
        m',
        waiting,
        e,
        w',
        λ j. elim (Option-cases (child X m j)) [
          | inl absent ↦ ground (arith, after j)
          | inr (s, there) ↦ ground (arith, after j, elem-keys-child m j there)
        ],
        λ j. elim (Option-cases (child X m j)) [
          | inl absent ↦ ground (arith, waits' j)
          | inr (s, there) ↦ ground (arith, waits' j, elem-keys-child m j there)
        ],
      )

  -- In a well-formed map the descriptions are listed without a panic.
  pub child_descriptions-returns :
      (m : SuperviseeMap X)
      → IsWellFormed X m
      → (ds : List ChildDescription) × (child_descriptions X m ≡ returns ds)
  unfolding child_descriptions Collects
  child_descriptions-returns m w =
      let (ss, e, named) = collect-Collects m (X.entries.keys m.mapping) w in
      (descriptions_of ss, rw (child_descriptions, e) refl)
