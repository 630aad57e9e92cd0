-- ===== src/Supervisor/Children/Starts.antt =====
-- Starting every child of the map.
use zestors.Base.{
  ℕ, ◌≡◌, refl, ◌⊎◌, inl, inr, true, Option, none, some, Result, ok, err, returns, List, [], ◌∷◌,
  ◌==◌, elem, Bool-cases, Option-cases, Result-cases, arith,
}
use zestors.Supervisor.Supervisee.{Supervisee, start}
use zestors.Supervisor.Crates.{Crates}
use zestors.Supervisor.Children.{SuperviseeMap, get_mut, put, start_each, start_all}
use zestors.Supervisor.Children.Lookup.{
  IsWellFormed, child, get_mut-child, child-put, put-IsWellFormed, child-name,
}
use zestors.Supervisor.Children.Loops.{elem-keys-child}

module _ (X : Crates) where
  abbrev pub begun : Option Supervisee → Option Supervisee
  begun none = none
  begun (some s) = some (start s).0

  begun-name : (s : Supervisee) → (start s).0.spec.name ≡ s.spec.name
  unfolding start
  begun-name s = refl

  pub begun_twice : (o : Option Supervisee) → begun (begun o) ≡ begun o
  unfolding start
  begun_twice o = ground arith

  Starts : SuperviseeMap X → List ℕ → Type 0
  Starts m ks =
      (m' : SuperviseeMap X) × (r : Result (Unit {0}) ℕ) × (start_each X ks m ≡ returns (m', r))
      × IsWellFormed X m'
      × ((j : ℕ) → (child X m' j ≡ child X m j) ⊎ (child X m' j ≡ begun (child X m j)))
      × (r ≡ ok tt → (j : ℕ) → elem j ks ≡ true → child X m' j ≡ begun (child X m j))

  start_each-Starts : (ks : List ℕ) (m : SuperviseeMap X) → IsWellFormed X m → Starts m ks
  unfolding Starts start_each
  start_each-Starts [] m w = (m, ok tt, refl, w, λ j. inl refl, λ h j e. ground arith)
  start_each-Starts (k ∷ ks) m w = elim (Option-cases (child X m k)) [
    | inl absent ↦
        let (m', r, e, w', after, all) = start_each-Starts ks m w in
        (
          m',
          r,
          ground (arith, get_mut-child X m k w),
          w',
          after,
          λ h j there. elim (Bool-cases (k == j)) [
            | inl same ↦ ground (arith, after j)
            | inr other ↦ all h j (ground arith)
          ],
        )
    | inr (s, there) ↦
        let named : (start s).0.spec.name ≡ k =
          ground (arith, child-name X m k s w there, begun-name s) in
        let m1 = put X m k (start s).0 in
        let w1 = put-IsWellFormed X m k (start s).0 w named in
        let got : get_mut X m k ≡ returns (some s) = ground (arith, get_mut-child X m k w) in
        elim (Result-cases (start s).1) [
          | inr (x, failed) ↦ (
            m1,
            err k,
            ground arith,
            w1,
            λ j. ground (arith, child-put X m k (start s).0 w named j there),
            λ h j e. ground arith,
          )
          | inl (b, fine) ↦
              let (m', r, e, w', after, all) = start_each-Starts ks m1 w1 in
              (
                m',
                r,
                ground arith,
                w',
                λ j. ground (
                  arith,
                  after j,
                  child-put X m k (start s).0 w named j there,
                  begun_twice (child X m j),
                ),
                λ h j among. elim (Bool-cases (k == j)) [
                  | inl same ↦ ground (
                    arith,
                    after j,
                    child-put X m k (start s).0 w named j there,
                    begun_twice (child X m j),
                  )
                  | inr other ↦ ground (arith, all h j, child-put X m k (start s).0 w named j there)
                ],
              )
        ]
  ]

  -- Starting all panics nowhere in a well-formed map. If it fails, each child is as it was or started; if
  -- not, each one is started.
  pub start_all-child :
      (m : SuperviseeMap X)
      → IsWellFormed X m
      → (m' : SuperviseeMap X) × (r : Result (Unit {0}) ℕ) × (start_all X m ≡ returns (m', r))
        × IsWellFormed X m'
        × ((j : ℕ) → (child X m' j ≡ child X m j) ⊎ (child X m' j ≡ begun (child X m j)))
        × (r ≡ ok tt → (j : ℕ) → child X m' j ≡ begun (child X m j))
  unfolding start_all Starts
  start_all-child m w =
      let (m', r, e, w', after, all) = start_each-Starts (X.entries.keys m.mapping) m w in
      (
        m',
        r,
        e,
        w',
        after,
        λ h j. elim (Option-cases (child X m j)) [
          | inl absent ↦ ground (arith, after j)
          | inr (s, there) ↦ all h j (elem-keys-child X m j there)
        ],
      )
