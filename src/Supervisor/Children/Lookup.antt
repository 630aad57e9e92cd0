-- ===== src/Supervisor/Children/Lookup.antt =====
-- The map as a function from names to supervisees: no token dangles, so no `expect` in it panics.
use zestors.Base.{
  ℕ, ◌≡◌, inl, inr, Option, none, some, returns, ◌==◌, if◌then◌else◌, Bool-cases, Option-cases,
  arith,
}
use zestors.Supervisor.Supervisee.{Supervisee}
use zestors.Supervisor.Crates.{Crates}
use zestors.Supervisor.Children.{SuperviseeMap, token_of, empty, get_mut, put}

module _ (X : Crates) where
  -- Every token in the map is that of a supervisee of the name it stands under.
  pub record IsWellFormed (m : SuperviseeMap X) : Type 0 where
    pub holds :
        (k t : ℕ)
        → token_of X m k ≡ some t
        → (s : Supervisee) × (X.streams.get m.supervisees t ≡ some s) × (s.spec.name ≡ k)

  -- The supervisee under a name.
  unfoldable pub child : SuperviseeMap X → ℕ → Option Supervisee
  child m k = elim (token_of X m k) [ none ↦ none | some t ↦ X.streams.get m.supervisees t ]

  pub empty-IsWellFormed : IsWellFormed (empty X)
  unfolding empty
  empty-IsWellFormed = record { holds = λ k t h. ground (arith, X.entries.get-new k) }

  -- In a well-formed map `get_mut` does not panic.
  pub get_mut-child :
      (m : SuperviseeMap X) (k : ℕ) → IsWellFormed m → get_mut X m k ≡ returns (child m k)
  unfolding get_mut child
  get_mut-child m k w = elim (Option-cases (token_of X m k)) [
    | inl absent ↦ ground arith
    | inr (t, present) ↦ ground (arith, w.holds k t present)
  ]

  pub child-name :
      (m : SuperviseeMap X) (k : ℕ) (s : Supervisee)
      → IsWellFormed m
      → child m k ≡ some s
      → s.spec.name ≡ k
  unfolding child
  child-name m k s w h = elim (Option-cases (token_of X m k)) [
    | inl absent ↦ ground arith
    | inr (t, present) ↦ ground (arith, w.holds k t present)
  ]

  module _ (m : SuperviseeMap X) (k : ℕ) (s : Supervisee) (w : IsWellFormed m)
      (named : s.spec.name ≡ k) where
    -- Two names with one token would be one name.
    token_injective : (j t : ℕ) → token_of X m k ≡ some t → token_of X m j ≡ some t → k ≡ j
    token_injective j t p q = ground (arith, w.holds k t p, w.holds j t q)

    pub child-put :
        (j : ℕ) {old : Supervisee}
        → child m k ≡ some old
        → child (put X m k s) j ≡ (if k == j then some s else child m j)
    unfolding child put
    child-put j {old} h = elim (Option-cases (token_of X m k)) [
      | inl absent ↦ ground arith
      | inr (t, present) ↦
          let held : X.streams.get m.supervisees t ≡ some old = ground arith in
          elim (Option-cases (token_of X m j)) [
            | inl none_there ↦ ground arith
            | inr (u, there) ↦
                ground (
                  arith,
                  X.streams.get-set m.supervisees t s old u held,
                  token_injective j t present,
                )
          ]
    ]

    pub put-IsWellFormed : IsWellFormed (put X m k s)
    unfolding put
    put-IsWellFormed = record {
      holds = λ j u there. elim (Option-cases (token_of X m k)) [
        | inl absent ↦ ground (arith, w.holds j u)
        | inr (t, present) ↦
            let before : token_of X m j ≡ some u = ground arith in
            let (r, got, r_name) = w.holds j u before in
            let (o, held, o_name) = w.holds k t present in
            let written = X.streams.get-set m.supervisees t s o u held in
            elim (Bool-cases (t == u)) [
              | inl same ↦ (s, ground (arith, written), ground (arith, token_injective j t present))
              | inr other ↦ (r, ground (arith, written), r_name)
            ]
      ];
    }
