-- ===== src/Supervisor/Children/Edits.antt =====
-- Removing from the map and adding to it.
use zestors.Base.{
  ℕ, ◌≡◌, refl, ◌≢◌, inl, inr, Option, none, some, Result, ok, err, Run, returns, panics, ◌==◌,
  if◌then◌else◌, Bool-cases, Option-cases, arith,
}
use zestors.Supervisor.Supervisee.{Supervisee}
use zestors.Supervisor.Crates.{Crates}
use zestors.Supervisor.Children.{SuperviseeMap, token_of, store, remove, add}
use zestors.Supervisor.Children.Lookup.{IsWellFormed, child}

module _ (X : Crates) where
  module _ (m : SuperviseeMap X) (k : ℕ) (w : IsWellFormed X m) where
    -- What `remove` leaves.
    abbrev pub Removed : Run (SuperviseeMap X × Option Supervisee) → Type 0
    Removed panics = ⊥
    Removed (returns (m', r)) =
        (r ≡ child X m k)
        × ((j : ℕ) → child X m' j ≡ (if k == j then none else child X m j))
        × IsWellFormed X m'

    removed_child :
        (t : ℕ) (s : Supervisee)
        → token_of X m k ≡ some t
        → X.streams.get m.supervisees t ≡ some s
        → s.spec.name ≡ k
        → let m' : SuperviseeMap X = record {
          mapping = X.entries.insert m.mapping k none;
          supervisees = (X.streams.take m.supervisees t).1;
        } in
          ((j : ℕ) → child X m' j ≡ (if k == j then none else child X m j)) × IsWellFormed X m'
    unfolding child
    removed_child t s present held named = (
      λ j. elim (Option-cases (token_of X m j)) [
        | inl none_there ↦ ground (arith, X.entries.get-insert m.mapping k none j)
        | inr (u, there) ↦ ground (
          arith,
          X.entries.get-insert m.mapping k none j,
          X.streams.get-take m.supervisees t u,
          w.holds j u there,
        )
      ],
      record {
        holds = λ j u there.
            let before : token_of X m j ≡ some u =
              ground (arith, X.entries.get-insert m.mapping k none j) in
            let (r, got, r_name) = w.holds j u before in
            (
              r,
              ground (
                arith,
                X.entries.get-insert m.mapping k none j,
                X.streams.get-take m.supervisees t u,
              ),
              r_name,
            );
      },
    )

    -- Removing a name from a well-formed map does not panic: it returns the child of that name, if there
    -- is one, which is then gone, and every other child is as it was.
    pub remove-Removed : Removed (remove X m k)
    unfolding remove child
    remove-Removed = elim (Option-cases (token_of X m k)) [
      | inl absent ↦
          let e : remove X m k ≡ returns (m, none) = ground arith in
          rw e (ground arith, λ j. ground arith, w)
      | inr (t, present) ↦
          let (s, held, named) = w.holds k t present in
          let m' : SuperviseeMap X = record {
            mapping = X.entries.insert m.mapping k none;
            supervisees = (X.streams.take m.supervisees t).1;
          } in
          let e : remove X m k ≡ returns (m', some s) =
            ground (arith, X.streams.take-get m.supervisees t) in
          let left = removed_child t s present held named in rw e (ground arith, left.0, left.1)
    ]

  module _ (m : SuperviseeMap X) (s : Supervisee) (w : IsWellFormed X m) where
    -- What `add` leaves: a name that is taken is refused.
    abbrev pub Added : Result (SuperviseeMap X) ℕ → Type 0
    Added (err name) = (name ≡ s.spec.name) × (child X m s.spec.name ≢ none)
    Added (ok m') =
        (child X m s.spec.name ≡ none)
        × ((j : ℕ) → child X m' j ≡ (if s.spec.name == j then some s else child X m j))
        × IsWellFormed X m'

    token : ℕ
    token = (X.streams.insert m.supervisees s).0

    stored_child :
        ((j : ℕ) → child X (store X m s) j ≡ (if s.spec.name == j then some s else child X m j))
        × IsWellFormed X (store X m s)
    unfolding child token
    stored_child = (
      λ j. elim (Option-cases (token_of X m j)) [
        | inl none_there ↦ ground (
          arith,
          X.entries.get-insert m.mapping s.spec.name (some token) j,
          X.streams.get-insert m.supervisees s token,
        )
        | inr (u, there) ↦ ground (
          arith,
          X.entries.get-insert m.mapping s.spec.name (some token) j,
          X.streams.get-insert m.supervisees s token,
          X.streams.get-insert m.supervisees s u,
          X.streams.insert-fresh m.supervisees s,
          w.holds j u there,
        )
      ],
      record {
        holds = λ j u there. elim (Bool-cases (s.spec.name == j)) [
          | inl new ↦ (
            s,
            ground (
              arith,
              X.entries.get-insert m.mapping s.spec.name (some token) j,
              X.streams.get-insert m.supervisees s u,
            ),
            ground arith,
          )
          | inr old ↦
              let before : token_of X m j ≡ some u =
                ground (arith, X.entries.get-insert m.mapping s.spec.name (some token) j) in
              let (r, got, r_name) = w.holds j u before in
              (
                r,
                ground (
                  arith,
                  X.streams.get-insert m.supervisees s u,
                  X.streams.insert-fresh m.supervisees s,
                ),
                r_name,
              )
        ];
      },
    )

    -- Adding a supervisee to a well-formed map is refused exactly when its name is taken; otherwise the
    -- supervisee is there under its name, and every other child is as it was.
    pub add-Added : Added (add X m s)
    unfolding add child
    add-Added = elim (Option-cases (token_of X m s.spec.name)) [
      | inl absent ↦
          let e : add X m s ≡ ok (store X m s) = ground arith in
          rw e (ground arith, stored_child.0, stored_child.1)
      | inr (t, present) ↦
          let (r, held, named) = w.holds s.spec.name t present in
          let e : add X m s ≡ err s.spec.name = ground arith in rw e (refl, λ gone. ground arith)
    ]
