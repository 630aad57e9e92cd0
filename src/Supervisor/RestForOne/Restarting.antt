-- ===== src/Supervisor/RestForOne/Restarting.antt =====
-- A cascade brings its children back one at a time, in start order.
use zestors.Base.{
  ℕ, ◌≡◌, refl, ◌≢◌, ◌⊎◌, inl, inr, ap, Bool, true, false, Option, none, some, Result, ok, Run,
  returns, Flow, continue, List, [], ◌∷◌, ◌++◌, elem, ◌==◌, if◌then◌else◌, Option-cases, arith,
}
use zestors.Supervisor.Supervisee.{
  Supervisee, SuperviseeState, SuperviseeIsShuttingDown, starting, start,
}
use zestors.Supervisor.Crates.{Crates}
use zestors.Supervisor.Children.{get_mut}
use zestors.Supervisor.Children.Lookup.{
  IsWellFormed, child, get_mut-child, child-put, put-IsWellFormed, child-name,
}
use zestors.Supervisor.RestForOne.Cascade.{idle, restarting, RestForOne, set_child, advance_restart}

abbrev pub is_starting : Option Supervisee → Bool
is_starting none = false
is_starting (some s) = elim s.state [ starting ↦ true | _ ↦ false ]

-- Absent, or not dead.
abbrev pub not_dead : Option Supervisee → Bool
not_dead none = true
not_dead (some s) = elim s.state [ SuperviseeState.dead ↦ false | _ ↦ true ]

start-begins :
    (s : Supervisee)
    → ((start s).1 ≡ ok true → is_starting (some (start s).0) ≡ true)
      × ((start s).1 ≢ ok true → ((start s).0 ≡ s) × (not_dead (some s) ≡ true))
      × ((start s).0.spec ≡ s.spec)
unfolding start
start-begins s = (λ h. ground arith, λ h. ground arith, refl)

starts_or_not : (r : Result Bool SuperviseeIsShuttingDown) → (r ≡ ok true) ⊎ (r ≢ ok true)
starts_or_not r = ground arith

module _ (X : Crates) where
  abbrev Untouched : RestForOne X → RestForOne X → ℕ → Type 0
  Untouched c c' j = child X c'.inner.supervisees j ≡ child X c.inner.supervisees j

  abbrev AtRest : List ℕ → RestForOne X → RestForOne X → Type 0
  AtRest todo c c' =
      (c'.cascade ≡ idle)
      × ((j : ℕ) → elem j todo ≡ true → not_dead (child X c.inner.supervisees j) ≡ true)
      × ((j : ℕ) → Untouched c c' j)

  abbrev WaitsFor : List ℕ → RestForOne X → RestForOne X → Type 0
  WaitsFor todo c c' =
      (passed : List ℕ) × (next : ℕ) × (pending : List ℕ) × (todo ≡ passed ++ next ∷ pending)
      × (c'.cascade ≡ restarting next pending)
      × (is_starting (child X c'.inner.supervisees next) ≡ true)
      × ((j : ℕ) → elem j passed ≡ true → not_dead (child X c.inner.supervisees j) ≡ true)
      × ((j : ℕ) → next == j ≡ false → Untouched c c' j)

  -- What `advance_restart` leaves: it waits for one child, or is at rest.
  abbrev pub Restarts : List ℕ → RestForOne X → Run (RestForOne X × Flow) → Type 0
  Restarts todo c m =
      (c' : RestForOne X) × (m ≡ returns (c', continue))
      × IsWellFormed X c'.inner.supervisees
      × (AtRest todo c c' ⊎ WaitsFor todo c c')

  -- One more child that needs no start.
  skip :
      (n : ℕ) (todo : List ℕ) (c c1 c' : RestForOne X)
      → not_dead (child X c.inner.supervisees n) ≡ true
      → ((j : ℕ) → Untouched c c1 j)
      → (AtRest todo c1 c' ⊎ WaitsFor todo c1 c')
      → (AtRest (n ∷ todo) c c' ⊎ WaitsFor (n ∷ todo) c c')
  skip n todo c c1 c' fine same (inl (rests, all, others)) =
      inl (rests, λ j h. ground (arith, all j, same j), λ j. ground (arith, others j, same j))
  skip n todo c c1 c' fine same (inr (passed, next, pending, split, waits, begun, all, others)) =
      inr (
        n ∷ passed,
        next,
        pending,
        ap (λ l. n ∷ l) split,
        waits,
        begun,
        λ j h. ground (arith, all j, same j),
        λ j h. ground (arith, others j h, same j),
      )

  -- Restarting goes through the names in order, one at a time. If it finds a dead child it starts that
  -- one, waits for it, and leaves the names after it for later and every other child as it is; if it
  -- finds none, the cascade is over and no child has changed. It never ends the supervisor or panics.
  pub advance_restart-Restarts :
      (todo : List ℕ) (c : RestForOne X)
      → IsWellFormed X c.inner.supervisees
      → Restarts todo c (advance_restart X todo c)
  unfolding advance_restart
  advance_restart-Restarts [] c w =
      (record c { cascade = idle }, refl, w, inl (refl, λ j h. ground arith, λ j. refl))
  advance_restart-Restarts (n ∷ todo) c w = elim (Option-cases (child X c.inner.supervisees n)) [
    | inl absent ↦
        let (c', e, w', rest) = advance_restart-Restarts todo c w in
        (
          c',
          ground (arith, get_mut-child X c.inner.supervisees n w),
          w',
          skip n todo c c c' (ground arith) (λ j. refl) rest,
        )
    | inr (s, there) ↦
        let (begins, rests, spec) = start-begins s in
        let named : (start s).0.spec.name ≡ n =
          ground (arith, spec, child-name X c.inner.supervisees n s w there) in
        let c1 = set_child X c n (start s).0 in
        let w1 = put-IsWellFormed X c.inner.supervisees n (start s).0 w named in
        let found : get_mut X c.inner.supervisees n ≡ returns (some s) =
          ground (arith, get_mut-child X c.inner.supervisees n w) in
        let put_at : (j : ℕ)
            → child X c1.inner.supervisees j
              ≡ (if n == j then some (start s).0 else child X c.inner.supervisees j) =
          λ j. child-put X c.inner.supervisees n (start s).0 w named j there in
        elim (starts_or_not (start s).1) [
          | inl begun ↦ (
            record c1 { cascade = restarting n todo },
            ground arith,
            w1,
            inr (
              [],
              n,
              todo,
              refl,
              refl,
              ground (arith, put_at n, begins begun),
              λ j h. ground arith,
              λ j h. ground (arith, put_at j),
            ),
          )
          | inr idle_start ↦
              let (c', e, w', rest) = advance_restart-Restarts todo c1 w1 in
              let same : (j : ℕ) → Untouched c c1 j =
                λ j. ground (arith, put_at j, rests idle_start) in
              (
                c',
                ground arith,
                w',
                skip n todo c c1 c' (ground (arith, rests idle_start)) same rest,
              )
        ]
  ]
