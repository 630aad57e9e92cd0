-- ===== src/Supervisor/RestForOne/Order.antt =====
-- A cascade shuts down, and restarts, one child at a time.
use zestors.Base.{
  ℕ, ◌≡◌, refl, sym, ap, ◌∙◌, inl, inr, Bool, true, false, Option, none, some, returns, Flow,
  continue, break, List, [], ◌∷◌, ◌++◌, append_assoc, reversed, reversed-append, reversed-reversed,
  elem, elem-append, ◌==◌, if◌then◌else◌, Bool-cases, Option-cases, arith,
}
use zestors.Supervisor.Supervisee.{Supervisee, SuperviseeState, stop, is_shutting_down}
use zestors.Supervisor.Crates.{Crates}
use zestors.Supervisor.Children.{get_mut}
use zestors.Supervisor.Children.Lookup.{
  IsWellFormed, child, get_mut-child, child-put, put-IsWellFormed, child-name,
}
use zestors.Supervisor.Inner.Covers.{gone}
use zestors.Supervisor.RestForOne.Cascade.{
  idle, shutting_down, RestForOne, set_child, shutdown_from, advance_shutdown,
}

abbrev pub is_stopping : Option Supervisee → Bool
is_stopping none = false
is_stopping (some s) = elim s.state [ SuperviseeState.shutting_down ↦ true | _ ↦ false ]

stop-gone :
    (s : Supervisee)
    → (is_shutting_down (stop s).1 ≡ false → gone (some (stop s).0) ≡ true)
      × (is_shutting_down (stop s).1 ≡ true → is_stopping (some (stop s).0) ≡ true)
      × ((stop s).0.spec ≡ s.spec)
      × (gone (some s) ≡ true → (stop s).0 ≡ s)
unfolding stop
stop-gone s = (λ h. ground arith, λ h. ground arith, refl, λ h. ground arith)

module _ (X : Crates) where
  -- What a shutdown leaves of the children `todo`, which it takes one by one.
  abbrev pub Ordered : List ℕ → RestForOne X → RestForOne X × Flow → Type 0
  Ordered todo c (c', break) =
      (c'.cascade ≡ idle)
      × ((j : ℕ) → elem j todo ≡ true → gone (child X c'.inner.supervisees j) ≡ true)
      × ((j : ℕ)
          → elem j todo ≡ false
          → child X c'.inner.supervisees j ≡ child X c.inner.supervisees j)
  Ordered todo c (c', continue) =
      (done : List ℕ) × (next : ℕ) × (left : List ℕ) × (todo ≡ done ++ next ∷ left)
      × (c'.cascade ≡ shutting_down next (reversed left))
      × ((j : ℕ) → elem j done ≡ true → gone (child X c'.inner.supervisees j) ≡ true)
      × (is_stopping (child X c'.inner.supervisees next) ≡ true)
      × ((j : ℕ)
          → elem j (done ++ next ∷ []) ≡ false
          → child X c'.inner.supervisees j ≡ child X c.inner.supervisees j)

  -- One more child that is gone already.
  Ordered-cons :
      (n : ℕ) (todo : List ℕ) (c c1 : RestForOne X) (r : RestForOne X × Flow)
      → gone (child X c1.inner.supervisees n) ≡ true
      → ((j : ℕ) → n == j ≡ false → child X c1.inner.supervisees j ≡ child X c.inner.supervisees j)
      → ((j : ℕ)
          → gone (child X c1.inner.supervisees j) ≡ true
          → gone (child X r.0.inner.supervisees j) ≡ true)
      → Ordered todo c1 r
      → Ordered (n ∷ todo) c r
  Ordered-cons n todo c c1 (c', break) g same keeps (at_rest, all, others) = (
    at_rest,
    λ j there. ground (arith, all j, keeps j),
    λ j away. ground (arith, others j, same j),
  )
  Ordered-cons n todo c c1 (c', continue) g same keeps
        (done, next, left, split, waits, all, current, others) =
      (
        n ∷ done,
        next,
        left,
        ap (λ l. n ∷ l) split,
        waits,
        λ j there. ground (arith, all j, keeps j),
        current,
        λ j away. ground (arith, others j, same j),
      )

  pub shutdown_from-Ordered :
      (todo : List ℕ) (c : RestForOne X)
      → IsWellFormed X c.inner.supervisees
      → (r : RestForOne X × Flow) × (shutdown_from X todo c ≡ returns r)
        × IsWellFormed X r.0.inner.supervisees
        × Ordered todo c r
        × ((j : ℕ)
            → gone (child X c.inner.supervisees j) ≡ true
            → child X r.0.inner.supervisees j ≡ child X c.inner.supervisees j)
  unfolding shutdown_from
  shutdown_from-Ordered [] c w = (
    (record c { cascade = idle }, break),
    refl,
    w,
    (refl, λ j h. ground arith, λ j h. refl),
    λ j h. refl,
  )
  shutdown_from-Ordered (n ∷ todo) c w = elim (Option-cases (child X c.inner.supervisees n)) [
    | inl absent ↦
        let (r, e, w', ordered, keeps) = shutdown_from-Ordered todo c w in
        (
          r,
          ground (arith, get_mut-child X c.inner.supervisees n w),
          w',
          Ordered-cons n todo c c r (ground arith) (λ j h. refl) (λ j g. ground (arith, keeps j g))
              ordered,
          keeps,
        )
    | inr (s, there) ↦
        let named : (stop s).0.spec.name ≡ n =
          ground (arith, (stop-gone s).2, child-name X c.inner.supervisees n s w there) in
        let c1 = set_child X c n (stop s).0 in
        let w1 = put-IsWellFormed X c.inner.supervisees n (stop s).0 w named in
        let found : get_mut X c.inner.supervisees n ≡ returns (some s) =
          ground (arith, get_mut-child X c.inner.supervisees n w) in
        let put_at : (j : ℕ)
            → child X c1.inner.supervisees j
              ≡ (if n == j then some (stop s).0 else child X c.inner.supervisees j) =
          λ j. child-put X c.inner.supervisees n (stop s).0 w named j there in
        elim (Bool-cases (is_shutting_down (stop s).1)) [
          | inl waits ↦ (
            (record c1 { cascade = shutting_down n (reversed todo) }, continue),
            ground arith,
            w1,
            (
              [],
              n,
              todo,
              refl,
              refl,
              λ j h. ground arith,
              ground (arith, put_at n, (stop-gone s).1 waits),
              λ j h. ground (arith, put_at j),
            ),
            λ j g. ground (arith, put_at j, (stop-gone s).3),
          )
          | inr dead ↦
              let (r, e, w', ordered, keeps) = shutdown_from-Ordered todo c1 w1 in
              (
                r,
                ground arith,
                w',
                Ordered-cons n todo c c1 r (ground (arith, put_at n, (stop-gone s).0 dead))
                    (λ j h. ground (arith, put_at j)) (λ j g. ground (arith, keeps j g)) ordered,
                λ j g. ground (arith, put_at j, (stop-gone s).3, keeps j),
              )
        ]
  ]

  reversed_split :
      (pending done left : List ℕ) (next : ℕ)
      → reversed pending ≡ done ++ next ∷ left
      → pending ≡ reversed left ++ next ∷ reversed done
  reversed_split pending done left next e =
      sym (reversed-reversed pending)
      ∙ ap reversed e
      ∙ reversed-append done (next ∷ left)
      ∙ append_assoc (reversed left) (next ∷ []) (reversed done)

  pub elem-reversed : (j : ℕ) (ns : List ℕ) → elem j (reversed ns) ≡ elem j ns
  elem-reversed j [] = refl
  elem-reversed j (n ∷ ns) =
      ground (arith, elem-append j (reversed ns) (n ∷ []), elem-reversed j ns)

  -- What `advance_shutdown` leaves of the children `pending`, which are in start order.
  abbrev pub ShutsDown : List ℕ → RestForOne X → RestForOne X × Flow → Type 0
  ShutsDown pending c (c', break) =
      (c'.cascade ≡ idle)
      × ((j : ℕ) → elem j pending ≡ true → gone (child X c'.inner.supervisees j) ≡ true)
  ShutsDown pending c (c', continue) =
      (before : List ℕ) × (next : ℕ) × (later : List ℕ) × (pending ≡ before ++ next ∷ later)
      × (c'.cascade ≡ shutting_down next before)
      × ((j : ℕ) → elem j later ≡ true → gone (child X c'.inner.supervisees j) ≡ true)
      × (is_stopping (child X c'.inner.supervisees next) ≡ true)
      × ((j : ℕ)
          → elem j later ≡ false
          → next == j ≡ false
          → child X c'.inner.supervisees j ≡ child X c.inner.supervisees j)

  Ordered-ShutsDown :
      (pending : List ℕ) (c : RestForOne X) (r : RestForOne X × Flow)
      → Ordered (reversed pending) c r
      → ShutsDown pending c r
  Ordered-ShutsDown pending c (c', break) (at_rest, all, others) =
      (at_rest, λ j h. all j (ground (arith, elem-reversed j pending)))
  Ordered-ShutsDown pending c (c', continue)
        (done, next, left, split, waits, all, current, others) =
      (
        reversed left,
        next,
        reversed done,
        reversed_split pending done left next split,
        waits,
        λ j h. all j (ground (arith, elem-reversed j done)),
        current,
        λ j h k. others j (ground (arith, elem-reversed j done, elem-append j done (next ∷ []))),
      )

  -- A rest-for-one shutdown goes through the children in reverse start order, one at a time. If it goes
  -- on, it waits for one child, which is shutting down; all those started after it are dead or gone, and
  -- those started before it are untouched and next in line. It ends only when all of them are dead or
  -- gone. It never panics, and the map stays well-formed.
  pub advance_shutdown-ShutsDown :
      (pending : List ℕ) (c : RestForOne X)
      → IsWellFormed X c.inner.supervisees
      → (r : RestForOne X × Flow) × (advance_shutdown X pending c ≡ returns r)
        × IsWellFormed X r.0.inner.supervisees
        × ShutsDown pending c r
  unfolding advance_shutdown
  advance_shutdown-ShutsDown pending c w =
      let (r, e, w', ordered, keeps) = shutdown_from-Ordered (reversed pending) c w in
      (r, e, w', Ordered-ShutsDown pending c r ordered)
