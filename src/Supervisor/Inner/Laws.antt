-- ===== src/Supervisor/Inner/Laws.antt =====
-- What the shared operations of the supervisor leave, child by child.
use zestors.Base.{
  ℕ, ◌≡◌, refl, ◌≢◌, ◌⊎◌, inl, inr, Bool, true, false, ◌||◌, none, some, Result, ok, err, Run,
  returns, panics, Flow, break, List, [], ◌∷◌, elem, elem-append, ◌==◌, if◌then◌else◌, Bool-cases,
  Option-cases, Result-cases, Run-cases, subst, arith,
}
use zestors.External.IndexSet.{is_nil}
use zestors.Runtime.Status.{is_exiting}
use zestors.Runtime.Inbox.{register_exiting}
use zestors.Supervision.Config.{ChildSpec}
use zestors.Supervisor.Supervisee.{start, new as new_supervisee}
use zestors.Supervisor.Crates.{Crates}
use zestors.Supervisor.Children.{SuperviseeMap, put, add, remove}
use zestors.Supervisor.Children.Lookup.{
  IsWellFormed, child, get_mut-child, child-put, put-IsWellFormed,
}
use zestors.Supervisor.Children.Edits.{Removed, remove-Removed, Added, add-Added}
use zestors.Supervisor.Children.Loops.{stopped, waits, stop_all-child}
use zestors.Supervisor.Inner.{Inner, Left, extend, flow_of, shutdown, add_spec, remove_spec}

module _ (X : Crates) where
  -- Whether a name is in a set.
  abbrev pub has : X.sets.Names → ℕ → Bool
  has set j = elem j (X.sets.to_list set)

  pub has-insert :
      (set : X.sets.Names) (n j : ℕ) → has (X.sets.insert set n) j ≡ (has set j || n == j)
  has-insert set n j =
      ground (arith, X.sets.to_list-insert set n, elem-append j (X.sets.to_list set) (n ∷ []))

  pub has-extend :
      (ns : List ℕ) (set : X.sets.Names) (j : ℕ)
      → has (extend X set ns) j ≡ (has set j || elem j ns)
  has-extend [] set j = ground arith
  has-extend (n ∷ ns) set j =
      ground (arith, has-extend ns (X.sets.insert set n) j, has-insert set n j)

  elem-is_nil : (ns : List ℕ) (j : ℕ) → is_nil ns ≡ true → elem j ns ≡ false
  elem-is_nil [] j h = refl
  elem-is_nil (n ∷ ns) j h = cc

  -- A supervisor that ends has no name left in its set.
  pub flow_of-break : (set : X.sets.Names) (j : ℕ) → flow_of X set ≡ break → has set j ≡ false
  flow_of-break set j h =
      ground (arith, X.sets.is_empty-to_list set, elem-is_nil (X.sets.to_list set) j)

  -- The outcome of a shutdown.
  abbrev pub ShutDown : Inner X → X.sets.Names → Run (Inner X × X.sets.Names × Flow) → Type 0
  ShutDown i ex panics = ⊥
  ShutDown i ex (returns (i', ex', flow)) =
      IsWellFormed X i'.supervisees
      × ((j : ℕ) → child X i'.supervisees j ≡ stopped (child X i.supervisees j))
      × ((j : ℕ) → has ex' j ≡ (has ex j || waits (child X i.supervisees j)))
      × (i'.inbox ≡ (register_exiting i.inbox).0)
      × (flow ≡ flow_of X ex')

  -- A shutdown of a well-formed supervisor does not panic. It stops every child, adds to the set of
  -- exits it waits for exactly the children that are still alive, registers itself as exiting, and ends
  -- the supervisor if that set is empty.
  pub shutdown-ShutDown :
      (ex : X.sets.Names) (i : Inner X)
      → IsWellFormed X i.supervisees
      → ShutDown i ex (shutdown X ex i)
  unfolding shutdown
  shutdown-ShutDown ex i w =
      let (m', waiting, e, w', after, waits') = stop_all-child X i.supervisees w in
      rw e (w', after, λ j. ground (arith, has-extend waiting ex j, waits' j), refl, refl)

  -- The outcome of registering a child.
  abbrev pub Registered : ChildSpec → Inner X → Run (Inner X × Result (Unit {0}) ℕ) → Type 0
  Registered spec i panics = ⊥
  Registered spec i (returns (i', err name)) =
      (i' ≡ i)
      × (name ≡ spec.name)
      × (is_exiting i.inbox.life.status ≡ false)
      × (child X i.supervisees name ≢ none)
  Registered spec i (returns (i', ok _)) =
      ((is_exiting i.inbox.life.status ≡ true) × (i' ≡ i))
      ⊎ ((is_exiting i.inbox.life.status ≡ false)
          × (child X i.supervisees spec.name ≡ none)
          × ((j : ℕ)
              → child X i'.supervisees j ≡ (
                  if spec.name == j
                  then some (start (new_supervisee spec)).0
                  else child X i.supervisees j))
          × (i'.inbox ≡ i.inbox)
          × IsWellFormed X i'.supervisees)

  new-name :
      (spec : ChildSpec)
      → ((new_supervisee spec).spec.name ≡ spec.name)
        × ((start (new_supervisee spec)).0.spec.name ≡ spec.name)
  unfolding new_supervisee start
  new-name spec = (refl, refl)

  starts_new : (spec : ChildSpec) → (start (new_supervisee spec)).1 ≡ ok true
  unfolding new_supervisee start
  starts_new spec = refl

  add_new :
      (spec : ChildSpec) (i : Inner X) (w : IsWellFormed X i.supervisees)
      → is_exiting i.inbox.life.status ≡ false
      → (m : SuperviseeMap X) → add X i.supervisees (new_supervisee spec) ≡ ok m
      → Added X i.supervisees (new_supervisee spec) w (ok m)
      → Registered spec i (add_spec X spec i)
  unfolding add_spec
  add_new spec i w here m e (absent, children, w') =
      let s = new_supervisee spec in
      let named = (new-name spec).0 in
      let there : child X m spec.name ≡ some s = ground (arith, children spec.name) in
      let m' = put X m spec.name (start s).0 in
      let e' : add_spec X spec i ≡ returns (record i { supervisees = m' }, ok tt) =
        ground (arith, get_mut-child X m spec.name w', starts_new spec) in
      let named' = (new-name spec).1 in
      rw e' (
        inr (
          here,
          ground arith,
          λ j. ground (arith, child-put X m spec.name (start s).0 w' named' j there, children j),
          refl,
          put-IsWellFormed X m spec.name (start s).0 w' named',
        ))

  -- Registering a child at a well-formed supervisor does not panic, neither where it looks for the child
  -- it just inserted nor where it starts it. While the supervisor is exiting nothing changes; a name that
  -- is taken is refused and nothing changes; otherwise the child is there, started, and no other child
  -- is touched.
  pub add_spec-Registered :
      (spec : ChildSpec) (i : Inner X)
      → IsWellFormed X i.supervisees
      → Registered spec i (add_spec X spec i)
  unfolding add_spec
  add_spec-Registered spec i w = elim (Bool-cases (is_exiting i.inbox.life.status)) [
    | inl ending ↦
        let e : add_spec X spec i ≡ returns (i, ok tt) = ground arith in rw e (inl (ending, refl))
    | inr here ↦
        let added = add-Added X i.supervisees (new_supervisee spec) w in
        elim (Result-cases (add X i.supervisees (new_supervisee spec))) [
          | inl (m, e) ↦
              add_new spec i w here m e
                (subst (Added X i.supervisees (new_supervisee spec) w) e added)
          | inr (name, e) ↦
              let (named, taken) : Added X i.supervisees (new_supervisee spec) w (err name) =
                subst (Added X i.supervisees (new_supervisee spec) w) e added in
              let e' : add_spec X spec i ≡ returns (i, err name) = ground arith in
              let same : name ≡ spec.name = ground (arith, (new-name spec).0) in
              rw e' (refl, same, here, rw same (λ gone. taken (ground (arith, (new-name spec).0))))
        ]
  ]

  -- The outcome of removing a child's spec.
  abbrev pub Removes : X.sets.Names → X.sets.Names → ℕ → Inner X → Run (Left X) → Type 0
  Removes init ex name i panics = ⊥
  Removes init ex name i (returns left) =
      (left.removed ≡ child X i.supervisees name)
      × ((j : ℕ)
          → child X left.inner.supervisees j
            ≡ (if name == j then none else child X i.supervisees j))
      × (left.inner ≡ record i { supervisees = left.inner.supervisees })
      × IsWellFormed X left.inner.supervisees
      × ((j : ℕ) → name ≢ j → has left.exiting j ≡ has ex j)
      × ((j : ℕ) → has left.exiting j ≡ true → has ex j ≡ true)
      × (child X i.supervisees name ≢ none
          → (has left.exiting name ≡ false) × (has left.initializing name ≡ false))

  -- Removing a spec from a well-formed supervisor does not panic: it returns the child of that name, if
  -- there is one, which is then gone from the supervisor and from both sets, and touches no other.
  pub remove_spec-Removes :
      (init ex : X.sets.Names) (name : ℕ) (i : Inner X)
      → IsWellFormed X i.supervisees
      → Removes init ex name i (remove_spec X init ex name i)
  unfolding remove_spec
  remove_spec-Removes init ex name i w =
      let removed = remove-Removed X i.supervisees name w in
      elim (Run-cases (remove X i.supervisees name)) [
        | inr e ↦ absurd (subst (Removed X i.supervisees name w) e removed)
        | inl (r, e) ↦
            let left = subst (Removed X i.supervisees name w) e removed in
            elim (Option-cases r.1) [
              | inl absent ↦
                  let e' : remove_spec X init ex name i
                      ≡ returns (record {
                        inner = record i { supervisees = r.0 };
                        initializing = init;
                        exiting = ex;
                        removed = none;
                      }) =
                    ground arith in
                  rw e' (
                    ground arith,
                    left.1,
                    refl,
                    left.2,
                    λ j other. refl,
                    λ j h. h,
                    λ there. absurd (there (ground arith)),
                  )
              | inr (s, there) ↦
                  let e' : remove_spec X init ex name i
                      ≡ returns (record {
                        inner = record i { supervisees = r.0 };
                        initializing = (X.sets.swap_remove init name).0;
                        exiting = (X.sets.swap_remove ex name).0;
                        removed = some s;
                      }) =
                    ground arith in
                  rw e' (
                    ground arith,
                    left.1,
                    refl,
                    left.2,
                    λ j other. ground (arith, X.sets.elem-swap_remove ex name j),
                    λ j h. ground (arith, X.sets.elem-swap_remove ex name j),
                    λ held. (
                      ground (arith, X.sets.elem-swap_remove ex name name),
                      ground (arith, X.sets.elem-swap_remove init name name),
                    ),
                  )
            ]
      ]
