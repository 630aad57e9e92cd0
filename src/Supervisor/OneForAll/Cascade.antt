-- ===== src/Supervisor/OneForAll/Cascade.antt =====
-- The end of a group restart: some children are dropped, and the others started again.
use zestors.Base.{
  ℕ, suc, ◌≡◌, refl, ◌∙◌, inl, inr, true, false, Option, none, some, Run, returns, List, [], ◌∷◌,
  elem, ◌==◌, if◌then◌else◌, subst, Option-cases, Run-cases, arith,
}
use zestors.Supervisor.Supervisee.{Supervisee, start}
use zestors.Supervisor.Supervisee.Keeps.{start-spec}
use zestors.Supervisor.Crates.{Crates}
use zestors.Supervisor.Children.Lookup.{
  IsWellFormed, child, get_mut-child, child-put, put-IsWellFormed, child-name,
}
use zestors.Supervisor.Children.Starts.{begun, begun_twice}
use zestors.Supervisor.Inner.{remove_spec as remove_shared}
use zestors.Supervisor.Inner.Laws.{has, Removes, remove_spec-Removes}
use zestors.Supervisor.OneForAll.{
  OneForAll, set_child, remove_spec_with, drop_each, restart_each, finish_cascade,
}

module _ (X : Crates) where
  abbrev pub child_of : OneForAll X → ℕ → Option Supervisee
  child_of c j = child X c.inner.supervisees j

  -- The rest of the state that a cascade does not touch: the inbox, and the exits that are waited for,
  -- but for those of children that are dropped.
  pub record Apart (c c' : OneForAll X) : Type 0 where
    pub well_formed : IsWellFormed X c'.inner.supervisees
    pub inbox : c'.inner.inbox ≡ c.inner.inbox
    pub fewer : (j : ℕ) → has X c'.exiting j ≡ true → has X c.exiting j ≡ true

  -- No exit is waited for in the cascade.
  abbrev pub NoneLeft : OneForAll X → Type 0
  NoneLeft c = (j : ℕ) → has X c.restarting j ≡ false

  remove_quiet :
      (name : ℕ) (c : OneForAll X)
      → IsWellFormed X c.inner.supervisees
      → NoneLeft c
      → (r : OneForAll X × Option Supervisee) × ((finish : OneForAll X → Run (OneForAll X))
          → remove_spec_with X finish name c ≡ returns r)
        × Apart c r.0
        × NoneLeft r.0
        × ((j : ℕ) → child_of r.0 j ≡ (if name == j then none else child_of c j))
        × ((j : ℕ) → name == j ≡ false → has X r.0.cascade_restart j ≡ has X c.cascade_restart j)
  unfolding remove_spec_with
  remove_quiet name c w quiet =
      elim (Run-cases (remove_shared X c.initializing c.exiting name c.inner)) [
        | inr p ↦ absurd (
            subst (Removes X c.initializing c.exiting name c.inner) p
              (remove_spec-Removes X c.initializing c.exiting name c.inner w))
        | inl (left, p) ↦
            let (same, after, rest, w', others, fewer, itself) =
              subst (Removes X c.initializing c.exiting name c.inner) p
                (remove_spec-Removes X c.initializing c.exiting name c.inner w) in
            let c1 : OneForAll X = record c {
              inner = left.inner;
              initializing = left.initializing;
              exiting = left.exiting;
            } in
            elim (Option-cases left.removed) [
              | inl absent ↦ (
                (c1, none),
                λ finish. ground arith,
                record { well_formed = w'; inbox = ground arith; fewer = fewer },
                quiet,
                after,
                λ j h. refl,
              )
              | inr (s, there) ↦
                  let c2 : OneForAll X = record c1 {
                    restarting = (X.sets.swap_remove c.restarting name).0;
                    cascade_restart = (X.sets.swap_remove c.cascade_restart name).0;
                    cascade_drop = (X.sets.swap_remove c.cascade_drop name).0;
                  } in
                  (
                    (c2, some s),
                    λ finish.
                        ground (arith, quiet name, X.sets.swap_remove-found c.restarting name),
                    record { well_formed = w'; inbox = ground arith; fewer = fewer },
                    λ j. ground (arith, quiet j, X.sets.elem-swap_remove c.restarting name j),
                    after,
                    λ j h. ground (arith, X.sets.elem-swap_remove c.cascade_restart name j),
                  )
            ]
      ]

  Apart-trans : {c c1 c2 : OneForAll X} → Apart c c1 → Apart c1 c2 → Apart c c2
  Apart-trans a b = record {
    well_formed = b.well_formed;
    inbox = b.inbox ∙ a.inbox;
    fewer = λ j h. a.fewer j (b.fewer j h);
  }

  Drops : List ℕ → OneForAll X → OneForAll X → Type 0
  Drops ns c c' =
      Apart c c'
      × NoneLeft c'
      × ((j : ℕ) → child_of c' j ≡ (if elem j ns then none else child_of c j))
      × ((j : ℕ) → elem j ns ≡ false → has X c'.cascade_restart j ≡ has X c.cascade_restart j)

  drop_each-Drops :
      (ns : List ℕ) (c : OneForAll X)
      → IsWellFormed X c.inner.supervisees
      → NoneLeft c
      → (c' : OneForAll X) × ((finish : OneForAll X → Run (OneForAll X))
          → drop_each X finish ns c ≡ returns c')
        × Drops ns c c'
  unfolding drop_each Drops
  drop_each-Drops [] c w quiet = (
    c,
    λ finish. refl,
    (record { well_formed = w; inbox = refl; fewer = λ j h. h }, quiet, λ j. refl, λ j h. refl),
  )
  drop_each-Drops (n ∷ ns) c w quiet =
      let (r, e, a, quiet1, gone, kept) = remove_quiet n c w quiet in
      let (c', e', (b, quiet', gone', kept')) = drop_each-Drops ns r.0 a.well_formed quiet1 in
      (
        c',
        λ finish. rw (drop_each, e finish) (e' finish),
        (
          Apart-trans a b,
          quiet',
          λ j. ground (arith, gone j, gone' j),
          λ j h. ground (arith, kept j, kept' j),
        ),
      )

  restart_each-begun :
      (ns : List ℕ) (c : OneForAll X)
      → IsWellFormed X c.inner.supervisees
      → (c' : OneForAll X) × (restart_each X ns c ≡ returns c')
        × Apart c c'
        × (c'.restarting ≡ c.restarting)
        × ((j : ℕ) → child_of c' j ≡ (if elem j ns then begun X (child_of c j) else child_of c j))
  unfolding restart_each
  restart_each-begun [] c w =
      (c, refl, record { well_formed = w; inbox = refl; fewer = λ j h. h }, refl, λ j. refl)
  restart_each-begun (n ∷ ns) c w = elim (Option-cases (child_of c n)) [
    | inl absent ↦
        let (c', e, a, r, after) = restart_each-begun ns c w in
        (
          c',
          ground (arith, get_mut-child X c.inner.supervisees n w),
          a,
          r,
          λ j. ground (arith, after j),
        )
    | inr (s, there) ↦
        let named : (start s).0.spec.name ≡ n =
          ground (arith, start-spec s, child-name X c.inner.supervisees n s w there) in
        let w1 = put-IsWellFormed X c.inner.supervisees n (start s).0 w named in
        let (c', e, a, r, after) = restart_each-begun ns (set_child X c n (start s).0) w1 in
        let a0 : Apart c (set_child X c n (start s).0) = record {
          well_formed = w1;
          inbox = refl;
          fewer = λ j h. h;
        } in
        (
          c',
          ground (arith, get_mut-child X c.inner.supervisees n w),
          Apart-trans a0 a,
          r,
          λ j. ground (
            arith,
            after j,
            child-put X c.inner.supervisees n (start s).0 w named j there,
            begun_twice X (child_of c j),
          ),
        )
  ]

  -- Once no exit of a group restart is waited for any more, its end does not panic and one unit of fuel
  -- is as good as any number. The children to drop are removed, those to restart are started, and no
  -- other child is touched, nor the inbox; nothing new is waited for.
  pub finish_cascade-children :
      (c : OneForAll X)
      → IsWellFormed X c.inner.supervisees
      → NoneLeft c
      → (c' : OneForAll X) × ((n : ℕ) → finish_cascade X (suc n) c ≡ returns c')
        × Apart c c'
        × NoneLeft c'
        × ((j : ℕ)
            → child_of c' j ≡ (
                if has X c.cascade_drop j
                then none
                else if has X c.cascade_restart j
                then begun X (child_of c j)
                else child_of c j))
  unfolding finish_cascade Drops
  finish_cascade-children c w quiet =
      let (c1, e, (a, quiet1, gone, kept)) =
        drop_each-Drops (X.sets.to_list c.cascade_drop) (record c { cascade_drop = X.sets.new }) w
          quiet in
      let (c', e', b, same, after) =
        restart_each-begun (X.sets.to_list c1.cascade_restart)
          (record c1 { cascade_restart = X.sets.new }) a.well_formed in
      (
        c',
        λ n. rw (finish_cascade, e (finish_cascade X n)) e',
        record {
          well_formed = b.well_formed;
          inbox = b.inbox ∙ a.inbox;
          fewer = λ j h. a.fewer j (b.fewer j h);
        },
        λ j. ground (arith, quiet1 j),
        λ j. ground (arith, after j, gone j, kept j),
      )
