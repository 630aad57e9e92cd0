-- ===== src/Supervisor/RestForOne/Total.antt =====
-- Every step of a cascade returns, on whatever fuel there is.
use zestors.Base.{
  ℕ, suc, ◌≡◌, refl, ◌∙◌, ◌⊎◌, inl, inr, Option, none, some, Run, returns, Flow, continue, List, [],
  ◌∷◌, reversed, subst, Bool-cases, Option-cases, Run-cases, arith,
}
use zestors.Runtime.Inbox.{register_exiting}
use zestors.Supervisor.Supervisee.{Supervisee, stop, acquire_restart_permit}
use zestors.Supervisor.Supervisee.Keeps.{stop-spec, permit-spec}
use zestors.Supervisor.Crates.{Crates}
use zestors.Supervisor.Children.{get_mut}
use zestors.Supervisor.Children.Lookup.{
  IsWellFormed, child, get_mut-child, put-IsWellFormed, child-name,
}
use zestors.Supervisor.Children.Loops.{names-child}
use zestors.Supervisor.Inner.{is_never, remove_spec as remove_shared}
use zestors.Supervisor.Inner.Laws.{Removes, remove_spec-Removes}
use zestors.Supervisor.RestForOne.Cascade.{
  Cascade, idle, exiting, restarting, shutting_down, current, is_shutdown, RestForOne, shutdown,
  advance_restart,
}
use zestors.Supervisor.RestForOne.Stopping.{
  Stop, waits_for, dead, refused, remove_spec_with, drop_each, stop_next, stop_from,
  advance_cascade,
}
use zestors.Supervisor.RestForOne.Order.{advance_shutdown-ShutsDown}
use zestors.Supervisor.RestForOne.Restarting.{advance_restart-Restarts}

Stop-cases : (k : Stop) → (k ≡ waits_for) ⊎ ((k ≡ dead) ⊎ (k ≡ refused))
Stop-cases k = ground arith

module _ (X : Crates) where
  -- Returns, with a well-formed map.
  abbrev pub Returns : Run (RestForOne X × Flow) → Type 0
  Returns m = (r : RestForOne X × Flow) × (m ≡ returns r) × IsWellFormed X r.0.inner.supervisees

  pub shutdown-Returns :
      (c : RestForOne X) → IsWellFormed X c.inner.supervisees → Returns (shutdown X c)
  unfolding shutdown
  shutdown-Returns c w = elim (Bool-cases (is_shutdown X c.cascade)) [
    | inl already ↦ ((c, continue), rw (shutdown, already) refl, w)
    | inr first ↦
        let c1 : RestForOne X = record c {
          inner = record (c.inner) { inbox = (register_exiting c.inner.inbox).0 };
        } in
        let (ks, listed, named) = names-child X c.inner.supervisees w in
        let (r, e, w', order) = advance_shutdown-ShutsDown X ks c1 w in
        (r, rw (shutdown, first, listed) e, w')
  ]

  -- The removal of a child while no child is waited for does not advance the cascade.
  remove_spec-idle :
      (name : ℕ) (c : RestForOne X)
      → IsWellFormed X c.inner.supervisees
      → c.cascade ≡ idle
      → (r : RestForOne X × Option Supervisee) × ((advance : RestForOne X
            → Run (RestForOne X × Flow))
          → remove_spec_with X advance name c ≡ returns r)
        × IsWellFormed X r.0.inner.supervisees
        × (r.0.cascade ≡ idle)
  unfolding remove_spec_with current
  remove_spec-idle name c w rest =
      elim (Run-cases (remove_shared X c.initializing X.sets.new name c.inner)) [
        | inr p ↦ absurd (
            subst (Removes X c.initializing X.sets.new name c.inner) p
              (remove_spec-Removes X c.initializing X.sets.new name c.inner w))
        | inl (left, p) ↦
            let out =
              subst (Removes X c.initializing X.sets.new name c.inner) p
                (remove_spec-Removes X c.initializing X.sets.new name c.inner w) in
            let c' : RestForOne X = record c {
              inner = left.inner;
              initializing = left.initializing;
            } in
            ((c', left.removed), λ advance. ground arith, out.3, rest)
      ]

  drop_each-idle :
      (ns : List ℕ) (c : RestForOne X)
      → IsWellFormed X c.inner.supervisees
      → c.cascade ≡ idle
      → (c' : RestForOne X) × ((advance : RestForOne X → Run (RestForOne X × Flow))
          → drop_each X advance ns c ≡ returns c')
        × IsWellFormed X c'.inner.supervisees
  unfolding drop_each
  drop_each-idle [] c w rest = (c, λ advance. refl, w)
  drop_each-idle (n ∷ ns) c w rest =
      let (r, e, w1, rest1) = remove_spec-idle n c w rest in
      let (c', e', w') = drop_each-idle ns r.0 w1 rest1 in
      (c', λ advance. rw (drop_each, e advance) (e' advance), w')

  stop_next-keeps :
      (now n : ℕ) (s : Supervisee) (to_restart to_drop : List ℕ) (c : RestForOne X)
      → IsWellFormed X c.inner.supervisees
      → s.spec.name ≡ n
      → let c' = (stop_next X now n s to_restart to_drop c).0 in
        IsWellFormed X c'.inner.supervisees × (c'.cascade ≡ c.cascade)
  unfolding stop_next
  stop_next-keeps now n s to_restart to_drop c w named =
      let s' = (acquire_restart_permit now s).0 in
      let w1 =
        put-IsWellFormed X c.inner.supervisees n (stop s).0 w (ground (arith, stop-spec s)) in
      let w2 =
        put-IsWellFormed X c.inner.supervisees n (stop s').0 w
          (ground (arith, stop-spec s', permit-spec now s)) in
      let w3 = put-IsWellFormed X c.inner.supervisees n s' w (ground (arith, permit-spec now s)) in
      elim (Bool-cases (is_never s.spec.cfg.restart_mode)) [
        | inl drops ↦ rw drops (w1, refl)
        | inr keeps ↦ elim (Bool-cases (acquire_restart_permit now s).1) [
          | inl granted ↦ rw (keeps, granted) (w2, refl)
          | inr denied ↦ rw (keeps, denied) (w3, refl)
        ]
      ]

  -- Returns, and the same whatever `advance_cascade` is.
  abbrev Settles : ((RestForOne X → Run (RestForOne X × Flow)) → Run (RestForOne X × Flow)) → Type 0
  Settles f =
      (r : RestForOne X × Flow) × ((advance : RestForOne X → Run (RestForOne X × Flow))
        → f advance ≡ returns r)
      × IsWellFormed X r.0.inner.supervisees

  module _ (advance : RestForOne X → Run (RestForOne X × Flow)) (now : ℕ)
      (to_restart to_drop : List ℕ) (c : RestForOne X) where
    stop_from-nil :
        {c1 : RestForOne X} {r : RestForOne X × Flow}
        → drop_each X advance to_drop c ≡ returns c1
        → advance_restart X (reversed to_restart) c1 ≡ returns r
        → stop_from X advance now [] to_restart to_drop c ≡ returns r
    unfolding stop_from
    stop_from-nil e e' = rw (stop_from, e) e'

    module _ (n : ℕ) (todo : List ℕ) where
      stop_from-absent :
          get_mut X c.inner.supervisees n ≡ returns none
          → stop_from X advance now (n ∷ todo) to_restart to_drop c
            ≡ stop_from X advance now todo to_restart to_drop c
      unfolding stop_from
      stop_from-absent e = rw (stop_from, e) refl

      stop_from-found :
          (s : Supervisee)
          → get_mut X c.inner.supervisees n ≡ returns (some s)
          → let (c', became, to_restart', to_drop') = stop_next X now n s to_restart to_drop c in
            stop_from X advance now (n ∷ todo) to_restart to_drop c ≡ elim became [
              | waits_for ↦
                  returns (
                    record c' { cascade = exiting n (reversed todo) to_restart' to_drop' },
                    continue,
                  )
              | dead ↦ stop_from X advance now todo to_restart' to_drop' c'
              | refused ↦ shutdown X c'
            ]
      unfolding stop_from
      stop_from-found s e = rw (stop_from, e) refl

  stop_from-Settles :
      (now : ℕ) (todo to_restart to_drop : List ℕ) (c : RestForOne X)
      → IsWellFormed X c.inner.supervisees
      → c.cascade ≡ idle
      → Settles (λ advance. stop_from X advance now todo to_restart to_drop c)
  stop_from-Settles now [] to_restart to_drop c w rest =
      let (c1, e, w1) = drop_each-idle to_drop c w rest in
      let (c2, e', w2, how) = advance_restart-Restarts X (reversed to_restart) c1 w1 in
      ((c2, continue), λ advance. stop_from-nil advance now to_restart to_drop c (e advance) e', w2)
  stop_from-Settles now (n ∷ todo) to_restart to_drop c w rest =
      elim (Option-cases (child X c.inner.supervisees n)) [
        | inl absent ↦
            let (r, e, w') = stop_from-Settles now todo to_restart to_drop c w rest in
            (
              r,
              λ advance.
                  stop_from-absent advance now to_restart to_drop c n todo
                    (ground (arith, get_mut-child X c.inner.supervisees n w))
                  ∙ e advance,
              w',
            )
        | inr (s, there) ↦
            let named = child-name X c.inner.supervisees n s w there in
            let got : get_mut X c.inner.supervisees n ≡ returns (some s) =
              ground (arith, get_mut-child X c.inner.supervisees n w) in
            let out = stop_next X now n s to_restart to_drop c in
            let step : (advance : RestForOne X → Run (RestForOne X × Flow))
                → stop_from X advance now (n ∷ todo) to_restart to_drop c ≡ elim out.1 [
                  | waits_for ↦
                      returns (
                        record (out.0) { cascade = exiting n (reversed todo) out.2 out.3 },
                        continue,
                      )
                  | dead ↦ stop_from X advance now todo out.2 out.3 out.0
                  | refused ↦ shutdown X out.0
                ] =
              λ advance. stop_from-found advance now to_restart to_drop c n todo s got in
            let (w1, same) = stop_next-keeps now n s to_restart to_drop c w named in
            elim (Stop-cases out.1) [
              | inl awaits ↦ (
                (record (out.0) { cascade = exiting n (reversed todo) out.2 out.3 }, continue),
                λ advance. rw (step advance, awaits) refl,
                w1,
              )
              | inr (inl over) ↦
                  let (r, e, w') = stop_from-Settles now todo out.2 out.3 out.0 w1 (same ∙ rest) in
                  (r, λ advance. rw (step advance, over) (e advance), w')
              | inr (inr denied) ↦
                  let (r, e, w') = shutdown-Returns out.0 w1 in
                  (r, λ advance. rw (step advance, denied) e, w')
            ]
      ]

  -- In a supervisor with a well-formed map a cascade always advances: it returns, panics nowhere, and
  -- one unit of fuel is as good as any number. The map stays well-formed.
  pub advance_cascade-fuel :
      (now : ℕ) (c : RestForOne X)
      → IsWellFormed X c.inner.supervisees
      → (r : RestForOne X × Flow) × ((n : ℕ) → advance_cascade X (suc n) now c ≡ returns r)
        × IsWellFormed X r.0.inner.supervisees
  unfolding advance_cascade
  advance_cascade-fuel now c w = advances c.cascade refl
    where
      advances :
          (k : Cascade)
          → c.cascade ≡ k
          → (r : RestForOne X × Flow) × ((n : ℕ) → advance_cascade X (suc n) now c ≡ returns r)
            × IsWellFormed X r.0.inner.supervisees
      advances idle at =
          ((record c { cascade = idle }, continue), λ n. rw (advance_cascade, at) refl, w)
      advances (exiting name pending to_restart to_drop) at =
          let (r, e, w') =
            stop_from-Settles now (reversed pending) to_restart to_drop
              (record c { cascade = idle }) w refl in
          (r, λ n. rw (advance_cascade, at) (e (advance_cascade X n now)), w')
      advances (restarting name pending) at =
          let (c', e, w', how) =
            advance_restart-Restarts X pending (record c { cascade = idle }) w in
          ((c', continue), λ n. rw (advance_cascade, at) e, w')
      advances (shutting_down name pending) at =
          let (r, e, w', how) =
            advance_shutdown-ShutsDown X pending (record c { cascade = idle }) w in
          (r, λ n. rw (advance_cascade, at) e, w')
