-- ===== src/Supervisor/OneForOne/Laws.antt =====
-- One-for-one keeps every child accounted for, whatever happens to it.
use zestors.Base.{
  ℕ, ◌≡◌, refl, inl, inr, true, false, Option, returns, Bool-cases, Option-cases, arith,
}
use zestors.Runtime.Status.{is_exiting, is_dead}
use zestors.Supervision.Intensity.{RestartLimiter, acquire_permit}
use zestors.Supervisor.Supervisee.{Supervisee, start, acquire_restart_permit}
use zestors.Supervisor.Supervisee.Keeps.{start-spec, permit-spec}
use zestors.Supervisor.Crates.{Crates}
use zestors.Supervisor.Children.{put}
use zestors.Supervisor.Children.Lookup.{
  IsWellFormed, child, get_mut-child, put-IsWellFormed, child-name,
}
use zestors.Supervisor.Inner.{ExitReason, reason_requires_restart, flow_of}
use zestors.Supervisor.Inner.Laws.{has}
use zestors.Supervisor.Inner.Covers.{
  Covers, AllGone, gone, Covers-AllGone, Covers-has, shutdown-Covers, remove_spec-Covers,
  swap_remove-Covers,
}
use zestors.Supervisor.Runner.Safety.{Good, Good-flow}
use zestors.Supervisor.OneForOne.{OneForOne, shutdown, remove_spec, restart, handle_exit}

module _ (X : Crates) where
  abbrev pub Inv : OneForOne X → Type 0
  Inv c = Covers X c.inner c.exiting

  abbrev pub Done : OneForOne X → Type 0
  Done c = AllGone X c.inner

  pub shutdown-Good :
      (c : OneForOne X)
      → IsWellFormed X c.inner.supervisees
      → is_dead c.inner.inbox.life.status ≡ false
      → Good Inv Done (shutdown X c)
  unfolding shutdown
  shutdown-Good c w live =
      let (r, e, covered, ended) = shutdown-Covers X c.exiting c.inner w live in
      rw e (Good-flow Inv Done (record c { inner = r.0; exiting = r.1 }) r.2 covered ended)

  pub remove_spec-Good :
      (name : ℕ) (c : OneForOne X)
      → Inv c
      → (r : OneForOne X × Option Supervisee) × (remove_spec X name c ≡ returns r) × Inv r.0
  unfolding remove_spec
  remove_spec-Good name c h =
      let (left, e, covered, box) = remove_spec-Covers X c.initializing c.exiting name c.inner h in
      (
        (
          record { inner = left.inner; initializing = left.initializing; exiting = left.exiting },
          left.removed,
        ),
        rw (remove_spec, e) refl,
        covered,
      )

  -- A supervisor that is not exiting may do what it wants to a child that stays under its name.
  put-Inv :
      (c : OneForOne X) (name : ℕ) (s : Supervisee) (l : RestartLimiter)
      → Inv c
      → is_exiting c.inner.inbox.life.status ≡ false
      → s.spec.name ≡ name
      → Inv (record c {
        inner = record (c.inner) { supervisees = put X c.inner.supervisees name s; restarter = l };
      })
  put-Inv c name s l h running named = record {
    well_formed = put-IsWellFormed X c.inner.supervisees name s h.well_formed named;
    live = h.live;
    waited = λ e j. ground arith;
    unwaited = h.unwaited;
  }

  restart-Good :
      (now name : ℕ) (s : Supervisee) (c : OneForOne X)
      → Inv c
      → is_exiting c.inner.inbox.life.status ≡ false
      → s.spec.name ≡ name
      → Good Inv Done (restart X now name s c)
  unfolding restart
  restart-Good now name s c h running named =
      let l = (acquire_permit now c.inner.restarter).0 in
      let s' = (acquire_restart_permit now s).0 in
      let named' : s'.spec.name ≡ name = ground (arith, permit-spec now s) in
      let begun : (start s').0.spec.name ≡ name = ground (arith, start-spec s') in
      elim (Bool-cases (acquire_permit now c.inner.restarter).1) [
        | inr refused ↦
            rw (restart, refused)
              (shutdown-Good (record c { inner = record (c.inner) { restarter = l } }) h.well_formed
                h.live)
        | inl granted ↦ elim (Bool-cases (acquire_restart_permit now s).1) [
          | inl allowed ↦
              rw (restart, granted, allowed) (put-Inv c name (start s').0 l h running begun)
          | inr refused ↦
              let h' = put-Inv c name s' l h running named' in
              rw (restart, granted, refused) (shutdown-Good _ h'.well_formed h'.live)
        ]
      ]

  -- The exit of a child under a supervisor that accounts for its children: it does not panic, it keeps
  -- the account, and it ends the supervisor only if every child is dead.
  pub handle_exit-Good :
      (now name : ℕ) (reason : ExitReason) (c : OneForOne X)
      → Inv c
      → gone (child X c.inner.supervisees name) ≡ true
      → (is_exiting c.inner.inbox.life.status ≡ true → has X c.exiting name ≡ true)
      → Good Inv Done (handle_exit X now name reason c)
  unfolding handle_exit
  handle_exit-Good now name reason c h g waited =
      elim (Bool-cases (X.sets.swap_remove c.exiting name).1) [
        | inl found ↦
            let ex = (X.sets.swap_remove c.exiting name).0 in
            let h' = swap_remove-Covers X c.exiting name c.inner h g in
            let there : has X c.exiting name ≡ true =
              ground (arith, X.sets.swap_remove-found c.exiting name) in
            let ending : is_exiting c.inner.inbox.life.status ≡ true =
              Covers-has X c.inner c.exiting name h there in
            rw (handle_exit, found)
              (Good-flow Inv Done (record c { exiting = ex }) (flow_of X ex) h'
                (λ b. Covers-AllGone X c.inner ex h' ending b))
        | inr absent ↦
            let running : is_exiting c.inner.inbox.life.status ≡ false =
              ground (arith, waited, X.sets.swap_remove-found c.exiting name) in
            let e = get_mut-child X c.inner.supervisees name h.well_formed in
            elim (Option-cases (child X c.inner.supervisees name)) [
              | inl unknown ↦ rw (handle_exit, absent, e, unknown) h
              | inr (s, there) ↦ elim (Bool-cases (reason_requires_restart reason s)) [
                | inl required ↦
                    rw (handle_exit, absent, e, there, required)
                      (restart-Good now name s c h running
                        (child-name X c.inner.supervisees name s h.well_formed there))
                | inr unneeded ↦
                    let (r, e', h') = remove_spec-Good name c h in
                    rw (handle_exit, absent, e, there, unneeded, e') h'
              ]
            ]
      ]
