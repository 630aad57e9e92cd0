-- ===== src/Supervisor/OneForAll/Laws.antt =====
-- One-for-all keeps every child accounted for, as long as none is removed while the supervisor is exiting.
use zestors.Base.{
  ℕ, ◌≡◌, refl, ap, ◌∙◌, inl, inr, true, false, ◌&&◌, Option, none, some, returns, ◌>>=◌, Flow,
  continue, break, if◌then◌else◌, subst, Bool-cases, Option-cases, arith,
}
use zestors.Runtime.Status.{is_exiting, is_dead}
use zestors.Supervision.Intensity.{acquire_permit}
use zestors.Supervisor.Supervisee.{Supervisee, acquire_restart_permit}
use zestors.Supervisor.Supervisee.Keeps.{permit-spec}
use zestors.Supervisor.Crates.{Crates}
use zestors.Supervisor.Children.Lookup.{
  IsWellFormed, child, get_mut-child, put-IsWellFormed, child-name,
}
use zestors.Supervisor.Children.Loops.{names-child}
use zestors.Supervisor.Inner.{ExitReason, reason_requires_restart, flow_of}
use zestors.Supervisor.Inner.Laws.{has, flow_of-break}
use zestors.Supervisor.Inner.Covers.{
  Covers, AllGone, Covers-AllGone, Covers-has, shutdown-Covers, remove_spec-Covers,
  swap_remove-Covers,
}
use zestors.Supervisor.Runner.Safety.{Good, Good-flow}
use zestors.Supervisor.Accounts.{Reported}
use zestors.Supervisor.OneForAll.{
  OneForAll, set_child, shutdown, remove_spec, finish_cascade, siblings_of, start_cascade, restart,
  handle_exit,
}
use zestors.Supervisor.OneForAll.Cascade.{NoneLeft, finish_cascade-children}
use zestors.Supervisor.OneForAll.Group.{stop_siblings-Halted}

module _ (X : Crates) where
  abbrev pub Inv : OneForAll X → Type 0
  Inv c = Covers X c.inner c.exiting

  abbrev pub Done : OneForAll X → Type 0
  Done c = AllGone X c.inner

  abbrev pub Runs : OneForAll X → Type 0
  Runs c = is_exiting c.inner.inbox.life.status ≡ false

  pub shutdown-Good :
      (c : OneForAll X)
      → IsWellFormed X c.inner.supervisees
      → is_dead c.inner.inbox.life.status ≡ false
      → Good Inv Done (shutdown X c)
  unfolding shutdown
  shutdown-Good c w live =
      let (r, e, covered, ended) = shutdown-Covers X c.exiting c.inner w live in
      rw e (Good-flow Inv Done (record c { inner = r.0; exiting = r.1 }) r.2 covered ended)

  -- A supervisor that is not exiting waits for nothing, whatever else changes.
  running-Inv :
      (c c' : OneForAll X)
      → Inv c
      → Runs c
      → IsWellFormed X c'.inner.supervisees
      → c'.inner.inbox ≡ c.inner.inbox
      → ((j : ℕ) → has X c'.exiting j ≡ true → has X c.exiting j ≡ true)
      → Inv c'
  running-Inv c c' h running w box fewer = record {
    well_formed = w;
    live = ground (arith, h.live);
    waited = λ e j. ground arith;
    unwaited = λ e j. ground (arith, fewer j, h.unwaited running j);
  }

  -- An empty set of exits that the cascade waits for.
  empty-NoneLeft : (c : OneForAll X) → X.sets.is_empty c.restarting ≡ true → NoneLeft X c
  empty-NoneLeft c e j = flow_of-break X c.restarting j (ground arith)

  finish-Inv :
      (c : OneForAll X)
      → Inv c
      → Runs c
      → X.sets.is_empty c.restarting ≡ true
      → (c' : OneForAll X) × (finish_cascade X 1 c ≡ returns c') × Inv c' × Runs c'
  finish-Inv c h running none_left =
      let (c', e, apart, quiet, after) =
        finish_cascade-children X c h.well_formed (empty-NoneLeft c none_left) in
      (
        c',
        e 0,
        running-Inv c c' h running apart.well_formed apart.inbox apart.fewer,
        ap (λ b. is_exiting b.life.status) apart.inbox ∙ running,
      )

  abbrev forgotten : ℕ → OneForAll X → OneForAll X
  forgotten name c = record c {
    cascade_restart = (X.sets.swap_remove c.cascade_restart name).0;
    cascade_drop = (X.sets.swap_remove c.cascade_drop name).0;
  }

  pub remove_spec-Good :
      (name : ℕ) (c : OneForAll X)
      → Inv c
      → Runs c
      → (r : OneForAll X × Option Supervisee) × (remove_spec X name c ≡ returns r) × Inv r.0
  unfolding remove_spec
  remove_spec-Good name c h running =
      let (left, e, covered, box) = remove_spec-Covers X c.initializing c.exiting name c.inner h in
      let c1 : OneForAll X = record c {
        inner = left.inner;
        initializing = left.initializing;
        exiting = left.exiting;
      } in
      let (restarting, found) = X.sets.swap_remove c.restarting name in
      let c2 = record c1 { restarting = restarting } in
      let runs2 : Runs c2 = ap (λ b. is_exiting b.life.status) box ∙ running in
      elim (Option-cases left.removed) [
        | inl absent ↦ ((c1, none), ground arith, covered)
        | inr (s, there) ↦ elim (Bool-cases (found && X.sets.is_empty restarting)) [
          | inl ends ↦
              let (c3, finished, h3, runs3) = finish-Inv c2 covered runs2 (ground arith) in
              ((forgotten name c3, some s), ground arith, h3)
          | inr goes_on ↦ ((forgotten name c2, some s), ground arith, covered)
        ]
      ]

  start_cascade-Good :
      (now trigger : ℕ) (c : OneForAll X)
      → Inv c
      → Runs c
      → Good Inv Done (start_cascade X now trigger c)
  unfolding start_cascade
  start_cascade-Good now trigger c h running =
      let (all, listed, named) = names-child X c.inner.supervisees h.well_formed in
      let (r, stopped, grows, halts) =
        stop_siblings-Halted X now (siblings_of X trigger c all) c h.well_formed in
      let h' =
        running-Inv c r.0 h running grows.well_formed grows.inbox
          (λ j e. subst (λ ex. has X ex j ≡ true) grows.exiting e) in
      let runs' : Runs r.0 = ap (λ b. is_exiting b.life.status) grows.inbox ∙ running in
      rw (start_cascade, listed, stopped) (ends r.0 r.1 h' runs')
    where
      ends :
          (c' : OneForAll X) (flow : Flow)
          → Inv c'
          → Runs c'
          → Good Inv Done (elim flow [
            | break ↦ shutdown X c'
            | continue ↦
                if X.sets.is_empty c'.restarting
                then (finish_cascade X 1 c' >>= λ c''. returns (c'', continue))
                else returns (c', continue)
          ])
      ends c' break h' runs' = shutdown-Good c' h'.well_formed h'.live
      ends c' continue h' runs' = elim (Bool-cases (X.sets.is_empty c'.restarting)) [
        | inl none_left ↦
            let (c2, finished, h2, runs2) = finish-Inv c' h' runs' none_left in
            rw (none_left, finished) h2
        | inr some_left ↦ rw some_left h'
      ]

  restart-Good :
      (now name : ℕ) (s : Supervisee) (c : OneForAll X)
      → Inv c
      → Runs c
      → s.spec.name ≡ name
      → Good Inv Done (restart X now name s c)
  unfolding restart
  restart-Good now name s c h running named =
      let l = (acquire_permit now c.inner.restarter).0 in
      let c1 : OneForAll X = record c { inner = record (c.inner) { restarter = l } } in
      let s' = (acquire_restart_permit now s).0 in
      let w' =
        put-IsWellFormed X c.inner.supervisees name s' h.well_formed
          (ground (arith, permit-spec now s)) in
      let h' = running-Inv c (set_child X c1 name s') h running w' refl (λ j e. e) in
      elim (Bool-cases (acquire_permit now c.inner.restarter).1) [
        | inr refused ↦ rw (restart, refused) (shutdown-Good c1 h.well_formed h.live)
        | inl granted ↦ elim (Bool-cases (acquire_restart_permit now s).1) [
          | inl allowed ↦
              let c2 = set_child X c1 name s' in
              rw (restart, granted, allowed)
                (start_cascade-Good now name
                  (record c2 { cascade_restart = X.sets.insert c2.cascade_restart name }) h'
                  running)
          | inr refused ↦
              rw (restart, granted, refused)
                (shutdown-Good (set_child X c1 name s') h'.well_formed h'.live)
        ]
      ]

  pub handle_exit-Good :
      (now name : ℕ) (reason : ExitReason) (c : OneForAll X)
      → Inv c
      → Reported X c.inner c.exiting name
      → Good Inv Done (handle_exit X now name reason c)
  unfolding handle_exit
  handle_exit-Good now name reason c h reported =
      elim (Bool-cases (X.sets.swap_remove c.exiting name).1) [
        | inl found ↦
            let ex = (X.sets.swap_remove c.exiting name).0 in
            let h' = swap_remove-Covers X c.exiting name c.inner h reported.dead in
            let there : has X c.exiting name ≡ true =
              ground (arith, X.sets.swap_remove-found c.exiting name) in
            rw (handle_exit, found)
              (Good-flow Inv Done (record c { exiting = ex }) (flow_of X ex) h'
                (λ b.
                  Covers-AllGone X c.inner ex h' (Covers-has X c.inner c.exiting name h there) b))
        | inr absent ↦
            let running : Runs c =
              ground (arith, reported.was_waited, X.sets.swap_remove-found c.exiting name) in
            let restarting = (X.sets.swap_remove c.restarting name).0 in
            let c1 = record c { restarting = restarting } in
            elim (Bool-cases (X.sets.swap_remove c.restarting name).1) [
              | inl stopped ↦ elim (Bool-cases (X.sets.is_empty restarting)) [
                | inl none_left ↦
                    let (c2, finished, h2, runs2) = finish-Inv c1 h running none_left in
                    rw (handle_exit, absent, stopped, none_left, finished) h2
                | inr some_left ↦ rw (handle_exit, absent, stopped, some_left) h
              ]
              | inr alone ↦
                  let e = get_mut-child X c.inner.supervisees name h.well_formed in
                  elim (Option-cases (child X c.inner.supervisees name)) [
                    | inl unknown ↦ rw (handle_exit, absent, alone, e, unknown) h
                    | inr (s, there) ↦ elim (Bool-cases (reason_requires_restart reason s)) [
                      | inl required ↦
                          rw (handle_exit, absent, alone, e, there, required)
                            (restart-Good now name s c h running
                              (child-name X c.inner.supervisees name s h.well_formed there))
                      | inr unneeded ↦
                          let (r, removed, h') = remove_spec-Good name c h running in
                          rw (handle_exit, absent, alone, e, there, unneeded, removed) h'
                    ]
                  ]
            ]
      ]
