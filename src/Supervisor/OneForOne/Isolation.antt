-- ===== src/Supervisor/OneForOne/Isolation.antt =====
-- One-for-one: an exit concerns the child that exited and no other, unless a permit is refused.
use zestors.Base.{
  ℕ, ◌≡◌, refl, ◌∙◌, inl, inr, Bool, true, false, ◌&&◌, Option, none, some, Run, returns, ◌>>=◌,
  Flow, continue, ◌==◌, if◌then◌else◌, subst, Run-cases, arith,
}
use zestors.Supervision.Intensity.{acquire_permit}
use zestors.Supervisor.Supervisee.{
  Supervisee, SuperviseeState, starting, start, acquire_restart_permit,
}
use zestors.Supervisor.Supervisee.Keeps.{start-spec, permit-spec, permit-state}
use zestors.Supervisor.Crates.{Crates}
use zestors.Supervisor.Children.{put}
use zestors.Supervisor.Children.Lookup.{IsWellFormed, child, get_mut-child, child-put, child-name}
use zestors.Supervisor.Inner.{Left, ExitReason, reason_requires_restart}
use zestors.Supervisor.Inner
use zestors.Supervisor.Inner.Laws.{has, Removes, remove_spec-Removes}
use zestors.Supervisor.OneForOne.{OneForOne, remove_spec, restart, handle_exit}

dead-starts :
    (s : Supervisee) → s.state ≡ SuperviseeState.dead → (start s).0 ≡ record s { state = starting }
unfolding start
dead-starts s h = ground arith

module _ (X : Crates) where
  -- What becomes of the children: `o` is that of the name, and the others stay.
  abbrev pub OnlyChanges : OneForOne X → ℕ → Option Supervisee → Run (OneForOne X × Flow) → Type 0
  OnlyChanges c name o m =
      (c' : OneForOne X) × (m ≡ returns (c', continue))
      × ((j : ℕ)
          → child X c'.inner.supervisees j
            ≡ (if name == j then o else child X c.inner.supervisees j))

  -- Both permits for a restart, the supervisor's and the child's.
  abbrev pub permitted : ℕ → Supervisee → OneForOne X → Bool
  permitted now s c = (acquire_permit now c.inner.restarter).1 && (acquire_restart_permit now s).1

  module _ (now name : ℕ) (reason : ExitReason) (c : OneForOne X) (s : Supervisee) where
    removed_only :
        IsWellFormed X c.inner.supervisees
        → OnlyChanges c name none (remove_spec X name c >>= λ (c', gone). returns (c', continue))
    unfolding remove_spec
    removed_only w = elim (Run-cases (Inner.remove_spec X c.initializing c.exiting name c.inner)) [
      | inr p ↦ absurd (
          subst (Removes X c.initializing c.exiting name c.inner) p
            (remove_spec-Removes X c.initializing c.exiting name c.inner w))
      | inl (left, p) ↦
          let out =
            subst (Removes X c.initializing c.exiting name c.inner) p
              (remove_spec-Removes X c.initializing c.exiting name c.inner w) in
          (
            record { inner = left.inner; initializing = left.initializing; exiting = left.exiting },
            rw (remove_spec, p) refl,
            out.1,
          )
    ]

    restarted_only :
        IsWellFormed X c.inner.supervisees
        → child X c.inner.supervisees name ≡ some s
        → permitted now s c ≡ true
        → OnlyChanges c name
            (some (start (acquire_restart_permit now s).0).0)
            (restart X now name s c)
    unfolding restart
    restarted_only w there both =
        let s' = (acquire_restart_permit now s).0 in
        let named : (start s').0.spec.name ≡ name = ground (
          arith,
          start-spec s',
          permit-spec now s,
          child-name X c.inner.supervisees name s w there,
        ) in
        let granted : (acquire_permit now c.inner.restarter).1 ≡ true = ground arith in
        let allowed : (acquire_restart_permit now s).1 ≡ true = ground arith in
        (
          record c {
            inner = record (c.inner) {
              supervisees = put X c.inner.supervisees name (start s').0;
              restarter = (acquire_permit now c.inner.restarter).0;
            };
          },
          rw (restart, granted, allowed) refl,
          λ j. child-put X c.inner.supervisees name (start s').0 w named j there,
        )

    -- The exit of a child that the supervisor does not wait for. If the child is not to be restarted it
    -- is removed; if it is and both permits are granted, it is starting again, with its permit used up;
    -- and either way the supervisor goes on and no other child has changed.
    pub handle_exit-OnlyChanges :
        IsWellFormed X c.inner.supervisees
        → has X c.exiting name ≡ false
        → child X c.inner.supervisees name ≡ some s
        → s.state ≡ SuperviseeState.dead
        → (reason_requires_restart reason s ≡ false
            → OnlyChanges c name none (handle_exit X now name reason c))
          × (reason_requires_restart reason s ≡ true
              → permitted now s c ≡ true
              → OnlyChanges c name
                  (some (record (acquire_restart_permit now s).0 { state = starting }))
                  (handle_exit X now name reason c))
    unfolding handle_exit
    handle_exit-OnlyChanges w away there dead =
        let e = get_mut-child X c.inner.supervisees name w in
        let absent : (X.sets.swap_remove c.exiting name).1 ≡ false =
          ground (arith, X.sets.swap_remove-found c.exiting name) in
        let begins = dead-starts (acquire_restart_permit now s).0 (permit-state now s ∙ dead) in
        (
          λ unneeded. rw (handle_exit, absent, e, there, unneeded) (removed_only w),
          λ required both.
              rw (handle_exit, absent, e, there, required)
                (subst (λ t. OnlyChanges c name (some t) (restart X now name s c)) begins
                  (restarted_only w there both)),
        )
