-- ===== src/Supervisor/RestForOne/ShuttingDown.antt =====
-- A rest-for-one supervisor that shuts down: what it keeps from one exit to the next.
use zestors.Base.{
  ℕ, ◌≡◌, refl, sym, ap, ◌∙◌, inl, inr, true, false, ◌||◌, returns, Flow, continue, break, List, [],
  ◌∷◌, elem, elem-append, reversed, ◌==◌, Bool-cases, Option-cases, Run-cases, arith,
}
use zestors.Runtime.Status.{is_exiting, is_dead}
use zestors.Runtime.Inbox.{register_exiting}
use zestors.Supervisor.Supervisee.{stop, is_shutting_down}
use zestors.Supervisor.Crates.{Crates}
use zestors.Supervisor.Children.{get_mut}
use zestors.Supervisor.Children.Lookup.{IsWellFormed, child}
use zestors.Supervisor.Children.Loops.{names-child}
use zestors.Supervisor.Inner.{ExitReason}
use zestors.Supervisor.Inner.Covers.{AllGone, gone, exiting_after}
use zestors.Supervisor.Runner.Safety.{Ends}
use zestors.Supervisor.RestForOne.Cascade.{
  idle, shutting_down, current, pending_contains, is_shutdown, RestForOne, set_child, shutdown,
  shutdown_from, advance_shutdown,
}
use zestors.Supervisor.RestForOne.Stopping.{advance_cascade}
use zestors.Supervisor.RestForOne.Exits.{
  handle_exit, after_initialized, handle_cascade_current_exit,
}
use zestors.Supervisor.RestForOne.Order.{is_stopping, elem-reversed, Ordered, shutdown_from-Ordered}

module _ (X : Crates) where
  -- The cascade shuts down. The child it waits for is shutting down, and every child that is not dead is
  -- that one or pending.
  pub record WindsDown (c : RestForOne X) : Type 0 where
    pub well_formed : IsWellFormed X c.inner.supervisees
    pub exits : is_exiting c.inner.inbox.life.status ≡ true
    pub waited : ℕ
    pub pending : List ℕ
    pub at : c.cascade ≡ shutting_down waited pending
    pub stopping : is_stopping (child X c.inner.supervisees waited) ≡ true
    pub covered :
        (j : ℕ) → (gone (child X c.inner.supervisees j) || (waited == j || elem j pending)) ≡ true

  abbrev pub Done : RestForOne X → Type 0
  Done c = AllGone X c.inner

  -- The inbox is that of the state before.
  shutdown_from-inbox :
      (todo : List ℕ) (c : RestForOne X) (r : RestForOne X × Flow)
      → shutdown_from X todo c ≡ returns r
      → r.0.inner.inbox ≡ c.inner.inbox
  unfolding shutdown_from
  shutdown_from-inbox [] c r e = ground arith
  shutdown_from-inbox (n ∷ todo) c r e = elim (Run-cases (get_mut X c.inner.supervisees n)) [
    | inr p ↦ ground arith
    | inl (found, p) ↦ elim (Option-cases found) [
      | inl absent ↦ shutdown_from-inbox todo c r (ground arith)
      | inr (s, there) ↦ elim (Bool-cases (is_shutting_down (stop s).1)) [
        | inl waits ↦ ground arith
        | inr dead ↦ shutdown_from-inbox todo (set_child X c n (stop s).0) r (ground arith)
      ]
    ]
  ]

  -- A shutdown of children among which are all that are not dead.
  advance_shutdown-Ends :
      (pending : List ℕ) (c : RestForOne X)
      → IsWellFormed X c.inner.supervisees
      → is_exiting c.inner.inbox.life.status ≡ true
      → ((j : ℕ) → (gone (child X c.inner.supervisees j) || elem j pending) ≡ true)
      → Ends WindsDown Done (advance_shutdown X pending c)
  unfolding advance_shutdown
  advance_shutdown-Ends pending c w ending all =
      let (r, e, w', ordered, keeps) = shutdown_from-Ordered X (reversed pending) c w in
      rw e (
        go r w'
          (ap (λ b. is_exiting b.life.status) (shutdown_from-inbox (reversed pending) c r e)
            ∙ ending)
          ordered keeps)
    where
      go :
          (r : RestForOne X × Flow)
          → IsWellFormed X r.0.inner.supervisees
          → is_exiting r.0.inner.inbox.life.status ≡ true
          → Ordered X (reversed pending) c r
          → ((j : ℕ)
              → gone (child X c.inner.supervisees j) ≡ true
              → child X r.0.inner.supervisees j ≡ child X c.inner.supervisees j)
          → Ends WindsDown Done (returns r)
      go (c', break) w' ending' (rests, all_gone, others) keeps =
          λ j. ground (arith, all j, all_gone j, others j, elem-reversed X j pending)
      go (c', continue) w' ending' (done, next, left, split, waits, all_gone, stops, others) keeps =
          record {
            well_formed = w';
            exits = ending';
            waited = next;
            pending = reversed left;
            at = waits;
            stopping = stops;
            covered = λ j.
                let parts : elem j pending ≡ (elem j done || elem j (next ∷ left)) =
                  sym (elem-reversed X j pending)
                  ∙ ap (elem j) split
                  ∙ elem-append j done (next ∷ left) in
                ground (arith, all j, all_gone j, keeps j, elem-reversed X j left);
          }

  -- The start of a shutdown.
  pub shutdown-Ends :
      (c : RestForOne X)
      → IsWellFormed X c.inner.supervisees
      → is_dead c.inner.inbox.life.status ≡ false
      → is_shutdown X c.cascade ≡ false
      → Ends WindsDown Done (shutdown X c)
  unfolding shutdown
  shutdown-Ends c w live first =
      let (ks, listed, named) = names-child X c.inner.supervisees w in
      let c1 : RestForOne X = record c {
        inner = record (c.inner) { inbox = (register_exiting c.inner.inbox).0 };
      } in
      rw (shutdown, first, listed)
        (advance_shutdown-Ends ks c1 w (exiting_after X c.inner.inbox live) (λ j.
          elim (Option-cases (child X c.inner.supervisees j)) [
            | inl absent ↦ ground arith
            | inr (s, there) ↦ ground (arith, named j)
          ]))

  module _ (now k : ℕ) (reason : ExitReason) (c : RestForOne X) (waited : ℕ) (pending : List ℕ)
      (at : c.cascade ≡ shutting_down waited pending) where
    exit-waited :
        waited == k ≡ true
        → handle_exit X now k reason c ≡ advance_shutdown X pending (record c { cascade = idle })
    unfolding handle_exit handle_cascade_current_exit advance_cascade current
    exit-waited same = rw (handle_exit, at, same) refl

    pub exit-pending :
        waited == k ≡ false
        → elem k pending ≡ true
        → handle_exit X now k reason c ≡ returns (c, continue)
    unfolding handle_exit current pending_contains
    exit-pending other queued = rw (handle_exit, at, other, queued) refl

    pub shutdown-again : shutdown X c ≡ returns (c, continue)
    unfolding shutdown
    shutdown-again = rw (shutdown, at) refl

    pub initialized-elsewhere :
        waited == k ≡ false → after_initialized X now k c ≡ returns (c, continue)
    unfolding after_initialized current
    initialized-elsewhere other = rw (after_initialized, at, other) refl

  -- The exit of the child that is waited for: its place is taken by the next one, or the supervisor ends.
  pub waited-Ends :
      (now k : ℕ) (reason : ExitReason) (c : RestForOne X) (waited : ℕ) (pending : List ℕ)
      → c.cascade ≡ shutting_down waited pending
      → IsWellFormed X c.inner.supervisees
      → is_exiting c.inner.inbox.life.status ≡ true
      → waited == k ≡ true
      → gone (child X c.inner.supervisees k) ≡ true
      → ((j : ℕ) → (gone (child X c.inner.supervisees j) || (waited == j || elem j pending)) ≡ true)
      → Ends WindsDown Done (handle_exit X now k reason c)
  waited-Ends now k reason c waited pending at w ending same dead covered =
      rw (exit-waited now k reason c waited pending at same) (
        advance_shutdown-Ends pending (record c { cascade = idle }) w ending
          (λ j. elim (Bool-cases (k == j)) [
            | inl it ↦ ground (arith, covered j)
            | inr other ↦ ground (arith, covered j)
          ]))
