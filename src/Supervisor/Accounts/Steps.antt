-- ===== src/Supervisor/Accounts/Steps.antt =====
-- What one event does to the state that the strategies share, as far as the account goes.
use zestors.Base.{
  sym, ℕ, ◌≡◌, ◌≢◌, inl, inr, true, false, some, Result, ok, err, returns, Run-cases, subst, arith,
}
use zestors.Runtime.Status.{is_exiting, is_dead, is_initializing}
use zestors.Runtime.Lifecycle.{Lifecycle}
use zestors.Runtime.Channel.{SignalInterface, Signal, handle_signal}
use zestors.Supervision.Config.{ChildSpec}
use zestors.Supervisor.Supervisee.{Supervisee, SuperviseeItem, SuperviseeState, Ready, supervise}
use zestors.Supervisor.Supervisee.Keeps.{ends, supervise-spec}
use zestors.Supervisor.Crates.{Crates}
use zestors.Supervisor.Children.{put}
use zestors.Supervisor.Children.Lookup.{
  IsWellFormed, child, child-put, put-IsWellFormed, child-name,
}
use zestors.Supervisor.Inner.{Inner, add_spec, handle_initialized as inner_initialized}
use zestors.Runtime.Inbox.{register_initialized}
use zestors.Supervisor.Inner.Laws.{has, Registered, add_spec-Registered}
use zestors.Supervisor.Inner.Covers.{Covers}
use zestors.Supervisor.Accounts.{Reported}

-- A signal that is not a shutdown neither ends an actor nor makes it exit.
pub handle_signal-status :
    (s : SignalInterface) (c : Lifecycle)
    → is_dead c.status ≡ false
    → (is_dead (handle_signal s c).0.status ≡ false)
      × ((handle_signal s c).1 ≢ some Signal.shutdown
          → is_exiting (handle_signal s c).0.status ≡ is_exiting c.status)
unfolding handle_signal is_dead is_exiting
handle_signal-status s c h = (ground arith, λ k. ground arith)

module _ (X : Crates) where
  -- The rest of the state does not matter to the account.
  pub inbox-Covers :
      (i i' : Inner X) (ex : X.sets.Names)
      → Covers X i ex
      → i'.supervisees ≡ i.supervisees
      → is_dead i'.inbox.life.status ≡ false
      → is_exiting i'.inbox.life.status ≡ is_exiting i.inbox.life.status
      → Covers X i' ex
  inbox-Covers i i' ex h m live same = record {
    well_formed = subst (IsWellFormed X) (sym m) h.well_formed;
    live = live;
    waited = λ e j. ground (arith, h.waited (ground arith) j);
    unwaited = λ e j. h.unwaited (ground arith) j;
  }

  pub add_spec-Covers :
      (spec : ChildSpec) (i : Inner X) (ex : X.sets.Names)
      → Covers X i ex
      → (r : Inner X × Result (Unit {0}) ℕ) × (add_spec X spec i ≡ returns r) × Covers X r.0 ex
  add_spec-Covers spec i ex h = elim (Run-cases (add_spec X spec i)) [
    | inr p ↦ absurd (subst (Registered X spec i) p (add_spec-Registered X spec i h.well_formed))
    | inl (r, p) ↦
        (r, p, go r (subst (Registered X spec i) p (add_spec-Registered X spec i h.well_formed)))
  ]
    where
      go : (r : Inner X × Result (Unit {0}) ℕ) → Registered X spec i (returns r) → Covers X r.0 ex
      go (i', err name) (same, named, running, taken) = subst (λ k. Covers X k ex) (sym same) h
      go (i', ok _) (inl (ending, same)) = subst (λ k. Covers X k ex) (sym same) h
      go (i', ok _) (inr (running, absent, after, box, w)) = record {
        well_formed = w;
        live = ground (arith, h.live);
        waited = λ e j. ground arith;
        unwaited = λ e j. h.unwaited running j;
      }

  pub handle_initialized-Covers :
      (init ex : X.sets.Names) (name : ℕ) (i : Inner X)
      → Covers X i ex
      → Covers X (inner_initialized X init name i).0 ex
  unfolding inner_initialized is_initializing is_exiting is_dead register_initialized
  handle_initialized-Covers init ex name i h =
      inbox-Covers i (inner_initialized X init name i).0 ex h (ground arith)
        (ground (arith, h.live)) (ground arith)

  -- A child of which the awaited future has resolved.
  module _ (k : ℕ) (r : Ready) (i : Inner X) (ex : X.sets.Names) (h : Covers X i ex)
      (s s' : Supervisee) (item : SuperviseeItem) (there : child X i.supervisees k ≡ some s)
      (got : supervise r s ≡ some (s', item)) where
    named : s'.spec.name ≡ k
    named =
        ground (
          arith,
          supervise-spec r s s' item got,
          child-name X i.supervisees k s h.well_formed there,
        )

    unfoldable pub resolved : Inner X
    resolved = record i { supervisees = put X i.supervisees k s' }

    -- While the supervisor is exiting only children that are shutting down are left to resolve.
    was_waiting :
        is_exiting i.inbox.life.status ≡ true
        → (has X ex k ≡ true) × (s'.state ≡ SuperviseeState.dead)
    unfolding supervise
    was_waiting e = ground (arith, h.waited e k)

    pub resolved-Covers : Covers X resolved ex
    unfolding resolved
    resolved-Covers = record {
      well_formed = put-IsWellFormed X i.supervisees k s' h.well_formed named;
      live = h.live;
      waited = λ e j. ground (
        arith,
        child-put X i.supervisees k s' h.well_formed named j there,
        was_waiting e,
        h.waited e j,
      );
      unwaited = h.unwaited;
    }

    pub resolved-Reported : ends item ≡ true → Reported X resolved ex k
    unfolding resolved
    resolved-Reported e = record {
      dead = ground (
        arith,
        child-put X i.supervisees k s' h.well_formed named k there,
        (supervise-spec r s s' item got).1 e,
      );
      was_waited = λ x. (was_waiting x).0;
    }
