-- ===== src/Supervisor/RestForOne/Rounds.antt =====
-- One round of the event loop of a rest-for-one supervisor that shuts down.
use zestors.Base.{
  ℕ, ◌≡◌, refl, sym, ap, ◌∙◌, inl, inr, true, false, some, ok, err, Run, returns, Flow, elem, ◌==◌,
  if◌then◌else◌, subst, Bool-cases, Option-cases, arith,
}
use zestors.Runtime.Status.{is_exiting, is_initializing}
use zestors.Runtime.Lifecycle.{Lifecycle}
use zestors.Runtime.Channel.{SignalInterface, Signal, handle_signal}
use zestors.Supervisor.Supervisee.{
  Supervisee, SuperviseeState, SuperviseeItem, started, initialized, exit, Ready, supervise,
}
use zestors.Supervision.Config.{ChildSpec}
use zestors.Supervisor.Supervisee.Keeps.{ends, supervise-spec}
use zestors.Supervisor.Crates.{Crates}
use zestors.Supervisor.Children.{get_mut}
use zestors.Supervisor.Children.Lookup.{
  IsWellFormed, child, get_mut-child, child-put, put-IsWellFormed, child-name,
}
use zestors.Supervisor.Children.Loops.{child_descriptions-returns}
use zestors.Supervisor.Inner.{
  Inner, ExitReason, start_failure, init_exit, add_spec, handle_initialized as inner_initialized,
}
use zestors.Supervisor.Inner.Covers.{gone}
use zestors.Supervisor.Runner.{
  Event, children, health, register, deregister, added, removed, signals, sends, yields, resolves,
  next, handle_next, handle_initialized, on_signal, on_item, signalled, round,
}
use zestors.Supervisor.Runner.Next.{
  round-some, round-none, with_child, with_life, next-absent, next-pending, next-ready,
  next-absorbed, next-signal,
}
use zestors.Supervisor.Runner.Safety.{Ends, Ends-silent}
use zestors.Supervisor.RestForOne.Cascade.{RestForOne}
use zestors.Supervisor.RestForOne.Exits.{strategy, handle_exit}
use zestors.Supervisor.RestForOne.ShuttingDown.{
  WindsDown, Done, waited-Ends, exit-pending, shutdown-again, initialized-elsewhere,
}

signal-exiting :
    (s : SignalInterface) (c : Lifecycle)
    → is_exiting c.status ≡ true
    → is_exiting (handle_signal s c).0.status ≡ true
unfolding handle_signal is_exiting
signal-exiting s c h = ground arith

module _ (X : Crates) where
  abbrev pub Winds : Run (RestForOne X × Flow) → Type 0
  Winds = Ends (WindsDown X) (Done X)

  -- The inbox may change as long as it is exiting, and so may what is not of the children or the cascade.
  kept :
      (c c' : RestForOne X)
      → WindsDown X c
      → c'.inner.supervisees ≡ c.inner.supervisees
      → is_exiting c'.inner.inbox.life.status ≡ true
      → c'.cascade ≡ c.cascade
      → WindsDown X c'
  kept c c' h m ending same = record {
    well_formed = subst (IsWellFormed X) (sym m) h.well_formed;
    exits = ending;
    waited = h.waited;
    pending = h.pending;
    at = same ∙ h.at;
    stopping = ground (arith, h.stopping);
    covered = λ j. ground (arith, h.covered j);
  }

  module _ (s : SignalInterface) (c : RestForOne X) (h : WindsDown X c) where
    after_signal : WindsDown X (with_life X (strategy X) c s)
    after_signal =
        kept c (with_life X (strategy X) c s) h refl (signal-exiting s c.inner.inbox.life h.exits)
          refl

    on_signal-Winds :
        (x : Signal) → Winds (on_signal X (strategy X) x (with_life X (strategy X) c s))
    on_signal-Winds Signal.shutdown =
        rw
          (shutdown-again X 0 0 start_failure (with_life X (strategy X) c s) h.waited h.pending
            h.at)
          after_signal
    on_signal-Winds Signal.suspend = after_signal
    on_signal-Winds Signal.resume = after_signal

    signals-Winds : (now : ℕ) → Winds (round X (strategy X) now (signals s) c)
    unfolding handle_next
    signals-Winds now = elim (Option-cases (handle_signal s c.inner.inbox.life).1) [
      | inl absorbed ↦
          rw
            (round-none X (strategy X) now (signals s) c (with_life X (strategy X) c s)
              (next-absorbed X (strategy X) s c absorbed))
            after_signal
      | inr (x, seen) ↦
          rw
            (round-some X (strategy X) now (signals s) c (with_life X (strategy X) c s)
              (signalled x) (next-signal X (strategy X) s c x seen))
            (Ends-silent (WindsDown X) (Done X) _ (on_signal-Winds x))
    ]

  initialized-same :
      (init : X.sets.Names) (name : ℕ) (i : Inner X)
      → is_exiting i.inbox.life.status ≡ true
      → (inner_initialized X init name i).0 ≡ i
  unfolding inner_initialized is_exiting is_initializing
  initialized-same init name i h = ground arith

  module _ (k : ℕ) (r : Ready) (c : RestForOne X) (h : WindsDown X c) (s s' : Supervisee)
      (item : SuperviseeItem) (there : child X c.inner.supervisees k ≡ some s)
      (got : supervise r s ≡ some (s', item)) where
    named : s'.spec.name ≡ k
    named = ground (
      arith,
      supervise-spec r s s' item got,
      child-name X c.inner.supervisees k s h.well_formed there,
    )

    alive_before : gone (some s) ≡ false
    unfolding supervise
    alive_before = ground arith

    c1 : RestForOne X
    c1 = with_child X (strategy X) c k s'

    child_after :
        (j : ℕ)
        → child X c1.inner.supervisees j
          ≡ (if k == j then some s' else child X c.inner.supervisees j)
    unfolding c1
    child_after j = child-put X c.inner.supervisees k s' h.well_formed named j there

    -- A pending child has got ahead of its turn.
    pending_ahead : h.waited == k ≡ false → WindsDown X c1
    unfolding c1
    pending_ahead other = record {
      well_formed = put-IsWellFormed X c.inner.supervisees k s' h.well_formed named;
      exits = h.exits;
      waited = h.waited;
      pending = h.pending;
      at = h.at;
      stopping = ground (arith, child_after h.waited, h.stopping);
      covered = λ j. ground (arith, child_after j, h.covered j, h.covered k, alive_before);
    }

    is_queued : h.waited == k ≡ false → elem k h.pending ≡ true
    is_queued other = ground (arith, h.covered k, alive_before)

    -- The child that is waited for can only exit.
    waited_exits :
        h.waited == k ≡ true
        → (x : SuperviseeItem) → item ≡ x
        → (ends x ≡ true) × (s'.state ≡ SuperviseeState.dead)
    unfolding supervise
    waited_exits same x e = ground (arith, h.stopping)

  module _ (now k : ℕ) (r : Ready) (c : RestForOne X) (h : WindsDown X c) (s s' : Supervisee)
      (there : child X c.inner.supervisees k ≡ some s) where
    exit-Winds :
        (reason : ExitReason) (item : SuperviseeItem)
        → supervise r s ≡ some (s', item)
        → Winds (handle_exit X now k reason (with_child X (strategy X) c k s'))
    unfolding c1
    exit-Winds reason item got = elim (Bool-cases (h.waited == k)) [
      | inl same ↦
          let dead = (waited_exits k r c h s s' item there got same item refl).1 in
          waited-Ends X now k reason (with_child X (strategy X) c k s') h.waited h.pending h.at
            (put-IsWellFormed X c.inner.supervisees k s' h.well_formed
              (named k r c h s s' item there got))
            h.exits same (ground (arith, child_after k r c h s s' item there got k))
            (λ j. ground (arith, child_after k r c h s s' item there got j, h.covered j))
      | inr other ↦
          rw
            (exit-pending X now k reason (with_child X (strategy X) c k s') h.waited h.pending h.at
              other (is_queued k r c h s s' item there got other))
            (pending_ahead k r c h s s' item there got other)
    ]

    item-Winds :
        (item : SuperviseeItem)
        → supervise r s ≡ some (s', item)
        → Winds (on_item X (strategy X) now k item (with_child X (strategy X) c k s'))
    unfolding c1 handle_initialized
    item-Winds (started (err e)) got = exit-Winds start_failure (started (err e)) got
    item-Winds (initialized (err status)) got =
        exit-Winds (init_exit status) (initialized (err status)) got
    item-Winds (exit x) got = exit-Winds (ExitReason.exit x) (exit x) got
    item-Winds (started (ok u)) got = elim (Bool-cases (h.waited == k)) [
      | inl same ↦
          let no =
            (waited_exits k r c h s s' (started (ok u)) there got same (started (ok u)) refl).0 in
          ground arith
      | inr other ↦ pending_ahead k r c h s s' (started (ok u)) there got other
    ]
    item-Winds (initialized (ok u)) got = elim (Bool-cases (h.waited == k)) [
      | inl same ↦
          let no =
            (waited_exits k r c h s s' (initialized (ok u)) there got same (initialized (ok u))
              refl).0 in
          ground arith
      | inr other ↦
          let c2 = with_child X (strategy X) c k s' in
          let c3 = handle_initialized X (strategy X) k c2 in
          let inner_same : c3.inner ≡ c2.inner =
            initialized-same c2.initializing k c2.inner h.exits in
          let h2 = pending_ahead k r c h s s' (initialized (ok u)) there got other in
          let h3 =
            kept c2 c3 h2 (ap (λ (i : Inner X). i.supervisees) inner_same)
              (ap (λ (i : Inner X). is_exiting i.inbox.life.status) inner_same ∙ h.exits) refl in
          rw (initialized-elsewhere X now k start_failure c3 h.waited h.pending h.at other) h3
    ]

  resolves-Winds :
      (now k : ℕ) (r : Ready) (c : RestForOne X)
      → WindsDown X c
      → Winds (round X (strategy X) now (resolves k r) c)
  unfolding handle_next
  resolves-Winds now k r c h =
      let S = strategy X in
      let e = get_mut-child X c.inner.supervisees k h.well_formed in
      elim (Option-cases (child X c.inner.supervisees k)) [
        | inl absent ↦
            rw (round-none X S now (resolves k r) c c (next-absent X S k r c (ground (arith, e)))) h
        | inr (s, there) ↦
            let found : get_mut X c.inner.supervisees k ≡ returns (some s) = ground (arith, e) in
            elim (Option-cases (supervise r s)) [
              | inl waits ↦
                  rw (round-none X S now (resolves k r) c c (next-pending X S k r c s found waits))
                    h
              | inr (got, ready) ↦
                  rw
                    (round-some X S now (resolves k r) c _ _
                      (next-ready X S k r c s got.0 got.1 found ready))
                    (Ends-silent (WindsDown X) (Done X) _
                      (item-Winds now k r c h s got.0 there got.1 ready))
            ]
      ]

  -- A supervisor that is exiting takes no child.
  add_spec-refused :
      (spec : ChildSpec) (i : Inner X)
      → is_exiting i.inbox.life.status ≡ true
      → add_spec X spec i ≡ returns (i, ok tt)
  unfolding add_spec
  add_spec-refused spec i h = rw (add_spec, h) refl

  abbrev pub KeepsChildren : Event → RestForOne X → Type 0
  KeepsChildren (sends (deregister name)) c = ⊥
  KeepsChildren (yields (removed name)) c = ⊥
  KeepsChildren e c = Unit

  pub round-Winds :
      (now : ℕ) (e : Event) (c : RestForOne X)
      → WindsDown X c
      → KeepsChildren e c
      → Winds (round X (strategy X) now e c)
  unfolding round next handle_next
  round-Winds now (signals s) c h p = signals-Winds s c h now
  round-Winds now (resolves k r) c h p = resolves-Winds now k r c h
  round-Winds now (sends health) c h p = h
  round-Winds now (sends children) c h p =
      let (ss, e) = child_descriptions-returns X c.inner.supervisees h.well_formed in
      rw (round, e) h
  round-Winds now (sends (register spec)) c h p =
      rw (round, add_spec-refused spec c.inner h.exits) h
  round-Winds now (yields (added spec)) c h p = rw (round, add_spec-refused spec c.inner h.exits) h
  round-Winds now (sends (deregister name)) c h p = absurd p
  round-Winds now (yields (removed name)) c h p = absurd p
