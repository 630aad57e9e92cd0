-- ===== src/Supervisor/Accounts/Rounds.antt =====
-- One round of the event loop keeps the account of a strategy that keeps it.
use zestors.Base.{
  sym, ℕ, ◌≡◌, refl, ◌≢◌, inl, inr, false, some, ok, err, Run, returns, Flow, Option-cases, subst,
  arith,
}
use zestors.Runtime.Status.{is_dead}
use zestors.Runtime.Channel.{SignalInterface, Signal, handle_signal}
use zestors.Supervisor.Supervisee.{
  Supervisee, SuperviseeItem, started, initialized, exit, Ready, supervise,
}
use zestors.Supervisor.Crates.{Crates}
use zestors.Supervisor.Children.{get_mut, put}
use zestors.Supervisor.Children.Lookup.{IsWellFormed, child, get_mut-child}
use zestors.Supervisor.Inner.{Inner, ExitReason, start_failure, init_exit}
use zestors.Supervisor.Children.Loops.{child_descriptions-returns}
use zestors.Supervisor.Inner.Covers.{Covers}
use zestors.Supervisor.Runner.{
  Event, children, health, register, deregister, added, removed, signals, sends, yields, resolves,
  next, handle_next, handle_initialized, on_signal, on_item, signalled, round,
}
use zestors.Supervisor.Runner.Next.{
  round-some, round-none, with_child, next-absent, next-pending, next-ready, next-absorbed,
  with_life, next-signal,
}
use zestors.Supervisor.Runner.Safety.{Good, Good-silent}
use zestors.Supervisor.Runner.{Strategy}
use zestors.Supervisor.Accounts.{Accounts, Inv, Done, Reported}
use zestors.Supervisor.Accounts.Steps.{
  handle_signal-status, inbox-Covers, add_spec-Covers, handle_initialized-Covers, resolved,
  resolved-Covers, resolved-Reported,
}

module _ (X : Crates) (S : Strategy X) (A : Accounts X S) where
  abbrev pub Holds : S.State → Type 0
  Holds = Inv X S A.exiting

  abbrev pub Finished : S.State → Type 0
  Finished c = Holds c × Done X S A.exiting c

  abbrev pub Keeps : Run (S.State × Flow) → Type 0
  Keeps = Good (Inv X S A.exiting) (Done X S A.exiting)

  -- Removals are for the strategy to permit, and nothing else.
  abbrev pub Permits : Event → S.State → Type 0
  Permits (sends (deregister name)) c = A.Removable c
  Permits (yields (removed name)) c = A.Removable c
  Permits e c = Unit

  pub with_parts-Holds :
      (c : S.State) (i : Inner X) (init : X.sets.Names)
      → Covers X i (A.exiting c)
      → Holds (S.with_parts c i init)
  with_parts-Holds c i init h =
      subst (λ k. Covers X k (A.exiting (S.with_parts c i init)))
        (sym (A.inner-with_parts c i init))
        (subst (Covers X i) (sym (A.exiting-with_parts c i init)) h)

  -- A shutdown right after the shared state was written.
  pub shutdown-Keeps :
      (c : S.State) (i : Inner X) (init : X.sets.Names)
      → IsWellFormed X i.supervisees
      → is_dead i.inbox.life.status ≡ false
      → Keeps (S.shutdown (S.with_parts c i init))
  shutdown-Keeps c i init w live =
      A.shutdown-Good (S.with_parts c i init)
        (subst (λ (k : Inner X). IsWellFormed X k.supervisees) (sym (A.inner-with_parts c i init))
          w)
        (subst (λ (k : Inner X). is_dead k.inbox.life.status ≡ false)
          (sym (A.inner-with_parts c i init)) live)

  exit-Keeps :
      (now k : ℕ) (reason : ExitReason) (c : S.State) (i : Inner X) (init : X.sets.Names)
      → Covers X i (A.exiting c)
      → Reported X i (A.exiting c) k
      → Keeps (S.handle_exit now k reason (S.with_parts c i init))
  exit-Keeps now k reason c i init h reported =
      A.handle_exit-Good now k reason (S.with_parts c i init) (with_parts-Holds c i init h) (
        subst (λ i'. Reported X i' (A.exiting (S.with_parts c i init)) k)
          (sym (A.inner-with_parts c i init))
          (subst (λ ex. Reported X i ex k) (sym (A.exiting-with_parts c i init)) reported))

  -- The shared state in which a signal, handled on the channel, finds the supervisor.
  abbrev signalled_inner : SignalInterface → S.State → Inner X
  signalled_inner s c = record (S.inner c) {
    inbox = record ((S.inner c).inbox) { life = (handle_signal s (S.inner c).inbox.life).0 };
  }

  module _ (s : SignalInterface) (c : S.State) (h : Holds c) where
    other_signal :
        (handle_signal s (S.inner c).inbox.life).1 ≢ some Signal.shutdown
        → Holds (with_life X S c s)
    other_signal other =
        let status = handle_signal-status s (S.inner c).inbox.life h.live in
        with_parts-Holds c (signalled_inner s c) (S.initializing c) (
          inbox-Covers X (S.inner c) (signalled_inner s c) (A.exiting c) h refl status.0
            (status.1 other))

    on_signal-Keeps :
        (x : Signal)
        → (handle_signal s (S.inner c).inbox.life).1 ≡ some x
        → Keeps (on_signal X S x (with_life X S c s))
    on_signal-Keeps Signal.shutdown seen =
        shutdown-Keeps c (signalled_inner s c) (S.initializing c) h.well_formed
          (handle_signal-status s (S.inner c).inbox.life h.live).0
    on_signal-Keeps Signal.suspend seen = other_signal (λ e. ground arith)
    on_signal-Keeps Signal.resume seen = other_signal (λ e. ground arith)

    signals-Keeps : (now : ℕ) → Keeps (round X S now (signals s) c)
    unfolding handle_next
    signals-Keeps now = elim (Option-cases (handle_signal s (S.inner c).inbox.life).1) [
      | inl absorbed ↦
          rw (round-none X S now (signals s) c (with_life X S c s) (next-absorbed X S s c absorbed))
            (other_signal (λ e. ground arith))
      | inr (x, seen) ↦
          rw
            (round-some X S now (signals s) c (with_life X S c s) (signalled x)
              (next-signal X S s c x seen))
            (Good-silent Holds (Done X S A.exiting) _ (on_signal-Keeps x seen))
    ]

  handle_initialized-Holds :
      (name : ℕ) (c : S.State) → Holds c → Holds (handle_initialized X S name c)
  unfolding handle_initialized
  handle_initialized-Holds name c h =
      with_parts-Holds c _ _
        (handle_initialized-Covers X (S.initializing c) (A.exiting c) name (S.inner c) h)

  module _ (k : ℕ) (r : Ready) (c : S.State) (h : Holds c) (s s' : Supervisee) where
    abbrev child_inner : Inner X
    child_inner = record (S.inner c) { supervisees = put X (S.inner c).supervisees k s' }

    item-Keeps :
        (now : ℕ) (item : SuperviseeItem)
        → child X (S.inner c).supervisees k ≡ some s
        → supervise r s ≡ some (s', item)
        → Keeps (on_item X S now k item (with_child X S c k s'))
    unfolding resolved
    item-Keeps now (started (ok _)) there got =
        with_parts-Holds c child_inner (S.initializing c)
          (resolved-Covers X k r _ _ h s s' _ there got)
    item-Keeps now (started (err e)) there got =
        exit-Keeps now k start_failure c child_inner (S.initializing c)
          (resolved-Covers X k r _ _ h s s' _ there got)
          (resolved-Reported X k r _ _ h s s' _ there got refl)
    item-Keeps now (initialized (ok _)) there got = A.after_initialized-Good now k _ (
        handle_initialized-Holds k _ (
          with_parts-Holds c child_inner (S.initializing c)
            (resolved-Covers X k r _ _ h s s' _ there got)))
    item-Keeps now (initialized (err status)) there got =
        exit-Keeps now k (init_exit status) c child_inner (S.initializing c)
          (resolved-Covers X k r _ _ h s s' _ there got)
          (resolved-Reported X k r _ _ h s s' _ there got refl)
    item-Keeps now (exit x) there got =
        exit-Keeps now k (ExitReason.exit x) c child_inner (S.initializing c)
          (resolved-Covers X k r _ _ h s s' _ there got)
          (resolved-Reported X k r _ _ h s s' _ there got refl)

  resolves-Keeps :
      (now k : ℕ) (r : Ready) (c : S.State) → Holds c → Keeps (round X S now (resolves k r) c)
  unfolding handle_next
  resolves-Keeps now k r c h =
      let e = get_mut-child X (S.inner c).supervisees k h.well_formed in
      elim (Option-cases (child X (S.inner c).supervisees k)) [
        | inl absent ↦
            rw (round-none X S now (resolves k r) c c (next-absent X S k r c (ground (arith, e)))) h
        | inr (s, there) ↦
            let found : get_mut X (S.inner c).supervisees k ≡ returns (some s) =
              ground (arith, e) in
            elim (Option-cases (supervise r s)) [
              | inl waits ↦
                  rw (round-none X S now (resolves k r) c c (next-pending X S k r c s found waits))
                    h
              | inr (got, ready) ↦
                  rw
                    (round-some X S now (resolves k r) c _ _
                      (next-ready X S k r c s got.0 got.1 found ready))
                    (Good-silent Holds (Done X S A.exiting) _
                      (item-Keeps k r c h s got.0 now got.1 there ready))
            ]
      ]

  pub round-Keeps :
      (now : ℕ) (e : Event) (c : S.State) → Holds c → Permits e c → Keeps (round X S now e c)
  unfolding round next handle_next
  round-Keeps now (signals s) c h p = signals-Keeps s c h now
  round-Keeps now (resolves k r) c h p = resolves-Keeps now k r c h
  round-Keeps now (sends health) c h p = h
  round-Keeps now (sends children) c h p =
      let (ss, e) = child_descriptions-returns X (S.inner c).supervisees h.well_formed in
      rw (round, e) h
  round-Keeps now (sends (register spec)) c h p =
      let (r, e, h') = add_spec-Covers X spec (S.inner c) (A.exiting c) h in
      rw (round, e) (with_parts-Holds c r.0 (S.initializing c) h')
  round-Keeps now (sends (deregister name)) c h p =
      let (r, e, h') = A.remove_spec-Good now name c h p in rw (round, e) h'
  round-Keeps now (yields (added spec)) c h p =
      let (r, e, h') = add_spec-Covers X spec (S.inner c) (A.exiting c) h in
      rw (round, e) (with_parts-Holds c r.0 (S.initializing c) h')
  round-Keeps now (yields (removed name)) c h p =
      let (r, e, h') = A.remove_spec-Good now name c h p in rw (round, e) h'
