-- ===== src/Supervisor/Runner/Next.antt =====
-- What `next` gives when the future of a child resolves, or when a signal arrives.
use zestors.Base.{ℕ, ◌≡◌, refl, none, some, returns, ◌>>=◌, continue, arith}
use zestors.Runtime.Channel.{SignalInterface, Signal, handle_signal}
use zestors.Supervisor.Supervisee.{Supervisee, SuperviseeItem, Ready, supervise}
use zestors.Supervisor.Crates.{Crates}
use zestors.Supervisor.Children.{get_mut, put}
use zestors.Supervisor.Runner.{
  Strategy, Event, InnerNext, supervisee, signalled, resolves, signals, next, handle_next, round,
}

module _ (X : Crates) (S : Strategy X) where
  -- A round, once it is known what `next` gives.
  pub round-some :
      (now : ℕ) (e : Event) (c c' : S.State) (n : InnerNext)
      → next X S e c ≡ returns (c', some n)
      → round X S now e c ≡ (handle_next X S now n c' >>= λ (c'', flow, reply). returns (c'', flow))
  unfolding round
  round-some now e c c' n h = rw (round, h) refl

  pub round-none :
      (now : ℕ) (e : Event) (c c' : S.State)
      → next X S e c ≡ returns (c', none)
      → round X S now e c ≡ returns (c', continue)
  unfolding round
  round-none now e c c' h = rw (round, h) refl

  -- The state after the child `k` has become `s'`.
  abbrev pub with_child : S.State → ℕ → Supervisee → S.State
  with_child c k s' =
      let inner = S.inner c in
      S.with_parts c (record inner { supervisees = put X inner.supervisees k s' })
        (S.initializing c)

  module _ (k : ℕ) (r : Ready) (c : S.State) where
    pub next-absent :
        get_mut X (S.inner c).supervisees k ≡ returns none
        → next X S (resolves k r) c ≡ returns (c, none)
    unfolding next
    next-absent h = ground arith

    pub next-pending :
        (s : Supervisee)
        → get_mut X (S.inner c).supervisees k ≡ returns (some s)
        → supervise r s ≡ none
        → next X S (resolves k r) c ≡ returns (c, none)
    unfolding next
    next-pending s h p = ground arith

    pub next-ready :
        (s s' : Supervisee) (item : SuperviseeItem)
        → get_mut X (S.inner c).supervisees k ≡ returns (some s)
        → supervise r s ≡ some (s', item)
        → next X S (resolves k r) c ≡ returns (with_child c k s', some (supervisee k item))
    unfolding next
    next-ready s s' item h p = ground arith

  abbrev pub with_life : S.State → SignalInterface → S.State
  with_life c s =
      let inner = S.inner c in
      let life = (handle_signal s inner.inbox.life).0 in
      S.with_parts c (record inner { inbox = record (inner.inbox) { life = life } })
        (S.initializing c)

  module _ (s : SignalInterface) (c : S.State) where
    pub next-absorbed :
        (handle_signal s (S.inner c).inbox.life).1 ≡ none
        → next X S (signals s) c ≡ returns (with_life c s, none)
    unfolding next
    next-absorbed h = ground arith

    pub next-signal :
        (x : Signal)
        → (handle_signal s (S.inner c).inbox.life).1 ≡ some x
        → next X S (signals s) c ≡ returns (with_life c s, some (signalled x))
    unfolding next
    next-signal x h = ground arith
