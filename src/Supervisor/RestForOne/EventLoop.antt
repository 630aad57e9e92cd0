-- ===== src/Supervisor/RestForOne/EventLoop.antt =====
-- The event loop of a rest-for-one supervisor from the start of its shutdown to its end.
use zestors.Base.{ℕ, ◌≡◌, false, Run, returns, panics, ◌>>=◌, Flow, continue, break, List, [], ◌∷◌}
use zestors.Runtime.Status.{is_dead}
use zestors.Supervisor.Crates.{Crates}
use zestors.Supervisor.Children.Lookup.{IsWellFormed}
use zestors.Supervisor.Runner.{
  Event, children, health, register, deregister, added, removed, signals, sends, yields, resolves,
  run_events,
}
use zestors.Supervisor.Runner.Safety.{Ends, AllPermitted, run_events-Ends}
use zestors.Supervisor.RestForOne.Cascade.{RestForOne, shutdown, is_shutdown}
use zestors.Supervisor.RestForOne.Exits.{strategy}
use zestors.Supervisor.RestForOne.ShuttingDown.{WindsDown, Done, shutdown-Ends}
use zestors.Supervisor.RestForOne.Rounds.{Winds, KeepsChildren, round-Winds}

-- Every event but the removal of a child.
abbrev pub NoRemovals : List (ℕ × Event) → Type 0
NoRemovals [] = Unit
NoRemovals ((now, sends (deregister name)) ∷ es) = ⊥
NoRemovals ((now, yields (removed name)) ∷ es) = ⊥
NoRemovals ((now, e) ∷ es) = NoRemovals es

module _ (X : Crates) where
  NoRemovals-AllPermitted :
      (es : List (ℕ × Event)) (c : RestForOne X)
      → NoRemovals es
      → AllPermitted X (strategy X) (WindsDown X) (Done X) (KeepsChildren X) es c
  unfolding AllPermitted
  NoRemovals-AllPermitted [] c p = tt
  NoRemovals-AllPermitted ((now, signals s) ∷ es) c p =
      (tt, λ c' e. NoRemovals-AllPermitted es c' p)
  NoRemovals-AllPermitted ((now, resolves k r) ∷ es) c p =
      (tt, λ c' e. NoRemovals-AllPermitted es c' p)
  NoRemovals-AllPermitted ((now, sends health) ∷ es) c p =
      (tt, λ c' e. NoRemovals-AllPermitted es c' p)
  NoRemovals-AllPermitted ((now, sends children) ∷ es) c p =
      (tt, λ c' e. NoRemovals-AllPermitted es c' p)
  NoRemovals-AllPermitted ((now, sends (register spec)) ∷ es) c p =
      (tt, λ c' e. NoRemovals-AllPermitted es c' p)
  NoRemovals-AllPermitted ((now, yields (added spec)) ∷ es) c p =
      (tt, λ c' e. NoRemovals-AllPermitted es c' p)
  NoRemovals-AllPermitted ((now, sends (deregister name)) ∷ es) c p = absurd p
  NoRemovals-AllPermitted ((now, yields (removed name)) ∷ es) c p = absurd p

  -- The events from the start of the shutdown on.
  abbrev pub after_shutdown : List (ℕ × Event) → RestForOne X → Run (RestForOne X × Flow)
  after_shutdown es c = shutdown X c >>= λ (c', flow). elim flow [
    | break ↦ returns (c', break)
    | continue ↦ run_events X (strategy X) es c'
  ]

  -- From the moment a rest-for-one supervisor shuts down, with a well-formed map of children and an inbox
  -- that is not dead, whatever comes but the removal of a child, in any order: it never panics; while it
  -- runs it waits for one child, which is shutting down, and every other child that is not dead is
  -- pending; and it ends only when every child is dead.
  pub after_shutdown-Ends :
      (es : List (ℕ × Event)) (c : RestForOne X)
      → IsWellFormed X c.inner.supervisees
      → is_dead c.inner.inbox.life.status ≡ false
      → is_shutdown X c.cascade ≡ false
      → NoRemovals es
      → Ends (WindsDown X) (Done X) (after_shutdown es c)
  after_shutdown-Ends es c w live first p = go (shutdown X c) (shutdown-Ends X c w live first)
    where
      go :
          (m : Run (RestForOne X × Flow))
          → Winds X m
          → Winds X (
              m >>= λ (c', flow). elim flow [
                | break ↦ returns (c', break)
                | continue ↦ run_events X (strategy X) es c'
              ])
      go panics h = h
      go (returns (c', break)) h = h
      go (returns (c', continue)) h =
          run_events-Ends X (strategy X) (WindsDown X) (Done X) (KeepsChildren X) (round-Winds X) es
            c' h (NoRemovals-AllPermitted es c' p)
