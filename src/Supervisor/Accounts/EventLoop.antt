-- ===== src/Supervisor/Accounts/EventLoop.antt =====
-- The event loop of a strategy that keeps the account, from its start to its end.
use zestors.Base.{
  ℕ, ◌≡◌, refl, inl, inr, false, Result, ok, err, returns, Flow, continue, break, List,
  Result-cases, arith,
}
use zestors.Runtime.Status.{is_exiting}
use zestors.Supervisor.Crates.{Crates}
use zestors.Supervisor.Inner.{Inner, extend}
use zestors.Supervisor.Inner.Covers.{Covers}
use zestors.Supervisor.Children.Loops.{names-child}
use zestors.Supervisor.Children.Starts.{start_all-child}
use zestors.Supervisor.Runner.{Strategy, Event, start as start_children, run_events, run}
use zestors.Supervisor.Runner.Safety.{Good-returns, AllPermitted, run_events-Ends}
use zestors.Supervisor.Accounts.{Accounts, Done}
use zestors.Supervisor.Accounts.Rounds.{
  Finished, Holds, Keeps, Permits, with_parts-Holds, shutdown-Keeps, round-Keeps,
}

module _ (X : Crates) (S : Strategy X) (A : Accounts X S) where
  start-Keeps :
      (c : S.State)
      → Holds X S A c
      → is_exiting (S.inner c).inbox.life.status ≡ false
      → (r : S.State × Flow × Result (Unit {0}) ℕ) × (start_children X S c ≡ returns r)
        × Keeps X S A (returns (r.0, r.1))
  unfolding start_children
  start-Keeps c h running =
      let (m, result, started_all, w, rest, fully) =
        start_all-child X (S.inner c).supervisees h.well_formed in
      let (ks, listed, named) = names-child X m w in
      let i : Inner X = record (S.inner c) { supervisees = m } in
      let init = extend X X.sets.new ks in
      let h' : Covers X i (A.exiting c) = record {
        well_formed = w;
        live = h.live;
        waited = λ e j. ground arith;
        unwaited = h.unwaited;
      } in
      elim (Result-cases result) [
        | inl (done, fine) ↦ (
          (S.with_parts c i init, continue, ok done),
          rw (start_children, started_all, listed, fine) refl,
          with_parts-Holds X S A c i init h',
        )
        | inr (name, failed) ↦
            let (r, stopped, good) =
              Good-returns (Holds X S A) (Done X S A.exiting) (S.shutdown (S.with_parts c i init))
                (shutdown-Keeps X S A c i init w h.live) in
            (
              (r.0, r.1, err name),
              rw (start_children, started_all, listed, failed, stopped) refl,
              good,
            )
      ]

  -- What comes after the start is permitted.
  abbrev pub PermittedFrom : List (ℕ × Event) → S.State → Type 0
  PermittedFrom es c =
      (c' : S.State) (r : Result (Unit {0}) ℕ)
      → start_children X S c ≡ returns (c', continue, r)
      → AllPermitted X S (Holds X S A) (Finished X S A) (Permits X S A) es c'

  pub run-Keeps :
      (es : List (ℕ × Event)) (c : S.State)
      → Holds X S A c
      → is_exiting (S.inner c).inbox.life.status ≡ false
      → PermittedFrom es c
      → Keeps X S A (run X S es c)
  unfolding run
  run-Keeps es c h running permitted =
      let (r, e, good) = start-Keeps c h running in
      rw (run, e) (go r.0 r.1 (λ stays. permitted r.0 r.2 (ground arith)) good)
    where
      go :
          (c' : S.State) (flow : Flow)
          → (flow ≡ continue
              → AllPermitted X S (Holds X S A) (Finished X S A) (Permits X S A) es c')
          → Keeps X S A (returns (c', flow))
          → Keeps X S A
              (elim flow [ break ↦ returns (c', break) | continue ↦ run_events X S es c' ])
      go c' continue p good =
          run_events-Ends X S (Holds X S A) (Finished X S A) (Permits X S A) (round-Keeps X S A) es
            c' good (p refl)
      go c' break p good = good
