-- ===== src/Supervisor/Accounts.antt =====
-- What the two strategies that stop all children at once have in common: an account of the exits that a
-- supervisor waits for while it is exiting.
pub mod Steps
pub mod Rounds
pub mod EventLoop
use zestors.Base.{ℕ, ◌≡◌, true, false, Option, Run, returns, Flow, sym, subst}
use zestors.Runtime.Status.{is_exiting, is_dead}
use zestors.Supervisor.Supervisee.{Supervisee}
use zestors.Supervisor.Crates.{Crates}
use zestors.Supervisor.Children.Lookup.{IsWellFormed, child}
use zestors.Supervisor.Inner.{Inner, ExitReason}
use zestors.Supervisor.Inner.Laws.{has}
use zestors.Supervisor.Inner.Covers.{Covers, AllGone, gone}
use zestors.Supervisor.Runner.{Strategy}
use zestors.Supervisor.Runner.Safety.{Good}

module _ (X : Crates) (S : Strategy X) (exiting : S.State → X.sets.Names) where
  abbrev pub Inv : S.State → Type 0
  Inv c = Covers X (S.inner c) (exiting c)

  abbrev pub Done : S.State → Type 0
  Done c = AllGone X (S.inner c)

-- The child `k` has been reported as dead; if the supervisor is exiting it was waited for.
pub record Reported (X : Crates) (i : Inner X) (ex : X.sets.Names) (k : ℕ) : Type 0 where
  pub dead : gone (child X i.supervisees k) ≡ true
  pub was_waited : is_exiting i.inbox.life.status ≡ true → has X ex k ≡ true

-- A strategy that keeps the account.
pub record Accounts (X : Crates) (S : Strategy X) : Type 1 where
  pub exiting : S.State → X.sets.Names
  pub inner-with_parts :
      (c : S.State) (i : Inner X) (init : X.sets.Names) → S.inner (S.with_parts c i init) ≡ i
  pub exiting-with_parts :
      (c : S.State) (i : Inner X) (init : X.sets.Names)
      → exiting (S.with_parts c i init) ≡ exiting c
  -- The states in which the removal of a child keeps it.
  pub Removable : S.State → Type 0
  pub shutdown-Good :
      (c : S.State)
      → IsWellFormed X (S.inner c).supervisees
      → is_dead (S.inner c).inbox.life.status ≡ false
      → Good (Inv X S exiting) (Done X S exiting) (S.shutdown c)
  pub remove_spec-Good :
      (now name : ℕ) (c : S.State)
      → Inv X S exiting c
      → Removable c
      → (r : S.State × Option Supervisee) × (S.remove_spec now name c ≡ returns r)
        × Inv X S exiting r.0
  pub handle_exit-Good :
      (now name : ℕ) (reason : ExitReason) (c : S.State)
      → Inv X S exiting c
      → Reported X (S.inner c) (exiting c) name
      → Good (Inv X S exiting) (Done X S exiting) (S.handle_exit now name reason c)
  pub after_initialized-Good :
      (now name : ℕ) (c : S.State)
      → Inv X S exiting c
      → Good (Inv X S exiting) (Done X S exiting) (S.after_initialized now name c)
