-- ===== src/Supervisor/OneForAll/EventLoop.antt =====
-- The event loop of a one-for-all supervisor, from its start to its end.
use zestors.Base.{ℕ, ◌≡◌, refl, false, List}
use zestors.Runtime.Status.{is_exiting, is_dead}
use zestors.Supervisor.Crates.{Crates}
use zestors.Supervisor.Children.Lookup.{IsWellFormed}
use zestors.Supervisor.Inner.{Inner}
use zestors.Supervisor.Runner.{Event, run}
use zestors.Supervisor.Accounts.{Accounts}
use zestors.Supervisor.Accounts.Rounds.{Keeps}
use zestors.Supervisor.Accounts.EventLoop.{PermittedFrom, run-Keeps}
use zestors.Supervisor.OneForOne.EventLoop.{new-Holds}
use zestors.Supervisor.OneForAll.{new, strategy}
use zestors.Supervisor.OneForAll.Laws.{Runs, shutdown-Good, remove_spec-Good, handle_exit-Good}

module _ (X : Crates) where
  -- A child may be removed as long as the supervisor is not exiting.
  abbrev pub accounts : Accounts X (strategy X)
  accounts = record {
    exiting = λ c. c.exiting;
    inner-with_parts = λ c i init. refl;
    exiting-with_parts = λ c i init. refl;
    Removable = Runs X;
    shutdown-Good = shutdown-Good X;
    remove_spec-Good = λ now. remove_spec-Good X;
    handle_exit-Good = handle_exit-Good X;
    after_initialized-Good = λ now name c h. h;
  }

  -- A one-for-all supervisor with a well-formed map of children and an inbox that is neither dead nor
  -- exiting, whatever signals, messages, source events and child events then come, in any order and at
  -- any times, if no child is deregistered or removed by the source while it is exiting: it never panics,
  -- group restarts included; once it is exiting, every child that is not dead is shutting down and waited
  -- for; and it ends only when every child is dead.
  pub run-one_for_all :
      (es : List (ℕ × Event)) (i : Inner X)
      → IsWellFormed X i.supervisees
      → is_dead i.inbox.life.status ≡ false
      → is_exiting i.inbox.life.status ≡ false
      → PermittedFrom X (strategy X) accounts es (new X i)
      → Keeps X (strategy X) accounts (run X (strategy X) es (new X i))
  unfolding new
  run-one_for_all es i w live running permitted =
      run-Keeps X (strategy X) accounts es (new X i) (new-Holds X i w live running) running
        permitted
