-- ===== src/Supervisor/OneForOne/EventLoop.antt =====
-- The event loop of a one-for-one supervisor, from its start to its end.
use zestors.Base.{ℕ, ◌≡◌, refl, false, List, [], ◌∷◌, arith}
use zestors.Runtime.Status.{is_exiting, is_dead}
use zestors.Supervisor.Crates.{Crates}
use zestors.Supervisor.Children.Lookup.{IsWellFormed}
use zestors.Supervisor.Inner.{Inner}
use zestors.Supervisor.Inner.Covers.{Covers}
use zestors.Supervisor.Runner.{
  Event, signals, sends, yields, resolves, children, health, register, deregister, added, removed,
  run,
}
use zestors.Supervisor.Runner.Safety.{AllPermitted}
use zestors.Supervisor.Accounts.{Accounts}
use zestors.Supervisor.Accounts.Rounds.{Finished, Holds, Keeps, Permits}
use zestors.Supervisor.Accounts.EventLoop.{run-Keeps}
use zestors.Supervisor.OneForOne.{OneForOne, new, strategy}
use zestors.Supervisor.OneForOne.Laws.{shutdown-Good, remove_spec-Good, handle_exit-Good}

module _ (X : Crates) where
  -- A child may be removed in any state.
  abbrev pub accounts : Accounts X (strategy X)
  accounts = record {
    exiting = λ c. c.exiting;
    inner-with_parts = λ c i init. refl;
    exiting-with_parts = λ c i init. refl;
    Removable = λ c. Unit;
    shutdown-Good = shutdown-Good X;
    remove_spec-Good = λ now name c h p. remove_spec-Good X name c h;
    handle_exit-Good =
        λ now name reason c h r. handle_exit-Good X now name reason c h r.dead r.was_waited;
    after_initialized-Good = λ now name c h. h;
  }

  event_allowed : (e : Event) (c : OneForOne X) → Permits X (strategy X) accounts e c
  event_allowed (sends (deregister name)) c = tt
  event_allowed (sends children) c = tt
  event_allowed (sends health) c = tt
  event_allowed (sends (register spec)) c = tt
  event_allowed (yields (removed name)) c = tt
  event_allowed (yields (added spec)) c = tt
  event_allowed (signals s) c = tt
  event_allowed (resolves k r) c = tt

  run_allowed :
      (es : List (ℕ × Event)) (c : OneForOne X)
      → AllPermitted X
          (strategy X)
          (Holds X (strategy X) accounts)
          (Finished X (strategy X) accounts)
          (Permits X (strategy X) accounts)
          es
          c
  unfolding AllPermitted
  run_allowed [] c = tt
  run_allowed ((now, e) ∷ es) c = (event_allowed e c, λ c' p. run_allowed es c')

  pub new-Holds :
      (i : Inner X)
      → IsWellFormed X i.supervisees
      → is_dead i.inbox.life.status ≡ false
      → is_exiting i.inbox.life.status ≡ false
      → Covers X i X.sets.new
  new-Holds i w live running = record {
    well_formed = w;
    live = live;
    waited = λ e j. ground arith;
    unwaited = λ e j. ground (arith, X.sets.to_list-new);
  }

  -- A one-for-one supervisor with a well-formed map of children and an inbox that is neither dead nor
  -- exiting, whatever signals, messages, source events and child events then come, in any order and at
  -- any times: it never panics; once it is exiting, every child that is not dead is shutting down and
  -- waited for; and it ends only when every child is dead.
  pub run-one_for_one :
      (es : List (ℕ × Event)) (i : Inner X)
      → IsWellFormed X i.supervisees
      → is_dead i.inbox.life.status ≡ false
      → is_exiting i.inbox.life.status ≡ false
      → Keeps X (strategy X) accounts (run X (strategy X) es (new X i))
  unfolding new
  run-one_for_one es i w live running =
      run-Keeps X (strategy X) accounts es (new X i) (new-Holds i w live running) running
        (λ c r e. run_allowed es c)
