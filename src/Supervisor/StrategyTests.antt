-- ===== src/Supervisor/StrategyTests.antt =====
-- The properties of the strategies at a supervisor of one child, on containers made of lists.
use zestors.Base.{
  some, none, arith, ℕ, suc, ◌≡◌, refl, ◌≢◌, true, List, [], ◌∷◌, returns, Flow, continue, elem,
  if◌then◌else◌,
}
use zestors.Runtime.Status.{running, is_dead, is_exiting}
use zestors.Runtime.Channel.{SignalInterface}
use zestors.Runtime.Inbox.{Inbox, completed}
use zestors.Supervision.Intensity.{default_intensity, new_limiter, acquire_permit}
use zestors.Supervisor.Supervisee.{SuperviseeState, starting, task_ended, acquire_restart_permit}
use zestors.Supervisor.Children.Lookup.{IsWellFormed, child}
use zestors.Supervisor.Children.Starts.{begun}
use zestors.Supervisor.Inner.{start_failure, reason_requires_restart, Inner, add_spec}
use zestors.Supervisor.Inner.Laws.{Registered, add_spec-Registered}
use zestors.Supervisor.Runner.{Event, signals, resolves, run}
use zestors.Supervisor.OneForOne.{OneForOne, new, strategy, handle_exit}
use zestors.Supervisor.OneForOne.Isolation.{OnlyChanges, handle_exit-OnlyChanges}
use zestors.Supervisor.Accounts.Rounds.{Keeps}
use zestors.Supervisor.OneForOne.EventLoop.{accounts, run-one_for_one}
use zestors.Supervisor.OneForAll.EventLoop.{accounts as all_accounts, run-one_for_all}
use zestors.Supervisor.Accounts.EventLoop.{PermittedFrom}
use zestors.Supervisor.Runner.Safety.{AllPermitted}
use zestors.Supervisor.OneForAll.{
  OneForAll, strategy as all_strategy, new as new_one_for_all, finish_cascade, stop_siblings,
}
use zestors.Supervisor.OneForAll.Cascade.{child_of, Apart, NoneLeft, finish_cascade-children}
use zestors.Supervisor.OneForAll.Siblings.{Grows, Halted, joined}
use zestors.Supervisor.OneForAll.Group.{stop_siblings-Halted}
use zestors.Supervisor.RestForOne.Cascade.{RestForOne, exiting, advance_shutdown, advance_restart}
use zestors.Supervisor.RestForOne.Stopping.{advance_cascade}
use zestors.Supervisor.RestForOne.Order.{ShutsDown, advance_shutdown-ShutsDown}
use zestors.Supervisor.RestForOne.Restarting.{Restarts, advance_restart-Restarts}
use zestors.Supervisor.RestForOne.Total.{advance_cascade-fuel}
use zestors.Supervisor.RestForOne.ShuttingDown.{WindsDown, Done as NoneAlive}
use zestors.Supervisor.RestForOne.EventLoop.{after_shutdown, after_shutdown-Ends}
use zestors.Supervisor.Runner.Safety.{Ends}
use zestors.Supervisor.Tests.{child_in, crates, spec_of, one_child, one_child-IsWellFormed}

abbrev inbox : Inbox
inbox = record { life = record { status = running; spawns = []; exits = [] }; init = completed }

abbrev inner : Inner crates
inner = record { supervisees = one_child; inbox = inbox; restarter = new_limiter default_intensity }

add_spec-Registered_example :
    Registered crates (spec_of 2) inner (add_spec crates (spec_of 2) inner)
add_spec-Registered_example = add_spec-Registered crates (spec_of 2) inner one_child-IsWellFormed

abbrev happens : List (ℕ × Event)
happens =
    (10, resolves 1 task_ended)
    ∷ (20, signals SignalInterface.shutdown)
    ∷ (30, resolves 1 task_ended)
    ∷ []

run-one_for_one_example :
    Keeps crates
      (strategy crates)
      (accounts crates)
      (run crates (strategy crates) happens (new crates inner))
unfolding is_dead is_exiting
run-one_for_one_example = run-one_for_one crates happens inner one_child-IsWellFormed refl refl

-- A supervisor of the one child, which is dead.
abbrev crashed : OneForOne crates
crashed = record {
  inner = record inner {
    supervisees = record one_child { supervisees = (0, child_in 1 SuperviseeState.dead) ∷ [] };
  };
  initializing = [];
  exiting = [];
}

crashed-IsWellFormed : IsWellFormed crates crashed.inner.supervisees
crashed-IsWellFormed = record {
  holds = λ k t h. (child_in 1 SuperviseeState.dead, ground arith, ground arith);
}

handle_exit-OnlyChanges_example :
    OnlyChanges crates crashed 1
      (some (record (acquire_restart_permit 5 (child_in 1 SuperviseeState.dead)).0 {
        state = starting;
      }))
      (handle_exit crates 5 1 start_failure crashed)
unfolding child reason_requires_restart acquire_permit acquire_restart_permit
handle_exit-OnlyChanges_example =
    (handle_exit-OnlyChanges crates 5 1 start_failure crashed (child_in 1 SuperviseeState.dead)
        crashed-IsWellFormed refl refl refl).1
      refl refl

-- Nothing of it is a removal.
happens-PermittedFrom :
    PermittedFrom crates
      (all_strategy crates)
      (all_accounts crates)
      happens
      (new_one_for_all crates inner)
unfolding AllPermitted
happens-PermittedFrom = λ c r e. (tt, λ c1 e1. (tt, λ c2 e2. (tt, λ c3 e3. tt)))

run-one_for_all_example :
    Keeps crates
      (all_strategy crates)
      (all_accounts crates)
      (run crates (all_strategy crates) happens (new_one_for_all crates inner))
unfolding is_dead is_exiting
run-one_for_all_example =
    run-one_for_all crates happens inner one_child-IsWellFormed refl refl happens-PermittedFrom

-- A group restart of the one child, which has exited.
abbrev group : OneForAll crates
group = record {
  inner = inner;
  initializing = [];
  exiting = [];
  restarting = [];
  cascade_restart = 1 ∷ [];
  cascade_drop = [];
}

finish_cascade-children_example :
    (c' : OneForAll crates) × ((n : ℕ) → finish_cascade crates (suc n) group ≡ returns c')
    × Apart crates group c'
    × NoneLeft crates c'
    × ((j : ℕ)
        → child_of crates c' j ≡ (
            if elem j []
            then none
            else if elem j (1 ∷ [])
            then begun crates (child_of crates group j)
            else child_of crates group j))
finish_cascade-children_example =
    finish_cascade-children crates group one_child-IsWellFormed (λ j. refl)

stop_siblings-Halted_example :
    (r : OneForAll crates × Flow) × (stop_siblings crates 5 (1 ∷ []) group ≡ returns r)
    × Grows crates group r.0
    × (r.1 ≡ continue
        → (j : ℕ) → elem j (1 ∷ []) ≡ true
        → Halted crates r.0 j × (child_of crates group j ≢ none → joined crates r.0 j ≡ true))
stop_siblings-Halted_example = stop_siblings-Halted crates 5 (1 ∷ []) group one_child-IsWellFormed

-- A cascade that waits for the exit of the one child.
abbrev cascading : RestForOne crates
cascading = record { inner = inner; initializing = []; cascade = exiting 1 [] (1 ∷ []) [] }

advance_shutdown-ShutsDown_example :
    (r : RestForOne crates × Flow) × (advance_shutdown crates (1 ∷ []) cascading ≡ returns r)
    × IsWellFormed crates r.0.inner.supervisees
    × ShutsDown crates (1 ∷ []) cascading r
advance_shutdown-ShutsDown_example =
    advance_shutdown-ShutsDown crates (1 ∷ []) cascading one_child-IsWellFormed

advance_restart-Restarts_example :
    Restarts crates (1 ∷ []) cascading (advance_restart crates (1 ∷ []) cascading)
advance_restart-Restarts_example =
    advance_restart-Restarts crates (1 ∷ []) cascading one_child-IsWellFormed

advance_cascade-fuel_example :
    (r : RestForOne crates × Flow) × ((n : ℕ)
      → advance_cascade crates (suc n) 5 cascading ≡ returns r)
    × IsWellFormed crates r.0.inner.supervisees
advance_cascade-fuel_example = advance_cascade-fuel crates 5 cascading one_child-IsWellFormed

after_shutdown-Ends_example :
    Ends (WindsDown crates) (NoneAlive crates) (after_shutdown crates happens cascading)
unfolding is_dead
after_shutdown-Ends_example =
    after_shutdown-Ends crates happens cascading one_child-IsWellFormed refl refl tt
