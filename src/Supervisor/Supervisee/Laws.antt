-- ===== src/Supervisor/Supervisee/Laws.antt =====
-- The life of a supervisee: which events follow a start and a stop, and when it is restarted.
use zestors.Base.{ℕ, suc, ◌+◌, ◌≡◌, Bool, true, false, none, some, Result, ok, List, [], ◌∷◌, arith}
use zestors.Runtime.Status.{ExitStatus, normal}
use zestors.Supervision.Config.{should_restart}
use zestors.Supervisor.Supervisee.{
  Supervisee, SuperviseeState, SuperviseeExit, join_error, normal_exit, normal_shutdown, panic,
  aborted, unhandled_error, SuperviseeItem, started, initialized, exit, StopOutcome, cancelled,
  SuperviseeIsShuttingDown, is_shutting_down, Ready, start, stop, supervise, requires_restart,
  requires_restart_for_init_exit,
}

-- The status that an exit leaves on the child's channel.
abbrev pub status_of : SuperviseeExit → ExitStatus
status_of (join_error panic) = ExitStatus.panicked
status_of (join_error aborted) = ExitStatus.aborted
status_of (join_error unhandled_error) = ExitStatus.unhandled_error
status_of normal_exit = normal
status_of normal_shutdown = normal

-- Whether an exit, before or after initialization, requires a restart is what `should_restart` of the
-- child's restart mode says of the exit status.
pub requires_restart-should_restart :
    (s : Supervisee) (x : SuperviseeExit) (e : ExitStatus)
    → (requires_restart s x ≡ should_restart s.spec.cfg.restart_mode (status_of x))
      × (requires_restart_for_init_exit s e ≡ should_restart s.spec.cfg.restart_mode e)
unfolding requires_restart requires_restart_for_init_exit should_restart
requires_restart-should_restart s x e = ground arith

-- The events that end a shutdown.
abbrev EndsShutdown : SuperviseeItem → Type 0
EndsShutdown (exit normal_shutdown) = Unit
EndsShutdown (exit (join_error e)) = Unit
EndsShutdown item = ⊥

-- After a stop the supervisee is dead and waits for nothing, or it is shutting down and the one event
-- that can follow is an exit, which leaves it dead. `StopOutcome::is_shutting_down` tells which.
pub stop-supervise :
    (s : Supervisee) (r : Ready)
    → let (s', outcome) = stop s in
      (is_shutting_down outcome ≡ false
        → (s'.state ≡ SuperviseeState.dead) × (supervise r s' ≡ none))
      × (is_shutting_down outcome ≡ true
          → (s'.state ≡ SuperviseeState.shutting_down)
            × ((t : Supervisee) (item : SuperviseeItem)
                → supervise r s' ≡ some (t, item)
                → (t.state ≡ SuperviseeState.dead) × EndsShutdown item))
unfolding stop supervise
stop-supervise s r =
    (λ h. ground arith, λ h. (ground arith, λ t item e. (ground arith, ground arith)))

-- What is done to a supervisee: its supervisor starts and stops it, and its future gets ready.
pub data Act : Type 0 where
  starts stops : Act
  gets : Ready → Act

-- How many runs were begun, were cancelled before anything was spawned, and were reported as over.
pub record Runs : Type 0 where
  pub begun : ℕ
  pub cancelled_early : ℕ
  pub over : ℕ

abbrev count_start : Result Bool SuperviseeIsShuttingDown → Runs → Runs
count_start (ok true) n = record n { begun = suc n.begun }
count_start _ n = n

abbrev count_stop : StopOutcome → Runs → Runs
count_stop cancelled n = record n { cancelled_early = suc n.cancelled_early }
count_stop _ n = n

abbrev count_item : SuperviseeItem → Runs → Runs
count_item (started (ok _)) n = n
count_item (initialized (ok _)) n = n
count_item _ n = record n { over = suc n.over }

pub act : Act → Supervisee × Runs → Supervisee × Runs
act starts (s, n) = ((start s).0, count_start (start s).1 n)
act stops (s, n) = ((stop s).0, count_stop (stop s).1 n)
act (gets r) (s, n) = elim (supervise r s) [
  | none ↦ (s, n)
  | some (s', item) ↦ (s', count_item item n)
]

pub acts : List Act → Supervisee × Runs → Supervisee × Runs
acts [] p = p
acts (a ∷ as') p = acts as' (act a p)

-- One run is under way, unless the supervisee is dead.
abbrev pub running_now : SuperviseeState → ℕ
running_now SuperviseeState.dead = 0
running_now _ = 1

abbrev pub Accounts : Supervisee × Runs → Type 0
Accounts (s, n) = n.begun ≡ n.cancelled_early + n.over + running_now s.state

act-Accounts : (a : Act) (p : Supervisee × Runs) → Accounts p → Accounts (act a p)
unfolding act start stop supervise
act-Accounts a (s, n) h = ground arith

-- Whatever is done to a supervisee, in any order, each run that was begun is still under way, was
-- cancelled before its task was spawned, or has been reported by exactly one event: a failed start, an
-- exit before initialization, or an exit.
pub acts-Accounts : (as' : List Act) (p : Supervisee × Runs) → Accounts p → Accounts (acts as' p)
unfolding acts
acts-Accounts [] p h = h
acts-Accounts (a ∷ as') p h = acts-Accounts as' (act a p) (act-Accounts a p h)
