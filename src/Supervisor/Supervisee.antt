-- ===== src/Supervisor/Supervisee.antt =====
-- crates/supervisor/src/actor/supervisee.rs: one child, and where it is between being started and dead.
-- The futures that a state holds are left out: what they resolve to is an argument of `supervise`.
pub mod Laws
pub mod Keeps
use zestors.Base.{ℕ, Bool, true, false, Option, none, some, Result, ok, err}
use zestors.Runtime.Status.{ExitStatus, normal}
use zestors.Supervision.Config.{
  RestartMode, always, on_error, never, ChildConfig, ChildSpec, ChildDescription,
}
use zestors.Supervision.Intensity.{RestartLimiter, new_limiter, acquire_permit}

-- `JoinError` of crates/runtime/src/errors.rs.
pub data JoinError : Type 0 where
  panic aborted unhandled_error : JoinError

pub data SuperviseeExit : Type 0 where
  join_error : JoinError → SuperviseeExit
  normal_exit normal_shutdown : SuperviseeExit

pub data StartSuperviseeError : Type 0 where
  concurrent_inbox instantiation timeout : StartSuperviseeError

-- `From<StartOnError>`, and `From<Elapsed>`.
pub data StartOnError : Type 0 where
  concurrent_inbox instantiation : StartOnError

unfoldable pub from_start_error : StartOnError → StartSuperviseeError
from_start_error StartOnError.concurrent_inbox = StartSuperviseeError.concurrent_inbox
from_start_error StartOnError.instantiation = StartSuperviseeError.instantiation

pub data SuperviseeState : Type 0 where
  starting initializing alive shutting_down dead : SuperviseeState

pub data SuperviseeItem : Type 0 where
  started : Result (Unit {0}) StartSuperviseeError → SuperviseeItem
  initialized : Result (Unit {0}) ExitStatus → SuperviseeItem
  exit : SuperviseeExit → SuperviseeItem

pub data StopOutcome : Type 0 where
  dead cancelled shutting_down : StopOutcome

abbrev pub is_shutting_down : StopOutcome → Bool
is_shutting_down StopOutcome.shutting_down = true
is_shutting_down _ = false

-- The waker is left out: it only gets a changed state polled.
pub record Supervisee : Type 0 where
  pub spec : ChildSpec
  pub state : SuperviseeState
  pub restarter : Option RestartLimiter

unfoldable pub new : ChildSpec → Supervisee
new spec = record {
  spec = spec;
  state = SuperviseeState.dead;
  restarter = elim (spec.cfg.intensity) [ none ↦ none | some i ↦ some (new_limiter i) ];
}

unfoldable pub get_description : Supervisee → ChildDescription
get_description s = record { name = s.spec.name; cfg = s.spec.cfg }

abbrev restart_on_exit : RestartMode → SuperviseeExit → Bool
restart_on_exit always _ = true
restart_on_exit never _ = false
restart_on_exit on_error (join_error _) = true
restart_on_exit on_error _ = false

unfoldable pub requires_restart : Supervisee → SuperviseeExit → Bool
requires_restart s e = restart_on_exit s.spec.cfg.restart_mode e

abbrev restart_on_init_exit : RestartMode → ExitStatus → Bool
restart_on_init_exit always _ = true
restart_on_init_exit never _ = false
restart_on_init_exit on_error normal = false
restart_on_init_exit on_error _ = true

unfoldable pub requires_restart_for_init_exit : Supervisee → ExitStatus → Bool
requires_restart_for_init_exit s e = restart_on_init_exit s.spec.cfg.restart_mode e

-- `acquire_restart_permit` at the time `now`.
unfoldable pub acquire_restart_permit : ℕ → Supervisee → Supervisee × Bool
acquire_restart_permit now s = elim s.restarter [
  | none ↦ (s, true)
  | some l ↦ let (l', granted) = acquire_permit now l in (record s { restarter = some l' }, granted)
]

-- `SuperviseeIsShuttingDown`.
pub data SuperviseeIsShuttingDown : Type 0 where
  is_shutting_down_error : SuperviseeIsShuttingDown

abbrev start_in : SuperviseeState → SuperviseeState × Result Bool SuperviseeIsShuttingDown
start_in SuperviseeState.dead = (starting, ok true)
start_in SuperviseeState.shutting_down = (SuperviseeState.shutting_down, err is_shutting_down_error)
start_in s = (s, ok false)

unfoldable pub start : Supervisee → Supervisee × Result Bool SuperviseeIsShuttingDown
start s = let (state, result) = start_in s.state in (record s { state = state }, result)

abbrev stop_in : SuperviseeState → SuperviseeState × StopOutcome
stop_in SuperviseeState.dead = (SuperviseeState.dead, StopOutcome.dead)
stop_in starting = (SuperviseeState.dead, cancelled)
stop_in _ = (SuperviseeState.shutting_down, StopOutcome.shutting_down)

unfoldable pub stop : Supervisee → Supervisee × StopOutcome
stop s = let (state, outcome) = stop_in s.state in (record s { state = state }, outcome)

-- What the future that a supervisee waits for resolves to.
pub data Ready : Type 0 where
  spawned : Ready
  start_failed : StartSuperviseeError → Ready
  init_done : Ready
  init_exited : ExitStatus → Ready
  task_ended : Ready
  join_failed : JoinError → Ready

-- `none` is a future that is still pending, or not the one of this state.
abbrev supervise_in : SuperviseeState → Ready → Option (SuperviseeState × SuperviseeItem)
supervise_in starting spawned = some (initializing, started (ok tt))
supervise_in starting (start_failed e) = some (SuperviseeState.dead, started (err e))
supervise_in initializing init_done = some (alive, initialized (ok tt))
supervise_in initializing (init_exited e) = some (SuperviseeState.dead, initialized (err e))
supervise_in alive task_ended = some (SuperviseeState.dead, exit normal_exit)
supervise_in alive (join_failed e) = some (SuperviseeState.dead, exit (join_error e))
supervise_in SuperviseeState.shutting_down task_ended =
    some (SuperviseeState.dead, exit normal_shutdown)
supervise_in SuperviseeState.shutting_down (join_failed e) =
    some (SuperviseeState.dead, exit (join_error e))
supervise_in _ _ = none

unfoldable pub supervise : Ready → Supervisee → Option (Supervisee × SuperviseeItem)
supervise r s = elim (supervise_in s.state r) [
  | none ↦ none
  | some (state, item) ↦ some (record s { state = state }, item)
]
