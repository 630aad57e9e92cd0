-- ===== src/Runtime/Status.antt =====
-- crates/runtime/src/status.rs: what an actor is doing, and how its last run ended.
pub mod Laws
use zestors.Base.{◌≡◌, Bool, true, false, Result, ok, err, ◌&&◌}

-- `ExitError` of crates/runtime/src/errors.rs.
pub data ExitError : Type 0 where
  panicked aborted unhandled_error : ExitError

pub data ExitStatus : Type 0 where
  normal panicked aborted unhandled_error : ExitStatus

pub data ActorStatus : Type 0 where
  exited : ExitStatus → ActorStatus
  initializing running suspended exiting : ActorStatus

pub data ActorStatusKind : Type 0 where
  exited initializing running suspended exiting : ActorStatusKind

pub ExitStatus-discrete : Discrete ExitStatus
ExitStatus-discrete = hlevel

-- What a task ends with: `Result<(), ExitError>`.
abbrev pub ExitResult : Type 0
ExitResult = Result (Unit {0}) ExitError

unfoldable pub from_error : ExitError → ExitStatus
from_error ExitError.panicked = ExitStatus.panicked
from_error ExitError.aborted = ExitStatus.aborted
from_error ExitError.unhandled_error = ExitStatus.unhandled_error

unfoldable pub from_result : ExitResult → ExitStatus
from_result (ok _) = normal
from_result (err ExitError.panicked) = ExitStatus.panicked
from_result (err ExitError.aborted) = ExitStatus.aborted
from_result (err ExitError.unhandled_error) = ExitStatus.unhandled_error

unfoldable pub into_result : ExitStatus → ExitResult
into_result normal = ok tt
into_result ExitStatus.panicked = err ExitError.panicked
into_result ExitStatus.aborted = err ExitError.aborted
into_result ExitStatus.unhandled_error = err ExitError.unhandled_error

unfoldable pub is_normal : ExitStatus → Bool
is_normal normal = true
is_normal _ = false

unfoldable pub is_error : ExitStatus → Bool
is_error normal = false
is_error _ = true

unfoldable pub should_exit : ActorStatus → Bool
should_exit (ActorStatus.exited _) = true
should_exit ActorStatus.exiting = true
should_exit _ = false

unfoldable pub accepts_messages : ActorStatus → Bool
accepts_messages ActorStatus.initializing = true
accepts_messages ActorStatus.running = true
accepts_messages ActorStatus.suspended = true
accepts_messages _ = false

unfoldable pub is_running : ActorStatus → Bool
is_running ActorStatus.running = true
is_running _ = false

unfoldable pub is_suspended : ActorStatus → Bool
is_suspended ActorStatus.suspended = true
is_suspended _ = false

unfoldable pub is_exiting : ActorStatus → Bool
is_exiting ActorStatus.exiting = true
is_exiting _ = false

unfoldable pub is_dead : ActorStatus → Bool
is_dead (ActorStatus.exited _) = true
is_dead _ = false

unfoldable pub is_initializing : ActorStatus → Bool
is_initializing ActorStatus.initializing = true
is_initializing _ = false

unfoldable pub kind : ActorStatus → ActorStatusKind
kind (ActorStatus.exited _) = ActorStatusKind.exited
kind ActorStatus.initializing = ActorStatusKind.initializing
kind ActorStatus.running = ActorStatusKind.running
kind ActorStatus.suspended = ActorStatusKind.suspended
kind ActorStatus.exiting = ActorStatusKind.exiting

-- The derived `==` of two kinds.
unfoldable pub same_kind : ActorStatusKind → ActorStatusKind → Bool
same_kind ActorStatusKind.exited ActorStatusKind.exited = true
same_kind ActorStatusKind.initializing ActorStatusKind.initializing = true
same_kind ActorStatusKind.running ActorStatusKind.running = true
same_kind ActorStatusKind.suspended ActorStatusKind.suspended = true
same_kind ActorStatusKind.exiting ActorStatusKind.exiting = true
same_kind _ _ = false

unfoldable pub matches : ActorStatusKind → ActorStatus → Bool
unfolding kind same_kind
matches k s = same_kind (kind s) k
