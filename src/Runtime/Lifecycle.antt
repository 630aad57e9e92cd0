-- ===== src/Runtime/Lifecycle.antt =====
-- crates/runtime/src/channel/data.rs, `update_status` and the `register_*` methods: the status of a
-- channel with its histories of spawns and exits. An `Instant` is a number.
pub mod Moves
pub mod History
pub mod Reports
use zestors.Base.{
  ℕ, Bool, true, false, Option, none, some, List, [], ◌∷◌, ◌++◌, Result, ok, err, length, ltb,
  if◌then◌else◌,
}
use zestors.Runtime.Status.{
  ActorStatus, exited, initializing, running, suspended, exiting, ExitStatus, ExitResult,
  from_result,
}

-- The constants of crates/runtime/src/lib.rs.
abbrev pub keep_n_spawns : ℕ
keep_n_spawns = 5

abbrev pub keep_n_exits : ℕ
keep_n_exits = 5

-- The part of `Channel` that its status changes touch.
pub record Lifecycle : Type 0 where
  pub status : ActorStatus
  pub spawns : List ℕ
  pub exits : List (ℕ × ExitResult)

-- `Channel::with_limits`: a fresh channel has exited normally and has no history.
unfoldable pub new : Lifecycle
new = record { status = exited ExitStatus.normal; spawns = []; exits = [] }

pub record InvalidStatusUpdate : Type 0 where
  pub from : ActorStatus
  pub to : ActorStatus

-- What an update makes of the status: the new one, if it changes, and the result.
abbrev Update : Type 0 → Type 0
Update T = ActorStatus → Option ActorStatus × T

update_status : {T : Type 0} → Update T → Lifecycle → Lifecycle × T
update_status f c =
    let (changed, result) = f c.status in
    elim changed [ none ↦ (c, result) | some s ↦ (record c { status = s }, result) ]

-- `Vec::remove(0)`.
abbrev remove_first {ℓ} : {A : Type ℓ} → List A → List A
remove_first [] = []
remove_first (x ∷ xs) = xs

-- A history makes room once it holds more than `keep` entries, and then takes the new one.
unfoldable pub remember {ℓ} : {A : Type ℓ} → ℕ → List A → A → List A
remember keep xs x = (if ltb keep (length xs) then remove_first xs else xs) ++ x ∷ []

abbrev Checked : Type 0
Checked = Result Bool InvalidStatusUpdate

invalid {ℓ} : {A : Type ℓ} → ActorStatus → ActorStatus → Result A InvalidStatusUpdate
invalid s t = err (record { from = s; to = t })

on_spawned : Update (Result (Unit {0}) InvalidStatusUpdate)
unfolding invalid
on_spawned (exited _) = (some initializing, ok tt)
on_spawned s = (none, invalid s initializing)

unfoldable pub register_spawned : ℕ → Lifecycle → Lifecycle × Result (Unit {0}) InvalidStatusUpdate
unfolding update_status on_spawned remember
register_spawned now c =
    let (c', result) = update_status on_spawned c in
    elim result [
      | err e ↦ (c', err e)
      | ok _ ↦ (record c' { spawns = remember keep_n_spawns c'.spawns now }, ok tt)
    ]

on_exited : ExitResult → Update Bool
unfolding from_result
on_exited reason (exited _) = (none, false)
on_exited reason _ = (some (exited (from_result reason)), true)

unfoldable pub register_exited : ℕ → ExitResult → Lifecycle → Lifecycle × Bool
unfolding update_status on_exited remember
register_exited now reason c =
    let (c', updated) = update_status (on_exited reason) c in
    if updated
    then (record c' { exits = remember keep_n_exits c'.exits (now, reason) }, true)
    else (c', false)

on_initialized : Update Checked
unfolding invalid
on_initialized exiting = (none, invalid exiting running)
on_initialized (exited s) = (none, invalid (exited s) running)
on_initialized initializing = (some running, ok true)
on_initialized _ = (none, ok false)

unfoldable pub register_initialized : Lifecycle → Lifecycle × Checked
unfolding update_status on_initialized
register_initialized c = update_status on_initialized c

on_suspended : Update Checked
unfolding invalid
on_suspended suspended = (none, ok false)
on_suspended running = (some suspended, ok true)
on_suspended s = (none, invalid s suspended)

unfoldable pub register_suspended : Lifecycle → Lifecycle × Checked
unfolding update_status on_suspended
register_suspended c = update_status on_suspended c

on_resumed : Update Checked
unfolding invalid
on_resumed running = (none, ok false)
on_resumed suspended = (some running, ok true)
on_resumed s = (none, invalid s running)

unfoldable pub register_resumed : Lifecycle → Lifecycle × Checked
unfolding update_status on_resumed
register_resumed c = update_status on_resumed c

on_exiting : Update Checked
unfolding invalid
on_exiting (exited s) = (none, invalid (exited s) exiting)
on_exiting exiting = (none, ok false)
on_exiting _ = (some exiting, ok true)

unfoldable pub register_exiting : Lifecycle → Lifecycle × Checked
unfolding update_status on_exiting
register_exiting c = update_status on_exiting c

-- The calls that a channel's owner and its senders make, in any order.
pub data Call : Type 0 where
  spawns : ℕ → Call
  exits : ℕ → ExitResult → Call
  initializes suspends resumes winds_down : Call

unfoldable pub apply : Call → Lifecycle → Lifecycle
unfolding register_spawned register_exited register_initialized register_suspended register_resumed
    register_exiting
apply (Call.spawns now) c = (register_spawned now c).0
apply (Call.exits now reason) c = (register_exited now reason c).0
apply initializes c = (register_initialized c).0
apply suspends c = (register_suspended c).0
apply resumes c = (register_resumed c).0
apply winds_down c = (register_exiting c).0

unfoldable pub run : List Call → Lifecycle → Lifecycle
run [] c = c
run (e ∷ es) c = run es (apply e c)
