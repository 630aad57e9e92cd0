-- ===== src/Runtime/Inbox.antt =====
-- crates/runtime/src/references/inbox.rs: when an inbox moves its channel from initializing to running.
pub mod Init
use zestors.Base.{
  ℕ, Bool, true, false, Option, none, some, Result, ok, err, List, [], ◌∷◌, if◌then◌else◌,
}
use zestors.Runtime.Status.{is_dead}
use zestors.Runtime.Lifecycle.{
  Lifecycle, Call, apply, register_initialized as initialize_channel,
  register_exiting as exit_channel,
}

pub data InitState : Type 0 where
  auto manual completed : InitState

-- The inbox, with the status and the histories of its channel.
pub record Inbox : Type 0 where
  pub life : Lifecycle
  pub init : InitState

-- `Inbox::try_new`: `none` is `ConcurrentInboxError`.
unfoldable pub try_new : Lifecycle → Option Inbox
unfolding is_dead
try_new life = if is_dead life.status then some (record { life = life; init = auto }) else none

unfoldable pub init_completed : Inbox → Bool
init_completed i = elim i.init [ completed ↦ true | _ ↦ false ]

unfoldable pub set_manual_init : Inbox → Inbox × Bool
unfolding init_completed
set_manual_init i = if init_completed i then (i, false) else (record i { init = manual }, true)

unfoldable pub set_auto_init : Inbox → Inbox × Bool
unfolding init_completed
set_auto_init i = if init_completed i then (i, false) else (record i { init = auto }, true)

-- `unwrap_or(false)`.
abbrev or_false {ℓ} : {E : Type ℓ} → Result Bool E → Bool
or_false (ok b) = b
or_false (err e) = false

unfoldable pub register_initialized : Inbox → Inbox × Bool
unfolding init_completed initialize_channel
register_initialized i =
    if init_completed i
    then (i, false)
    else (let (life, updated) = initialize_channel i.life in
        (record { life = life; init = completed }, or_false updated))

-- What every receiving method does first.
unfoldable pub maybe_auto_init : Inbox → Inbox
unfolding register_initialized
maybe_auto_init i = elim i.init [ auto ↦ (register_initialized i).0 | _ ↦ i ]

unfoldable pub register_exiting : Inbox → Inbox × Bool
unfolding exit_channel
register_exiting i =
    let (life, updated) = exit_channel i.life in (record i { life = life }, or_false updated)

-- What happens to an inbox: its owner's calls, and what is done to its channel meanwhile.
pub data InboxCall : Type 0 where
  sets_manual sets_auto registers receives : InboxCall
  channel : Call → InboxCall

unfoldable pub step : InboxCall → Inbox → Inbox
unfolding set_manual_init set_auto_init register_initialized maybe_auto_init apply
step sets_manual i = (set_manual_init i).0
step sets_auto i = (set_auto_init i).0
step registers i = (register_initialized i).0
step receives i = maybe_auto_init i
step (channel e) i = record i { life = apply e i.life }
