-- ===== src/Runtime/Inbox/Init.antt =====
-- Initialization: once only, by the first receive or by the actor itself, never both.
use zestors.Base.{◌≡◌, ◌≢◌, true, false, List, [], ◌∷◌, arith}
use zestors.Runtime.Status.{ActorStatus, initializing, running, suspended}
use zestors.Runtime.Lifecycle.{Call, initializes}
use zestors.Runtime.Inbox.{
  Inbox, InitState, auto, manual, completed, InboxCall, channel, step, register_initialized,
  set_manual_init, maybe_auto_init,
}

-- What others may do to the channel of a running task: all but spawn on it or initialize it.
abbrev pub IsForeign : InboxCall → Type 0
IsForeign (channel (Call.spawns now)) = ⊥
IsForeign (channel initializes) = ⊥
IsForeign e = Unit

-- An inbox that has not completed its initialization belongs to an actor that does not run yet.
abbrev pub Agrees : ActorStatus → InitState → Type 0
Agrees initializing completed = ⊥
Agrees running auto = ⊥
Agrees running manual = ⊥
Agrees suspended auto = ⊥
Agrees suspended manual = ⊥
Agrees s i = Unit

abbrev pub AllForeign : List InboxCall → Type 0
AllForeign [] = Unit
AllForeign (e ∷ es) = IsForeign e × AllForeign es

pub run : List InboxCall → Inbox → Inbox
run [] i = i
run (e ∷ es) i = run es (step e i)

step-Agrees :
    (e : InboxCall) (i : Inbox)
    → IsForeign e
    → Agrees i.life.status i.init
    → Agrees (step e i).life.status (step e i).init
unfolding step
step-Agrees (channel (Call.spawns now)) i f h = absurd f
step-Agrees e i f h = ground arith

-- Whatever the owner of an inbox calls, in any order, and whatever others do to its channel short of
-- spawning on it again, the inbox has completed its initialization exactly when its actor has left
-- `Initializing` by running: a running or suspended actor's inbox is completed, an initializing one's
-- is not.
pub run-Agrees :
    (es : List InboxCall) (i : Inbox)
    → AllForeign es
    → Agrees i.life.status i.init
    → Agrees (run es i).life.status (run es i).init
unfolding run
run-Agrees [] i f h = h
run-Agrees (e ∷ es) i f h = run-Agrees es (step e i) f.1 (step-Agrees e i f.0 h)

-- In manual mode receiving changes nothing, and `register_initialized` is what makes the actor run; in
-- automatic mode the first receive does. Either way a second attempt reports that nothing happened.
pub manual_and_auto :
    (i : Inbox)
    → i.life.status ≡ initializing
    → i.init ≢ completed
    → (maybe_auto_init (set_manual_init i).0 ≡ (set_manual_init i).0)
      × ((register_initialized (set_manual_init i).0).0.life.status ≡ running)
      × ((register_initialized i).1 ≡ true)
      × ((register_initialized (register_initialized i).0).1 ≡ false)
      × ((set_manual_init (register_initialized i).0).1 ≡ false)
      × (i.init ≡ auto → (maybe_auto_init i).life.status ≡ running)
unfolding maybe_auto_init set_manual_init register_initialized
manual_and_auto i s h = ground arith
