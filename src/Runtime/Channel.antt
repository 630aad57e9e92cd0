-- ===== src/Runtime/Channel.antt =====
-- crates/runtime/src/channel/data.rs: an actor's channel, its queues and the signals in it.
pub mod Signals
pub mod Events
pub mod Shutdown
pub mod Drain
use zestors.Base.{
  ℕ, zero, suc, ◌+◌, ◌-◌, ◌≤◌, Bool, true, false, not, ◌||◌, ◌&&◌, Option, none, some, List, [],
  ◌∷◌, ◌++◌, ltb, leb, ◌==◌, if◌then◌else◌,
}
use zestors.External.Fifo.{Fifo}
use zestors.Runtime.Status.{
  ActorStatus, exited, initializing, running, suspended, exiting, should_exit, is_exiting,
  is_suspended,
}
use zestors.Runtime.Lifecycle.{
  Lifecycle, new as new_life, register_exiting, register_suspended, register_resumed,
}

-- `SignalInterface` of crates/runtime/src/signals.rs. A ping carries the request to reply to.
pub data SignalInterface : Type 0 where
  shutdown suspend resume : SignalInterface
  ping : ℕ → SignalInterface

-- `Signal`, what the actor's own loop sees.
pub data Signal : Type 0 where
  shutdown suspend resume : Signal

-- The two queues of a channel whose interface is `Msg`.
pub record Queues (Msg : Type 0) : Type 1 where
  pub signals : Fifo SignalInterface
  pub msgs : Fifo Msg

-- The notifiers, which only wake a waiting task, are left out.
pub record Channel {Msg : Type 0} (Q : Queues Msg) : Type 0 where
  pub name : ℕ
  pub life : Lifecycle
  pub signal_queue : Q.signals.Queue
  pub msg_queue : Q.msgs.Queue
  pub msg_backpressure_limit : ℕ
  pub msg_queue_limit : ℕ
  pub signal_queue_limit : ℕ
  pub created_at : ℕ
  pub strong_count : ℕ

-- The limits of crates/runtime/src/lib.rs.
abbrev pub backpressure_limit : ℕ
backpressure_limit = 100

abbrev pub default_signal_queue_limit : ℕ
default_signal_queue_limit = 1_000_000

abbrev pub default_msg_queue_limit : ℕ
default_msg_queue_limit = 1_000_000

module _ {Msg : Type 0} (Q : Queues Msg) where
  unfoldable pub with_limits : ℕ → ℕ → ℕ → ℕ → ℕ → Channel Q
  unfolding new_life
  with_limits now name strong_count msg_queue_limit signal_queue_limit = record {
    name = name;
    life = new_life;
    signal_queue = Q.signals.unbounded;
    msg_queue = Q.msgs.unbounded;
    msg_backpressure_limit = backpressure_limit;
    msg_queue_limit = msg_queue_limit;
    signal_queue_limit = signal_queue_limit;
    created_at = now;
    strong_count = strong_count;
  }

  unfoldable pub new : ℕ → ℕ → ℕ → Channel Q
  unfolding with_limits
  new now name strong_count =
      with_limits now name strong_count default_msg_queue_limit default_signal_queue_limit

  abbrev pub msg_len : Channel Q → ℕ
  msg_len c = Q.msgs.len c.msg_queue

  abbrev pub signal_len : Channel Q → ℕ
  signal_len c = Q.signals.len c.signal_queue

  abbrev pub msg_is_empty : Channel Q → Bool
  msg_is_empty c = msg_len c == 0

  -- `Channel::signal`: whether the signal was taken.
  unfoldable pub signal : Channel Q → SignalInterface → Channel Q × Bool
  unfolding should_exit
  signal c s =
      if should_exit c.life.status
      then (c, false)
      else if leb c.signal_queue_limit (signal_len c)
      then (c, false)
      else (record c { signal_queue = Q.signals.push c.signal_queue s }, true)

-- What handling a signal leaves: the channel's life, what the actor sees, and the pings replied to.
abbrev pub Handled : Type 0
Handled = Lifecycle × Option Signal × List ℕ

unfoldable pub handle_signal : SignalInterface → Lifecycle → Handled
unfolding register_exiting register_suspended register_resumed is_exiting is_suspended
handle_signal SignalInterface.shutdown c = ((register_exiting c).0, some Signal.shutdown, [])
handle_signal SignalInterface.suspend c =
    if is_exiting c.status
    then (c, none, [])
    else ((register_suspended c).0, some Signal.suspend, [])
handle_signal SignalInterface.resume c =
    if not (is_suspended c.status)
    then (c, none, [])
    else ((register_resumed c).0, some Signal.resume, [])
handle_signal (ping id) c = (c, none, id ∷ [])

module _ {Msg : Type 0} (Q : Queues Msg) where
  -- One pass of the loop in `pop_signal`, with what is left to do if the signal was absorbed.
  abbrev pop_signal_then :
      Channel Q
      → (Channel Q → Option (Channel Q × Option Signal × List ℕ))
      → SignalInterface
      → Q.signals.Queue
      → Option (Channel Q × Option Signal × List ℕ)
  pop_signal_then c again s rest =
      let (life, seen, replied) = handle_signal s c.life in
      let c' : Channel Q = record c { life = life; signal_queue = rest } in
      elim seen [
        | some signal ↦ some (c', some signal, replied)
        | none ↦ elim (again c') [
          | none ↦ none
          | some (c'', result, more) ↦ some (c'', result, replied ++ more)
        ]
      ]

  -- The loop of `pop_signal` on fuel; `none` means that the fuel ran out.
  unfoldable pub pop_signal_loop : ℕ → Channel Q → Option (Channel Q × Option Signal × List ℕ)
  pop_signal_loop zero c = none
  pop_signal_loop (suc fuel) c = elim (Q.signals.pop c.signal_queue) [
    | none ↦ some (c, none, [])
    | some (s, rest) ↦ pop_signal_then c (pop_signal_loop fuel) s rest
  ]

  -- `Channel::pop_signal`: one round for each signal queued, and one to find the queue empty. That this
  -- fuel is never used up is `pop_signal_total` of Channel/Signals.
  unfoldable pub pop_signal : Channel Q → Channel Q × Option Signal × List ℕ
  pop_signal c = elim (pop_signal_loop (suc (signal_len Q c)) c) [
    | none ↦ (c, none, [])
    | some result ↦ result
  ]

  unfoldable pub pop_msg : Channel Q → Channel Q × Option Msg
  pop_msg c = elim (Q.msgs.pop c.msg_queue) [
    | none ↦ (c, none)
    | some (m, rest) ↦ (record c { msg_queue = rest }, some m)
  ]
