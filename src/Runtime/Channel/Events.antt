-- ===== src/Runtime/Channel/Events.antt =====
-- crates/runtime/src/channel/data.rs: `next_event`, `try_next_event` and what an inbox drains when it is
-- dropped. An `async` method is one poll of its future: `pending` waits to be notified.
use zestors.Base.{ℕ, zero, suc, Bool, not, ◌&&◌, Option, none, some, List, [], if◌then◌else◌}
use zestors.Runtime.Status.{ActorStatus, exited, exiting, suspended}
use zestors.Runtime.Channel.{
  Signal, Queues, Channel, msg_is_empty, msg_len, signal_len, pop_signal, pop_msg,
}

pub data InboxEvent (Msg : Type 0) : Type 0 where
  signal : Signal → InboxEvent Msg
  message : Msg → InboxEvent Msg

pub data Poll (A : Type 0) : Type 0 where
  ready : A → Poll A
  pending : Poll A

module _ {Msg : Type 0} (Q : Queues Msg) where
  -- A channel after a receive, what it gave, and the pings replied to on the way.
  abbrev pub Received : Type 0 → Type 0
  Received A = Channel Q × A × List ℕ

  -- `next_signal`, polled.
  unfoldable pub next_signal : Channel Q → Received (Poll (Option (InboxEvent Msg)))
  next_signal c =
      let (c', seen, replied) = pop_signal Q c in
      elim seen [
        | some s ↦ (c', ready (some (InboxEvent.signal s)), replied)
        | none ↦ (c', pending, replied)
      ]

  -- The `select!` of `next_event`: signals first, then messages.
  unfoldable pub select_event : Channel Q → Received (Poll (Option (InboxEvent Msg)))
  select_event c =
      let (c', seen, replied) = pop_signal Q c in
      elim seen [
        | some s ↦ (c', ready (some (InboxEvent.signal s)), replied)
        | none ↦
            let (c'', got) = pop_msg Q c' in
            elim got [
              | some m ↦ (c'', ready (some (message m)), replied)
              | none ↦ (c'', pending, replied)
            ]
      ]

  -- The `match` of `next_event` on the status.
  next_event_in : ActorStatus → Bool → Channel Q → Received (Poll (Option (InboxEvent Msg)))
  next_event_in suspended while_exiting c = next_signal c
  next_event_in (exited _) while_exiting c =
      if msg_is_empty Q c then (c, ready none, []) else select_event c
  next_event_in exiting while_exiting c =
      if msg_is_empty Q c && not while_exiting then (c, ready none, []) else select_event c
  next_event_in _ while_exiting c = select_event c

  unfoldable pub next_event : Bool → Channel Q → Received (Poll (Option (InboxEvent Msg)))
  unfolding next_event_in next_signal select_event
  next_event while_exiting c = next_event_in c.life.status while_exiting c

  try_signal : Channel Q → Received (Option (InboxEvent Msg))
  try_signal c =
      let (c', seen, replied) = pop_signal Q c in
      elim seen [ some s ↦ (c', some (InboxEvent.signal s), replied) | none ↦ (c', none, replied) ]

  try_any : Channel Q → Received (Option (InboxEvent Msg))
  try_any c =
      let (c', seen, replied) = pop_signal Q c in
      elim seen [
        | some s ↦ (c', some (InboxEvent.signal s), replied)
        | none ↦
            let (c'', got) = pop_msg Q c' in
            elim got [ some m ↦ (c'', some (message m), replied) | none ↦ (c'', none, replied) ]
      ]

  try_next_event_in : ActorStatus → Channel Q → Received (Option (InboxEvent Msg))
  try_next_event_in suspended c = try_signal c
  try_next_event_in (exited _) c = if msg_is_empty Q c then (c, none, []) else try_any c
  try_next_event_in exiting c = if msg_is_empty Q c then (c, none, []) else try_any c
  try_next_event_in _ c = try_any c

  unfoldable pub try_next_event : Channel Q → Received (Option (InboxEvent Msg))
  unfolding try_next_event_in try_signal try_any
  try_next_event c = try_next_event_in c.life.status c

  drain_messages : ℕ → Channel Q → Channel Q
  drain_messages zero c = c
  drain_messages (suc fuel) c =
      let (c', got) = pop_msg Q c in elim got [ none ↦ c' | some m ↦ drain_messages fuel c' ]

  drain_signals : ℕ → Channel Q → Channel Q
  drain_signals zero c = c
  drain_signals (suc fuel) c =
      let (c', seen, replied) = pop_signal Q c in
      elim seen [ none ↦ c' | some s ↦ drain_signals fuel c' ]

  -- `drain_messages_and_signals`, a round for each entry and one to find the queue empty.
  unfoldable pub drain_messages_and_signals : Channel Q → Channel Q
  unfolding drain_messages drain_signals
  drain_messages_and_signals c =
      let c' = drain_messages (suc (msg_len Q c)) c in drain_signals (suc (signal_len Q c')) c'
