-- ===== src/Runtime/Channel/Drain.antt =====
-- The end of an actor's inbox: a channel that is exiting hands out what is queued, and then ends.
use zestors.Base.{
  ℕ, zero, suc, ◌+◌, ◌≤◌, ◌<◌, ◌≡◌, refl, ap, inl, inr, false, Option, none, some, List, [], ◌∷◌,
  length, Option-cases, arith,
}
use zestors.Runtime.Status.{exiting}
use zestors.Runtime.Lifecycle.{Lifecycle}
use zestors.Runtime.Channel.{
  SignalInterface, Signal, Queues, Channel, handle_signal, pop_signal, pop_msg,
}
use zestors.Runtime.Channel.Signals.{deliver, pop_signal-deliver, deliver_exiting}
use zestors.Runtime.Channel.Events.{InboxEvent, message, ready, pending, next_event, select_event}
use zestors.Runtime.Channel.Shutdown.{pop_msg-PopsMsg}

length-deliver :
    (ss : List SignalInterface) (c : Lifecycle)
    → ((deliver ss c).1.1 ≡ none → length (deliver ss c).0 ≡ 0)
      × ((s : Signal) → (deliver ss c).1.1 ≡ some s → suc (length (deliver ss c).0) ≤ length ss)
unfolding deliver
length-deliver [] c = (λ h. refl, λ s h. ground arith)
length-deliver (x ∷ ss) c =
    let rest = length-deliver ss (handle_signal x c).0 in
    (λ h. ground (arith, rest.0), λ s h. ground (arith, rest.1 s))

module _ {Msg : Type 0} (Q : Queues Msg) where
  abbrev prepend : Msg → Option (List Msg × Channel Q) → Option (List Msg × Channel Q)
  prepend m none = none
  prepend m (some (ms, c)) = some (m ∷ ms, c)

  -- Calls `recv_event` until it returns `None`, and collects the messages. `none` means that a call
  -- would wait, or that the fuel ran out.
  unfoldable pub receive_all : ℕ → Channel Q → Option (List Msg × Channel Q)
  receive_all zero c = none
  receive_all (suc fuel) c =
      let (c', got, replied) = next_event Q false c in
      elim got [
        | pending ↦ none
        | ready e ↦ elim e [
          | none ↦ some ([], c')
          | some ev ↦ elim ev [
            | InboxEvent.signal s ↦ receive_all fuel c'
            | message m ↦ prepend m (receive_all fuel c')
          ]
        ]
      ]

  abbrev pub EndsWith : Option (List Msg × Channel Q) → List Msg → Type 0
  EndsWith r ms =
      (c' : Channel Q) × (r ≡ some (ms, c'))
      × (Q.msgs.contents c'.msg_queue ≡ [])
      × (c'.life.status ≡ exiting)

  -- One call of `recv_event` on an exiting channel.
  exiting_empty :
      (c : Channel Q)
      → c.life.status ≡ exiting
      → Q.msgs.contents c.msg_queue ≡ []
      → next_event Q false c ≡ (c, ready none, [])
  unfolding next_event
  exiting_empty c ex e = ground (arith, Q.msgs.len-contents c.msg_queue, ap length e)

  exiting_busy :
      (c : Channel Q) (m : Msg) (ms : List Msg)
      → c.life.status ≡ exiting
      → Q.msgs.contents c.msg_queue ≡ m ∷ ms
      → next_event Q false c ≡ select_event Q c
  unfolding next_event
  exiting_busy c m ms ex e = ground (arith, Q.msgs.len-contents c.msg_queue, ap length e)

  exiting_signal :
      (c : Channel Q) (m : Msg) (ms : List Msg) (s : Signal)
      → c.life.status ≡ exiting
      → Q.msgs.contents c.msg_queue ≡ m ∷ ms
      → (pop_signal Q c).1 ≡ some s
      → next_event Q false c
        ≡ ((pop_signal Q c).0, ready (some (InboxEvent.signal s)), (pop_signal Q c).2)
  unfolding select_event
  exiting_signal c m ms s ex em seen = ground (arith, exiting_busy c m ms ex em)

  exiting_message :
      (c : Channel Q) (m : Msg) (ms : List Msg)
      → c.life.status ≡ exiting
      → Q.msgs.contents c.msg_queue ≡ m ∷ ms
      → (pop_signal Q c).1 ≡ none
      → (pop_msg Q (pop_signal Q c).0).1 ≡ some m
      → next_event Q false c
        ≡ ((pop_msg Q (pop_signal Q c).0).0, ready (some (message m)), (pop_signal Q c).2)
  unfolding select_event
  exiting_message c m ms ex em unseen got = ground (arith, exiting_busy c m ms ex em)

  receive_all-EndsWith :
      (fuel : ℕ) (ms : List Msg) (ss : List SignalInterface) (c : Channel Q)
      → c.life.status ≡ exiting
      → Q.msgs.contents c.msg_queue ≡ ms
      → Q.signals.contents c.signal_queue ≡ ss
      → length ms + length ss < fuel
      → EndsWith (receive_all fuel c) ms
  unfolding receive_all
  receive_all-EndsWith zero ms ss c ex em es h = elim h [ ]
  receive_all-EndsWith (suc fuel) [] ss c ex em es h =
      (c, ground (arith, exiting_empty c ex em), em, ex)
  receive_all-EndsWith (suc fuel) (m ∷ ms) ss c ex em es h =
      let popped = (pop_signal-deliver Q c).1 in
      let c1 = (pop_signal Q c).0 in
      let left = (deliver (Q.signals.contents c.signal_queue) c.life).0 in
      let shorter = length-deliver (Q.signals.contents c.signal_queue) c.life in
      let ex1 : c1.life.status ≡ exiting =
        ground
          (arith, popped.0, (deliver_exiting (Q.signals.contents c.signal_queue) c.life).1 ex) in
      let em1 : Q.msgs.contents c1.msg_queue ≡ m ∷ ms = ground (arith, popped.0) in
      elim (Option-cases (pop_signal Q c).1) [
        | inl unseen ↦
            let taken = pop_msg-PopsMsg Q (m ∷ ms) c1 em1 in
            let c2 = (pop_msg Q c1).0 in
            let ex2 : c2.life.status ≡ exiting = ground (arith, taken.0) in
            let es2 : Q.signals.contents c2.signal_queue ≡ left = ground (arith, taken.0) in
            let size : length ms + length left < fuel = ground (arith, shorter.0) in
            let ends = receive_all-EndsWith fuel ms left c2 ex2 taken.1 es2 size in
            let step = exiting_message c m ms ex em unseen taken.2 in
            (ends.0, ground (arith, step, ends.1), ends.2, ends.3)
        | inr (s, seen) ↦
            let size : length (m ∷ ms) + length left < fuel = ground (arith, shorter.1 s) in
            let ends = receive_all-EndsWith fuel (m ∷ ms) left c1 ex1 em1 popped.1 size in
            let step = exiting_signal c m ms s ex em seen in
            (ends.0, ground (arith, step, ends.1), ends.2, ends.3)
      ]

  -- An actor that is exiting receives every message still queued, in the order in which they were sent
  -- and whatever signals are queued too, and then the end: it never waits, it is still exiting, and one
  -- call for each entry queued and one more are enough.
  pub exiting-receive_all :
      (c : Channel Q)
      → c.life.status ≡ exiting
      → EndsWith
          (receive_all (suc (Q.msgs.len c.msg_queue + Q.signals.len c.signal_queue)) c)
          (Q.msgs.contents c.msg_queue)
  exiting-receive_all c ex =
      receive_all-EndsWith (suc (Q.msgs.len c.msg_queue + Q.signals.len c.signal_queue)) _ _ c ex
        refl refl
        (omega (arith, Q.msgs.len-contents c.msg_queue, Q.signals.len-contents c.signal_queue))
