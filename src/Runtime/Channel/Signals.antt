-- ===== src/Runtime/Channel/Signals.antt =====
-- `signal` and `pop_signal` against what the signal queue holds.
use zestors.Base.{
  ℕ, zero, suc, ◌≤◌, ◌<◌, ◌≡◌, refl, ap, true, false, ◌&&◌, ◌⊎◌, inl, inr, Option, none, some, List,
  [], ◌∷◌, ◌++◌, length, length-append, ltb, Option-cases, arith,
}
use zestors.Runtime.Status.{exiting, accepts_messages, should_exit}
use zestors.Runtime.Lifecycle.{Lifecycle}
use zestors.Runtime.Channel.{
  SignalInterface, Signal, Queues, Channel, Handled, handle_signal, signal, signal_len, pop_signal,
  pop_signal_loop,
}

-- What popping does to the queued signals: it handles them one by one up to the first that the actor
-- sees, and leaves the rest.
unfoldable pub deliver : List SignalInterface → Lifecycle → List SignalInterface × Handled
deliver [] c = ([], (c, none, []))
deliver (s ∷ ss) c =
    let (c', seen, replied) = handle_signal s c in
    let (left, rest) = deliver ss c' in
    elim seen [
      | some x ↦ (ss, (c', some x, replied))
      | none ↦ (left, (rest.0, rest.1, replied ++ rest.2))
    ]

module _ {Msg : Type 0} (Q : Queues Msg) where
  -- The outcome of popping signals from a channel agrees with `deliver`.
  abbrev Pops :
      Channel Q → List SignalInterface × Handled → Channel Q × Option Signal × List ℕ → Type 0
  Pops c (left, (life, seen, replied)) (c', signal', replied') =
      (c' ≡ record c { life = life; signal_queue = c'.signal_queue })
      × (Q.signals.contents c'.signal_queue ≡ left)
      × (signal' ≡ seen)
      × (replied' ≡ replied)

  pop_signal_loop-Pops :
      (ss : List SignalInterface) (fuel : ℕ) (c : Channel Q)
      → Q.signals.contents c.signal_queue ≡ ss
      → length ss < fuel
      → (r : Channel Q × Option Signal × List ℕ) × (pop_signal_loop Q fuel c ≡ some r)
        × Pops c (deliver ss c.life) r
  unfolding pop_signal_loop deliver
  pop_signal_loop-Pops ss zero c e h = elim h [ ]
  pop_signal_loop-Pops [] (suc fuel) c e h =
      let empty = Q.signals.pop-empty c.signal_queue e in
      ((c, none, []), rw (empty, pop_signal_loop), (refl, e, refl, refl))
  pop_signal_loop-Pops (s ∷ ss) (suc fuel) c e h =
      let (rest, popped, left) = Q.signals.pop-cons c.signal_queue s ss e in
      let c' : Channel Q = record c { life = (handle_signal s c.life).0; signal_queue = rest } in
      let again = pop_signal_loop-Pops ss fuel c' left (omega arith) in
      let replied = (handle_signal s c.life).2 in
      elim (Option-cases (handle_signal s c.life).1) [
        | inl absorbed ↦ ((again.0.0, again.0.1, replied ++ again.0.2), ground arith, ground arith)
        | inr (x, seen) ↦ ((c', some x, replied), ground arith, ground arith)
      ]

  -- `pop_signal` ends within the fuel it is given, a round for each queued signal and one more, and it
  -- does what `deliver` does to what is queued: it handles the signals in order, up to and including
  -- the first that the actor sees, and leaves the messages and all else as they are.
  pub pop_signal-deliver :
      (c : Channel Q)
      → (pop_signal_loop Q (suc (signal_len Q c)) c ≡ some (pop_signal Q c))
        × Pops c (deliver (Q.signals.contents c.signal_queue) c.life) (pop_signal Q c)
  unfolding pop_signal
  pop_signal-deliver c =
      let held = Q.signals.contents c.signal_queue in
      let (r, e, pops) =
        pop_signal_loop-Pops held (suc (signal_len Q c)) c refl
          (omega (arith, Q.signals.len-contents c.signal_queue)) in
      (rw (e, pop_signal), rw (e, pop_signal) pops)

  -- A signal is taken exactly when the actor accepts messages and the signal queue is below its limit;
  -- it is then the last one queued, and a signal that is not taken changes nothing.
  pub signal-accepted :
      (c : Channel Q) (s : SignalInterface)
      → let (c', taken) = signal Q c s in
        (taken ≡ (accepts_messages c.life.status && ltb (signal_len Q c) c.signal_queue_limit))
        × (taken ≡ true
            → Q.signals.contents c'.signal_queue ≡ Q.signals.contents c.signal_queue ++ s ∷ [])
        × (taken ≡ false → c' ≡ c)
        × (signal_len Q c ≤ c.signal_queue_limit → signal_len Q c' ≤ c.signal_queue_limit)
  unfolding signal accepts_messages
  signal-accepted c s =
      let pushed = Q.signals.push c.signal_queue s in
      let len_pushed : Q.signals.len pushed ≡ suc (signal_len Q c) = omega (
        arith,
        Q.signals.len-contents c.signal_queue,
        Q.signals.len-contents pushed,
        ap length (Q.signals.contents-push c.signal_queue s),
        length-append (Q.signals.contents c.signal_queue) (s ∷ []),
      ) in
      ground (arith, Q.signals.contents-push c.signal_queue s)

-- Shutdown wins: once the actor has seen a shutdown signal it should exit, and an actor that is exiting
-- sees no other signal and stays exiting, whatever is queued.
pub deliver_exiting :
    (ss : List SignalInterface) (c : Lifecycle)
    → ((deliver ss c).1.1 ≡ some Signal.shutdown → should_exit (deliver ss c).1.0.status ≡ true)
      × (c.status ≡ exiting
          → ((deliver ss c).1.0.status ≡ exiting)
            × (((deliver ss c).1.1 ≡ none) ⊎ ((deliver ss c).1.1 ≡ some Signal.shutdown)))
unfolding deliver handle_signal should_exit
deliver_exiting [] c = ground arith
deliver_exiting (s ∷ ss) c = ground (arith, deliver_exiting ss (handle_signal s c).0)
