-- ===== src/Supervisor/Runner.antt =====
-- crates/supervisor/src/actor/runner.rs: the trait `Strategy` and the event loop that all strategies share.
-- A call's time, which only the restart limiters read, is its first argument.
pub mod Safety
pub mod Next
use zestors.Base.{
  ℕ, Bool, true, false, Option, none, some, Result, ok, err, Run, returns, panics, ◌>>=◌, Flow,
  continue, break, List, [], ◌∷◌,
}
use zestors.Runtime.Status.{ExitStatus}
use zestors.Runtime.Channel.{SignalInterface, Signal, handle_signal}
use zestors.Supervision.Config.{ChildSpec, ChildDescription}
use zestors.Supervisor.Supervisee.{
  Supervisee, SuperviseeItem, started, initialized, exit, Ready, supervise, get_description,
}
use zestors.Supervisor.Crates.{Crates}
use zestors.Supervisor.Children.{get_mut, put, child_descriptions, names, start_all}
use zestors.Supervisor.Inner.{
  Inner, ExitReason, start_failure, init_exit, add_spec, extend,
  handle_initialized as inner_initialized,
}

pub record Strategy (X : Crates) : Type 1 where
  pub State : Type 0
  -- `parts`, read and written.
  pub inner : State → Inner X
  pub initializing : State → X.sets.Names
  pub with_parts : State → Inner X → X.sets.Names → State
  pub handle_exit : ℕ → ℕ → ExitReason → State → Run (State × Flow)
  pub shutdown : State → Run (State × Flow)
  pub remove_spec : ℕ → ℕ → State → Run (State × Option Supervisee)
  pub after_initialized : ℕ → ℕ → State → Run (State × Flow)

-- `SupervisorInterface`. `children` and `health` only answer.
pub data Message : Type 0 where
  children health : Message
  register : ChildSpec → Message
  deregister : ℕ → Message

-- `SupervisorSourceEvent`.
pub data SourceEvent : Type 0 where
  added : ChildSpec → SourceEvent
  removed : ℕ → SourceEvent

-- `InnerNext`, with the two events of an inbox.
pub data InnerNext : Type 0 where
  signalled : Signal → InnerNext
  message : Message → InnerNext
  source : SourceEvent → InnerNext
  supervisee : ℕ → SuperviseeItem → InnerNext

-- What is answered on a message's request.
pub data Reply : Type 0 where
  no_reply healthy : Reply
  described : List ChildDescription → Reply
  registered : Result (Unit {0}) ℕ → Reply
  deregistered : Option ChildDescription → Reply

-- What happens to a supervisor: a signal in its inbox, which is handled on the channel first; a message;
-- an event of its source; or a child of which the awaited future resolves.
pub data Event : Type 0 where
  signals : SignalInterface → Event
  sends : Message → Event
  yields : SourceEvent → Event
  resolves : ℕ → Ready → Event

module _ (X : Crates) (S : Strategy X) where
  abbrev pub Outcome : Type 0
  Outcome = Run (S.State × Flow × Reply)

  abbrev pub silent : Run (S.State × Flow) → Outcome
  silent m = m >>= λ (c, flow). returns (c, flow, no_reply)

  -- `Strategy::handle_initialized`.
  unfoldable pub handle_initialized : ℕ → S.State → S.State
  unfolding inner_initialized
  handle_initialized name c =
      let (inner, initializing) = inner_initialized X (S.initializing c) name (S.inner c) in
      S.with_parts c inner initializing

  abbrev pub on_signal : Signal → S.State → Run (S.State × Flow)
  on_signal Signal.shutdown c = S.shutdown c
  on_signal _ c = returns (c, continue)

  abbrev pub add : ChildSpec → S.State → Run (S.State × Result (Unit {0}) ℕ)
  add spec c = add_spec X spec (S.inner c) >>= λ (inner, result).
      returns (S.with_parts c inner (S.initializing c), result)

  abbrev pub describe : Option Supervisee → Option ChildDescription
  describe none = none
  describe (some s) = some (get_description s)

  abbrev pub on_item : ℕ → ℕ → SuperviseeItem → S.State → Run (S.State × Flow)
  on_item now name (started (ok _)) c = returns (c, continue)
  on_item now name (started (err e)) c = S.handle_exit now name start_failure c
  on_item now name (initialized (ok _)) c = S.after_initialized now name (handle_initialized name c)
  on_item now name (initialized (err status)) c = S.handle_exit now name (init_exit status) c
  on_item now name (exit e) c = S.handle_exit now name (ExitReason.exit e) c

  abbrev pub on_message : ℕ → Message → S.State → Outcome
  on_message now children c = child_descriptions X (S.inner c).supervisees >>= λ descriptions.
      returns (c, continue, described descriptions)
  on_message now health c = returns (c, continue, healthy)
  on_message now (register spec) c =
      add spec c >>= λ (c', result). returns (c', continue, registered result)
  on_message now (deregister name) c = S.remove_spec now name c >>= λ (c', gone).
      returns (c', continue, deregistered (describe gone))

  abbrev pub on_source : ℕ → SourceEvent → S.State → Run (S.State × Flow)
  on_source now (added spec) c = add spec c >>= λ (c', result). returns (c', continue)
  on_source now (removed name) c = S.remove_spec now name c >>= λ (c', gone). returns (c', continue)

  unfoldable pub handle_next : ℕ → InnerNext → S.State → Outcome
  unfolding handle_initialized
  handle_next now (signalled s) c = silent (on_signal s c)
  handle_next now (message m) c = on_message now m c
  handle_next now (source e) c = silent (on_source now e c)
  handle_next now (supervisee name item) c = silent (on_item now name item c)

  -- The first half of `Strategy::run`: the children are started, and a failure shuts the rest down.
  -- The result is whether the event loop runs.
  unfoldable pub start : S.State → Run (S.State × Flow × Result (Unit {0}) ℕ)
  start c = start_all X (S.inner c).supervisees >>= λ (supervisees, result).
      (names X supervisees >>= λ ks.
      let c' =
        S.with_parts c (record (S.inner c) { supervisees = supervisees })
          (extend X X.sets.new ks) in
      elim result [
        | ok done ↦ returns (c', continue, ok done)
        | err name ↦ (S.shutdown c' >>= λ (c'', flow). returns (c'', flow, err name))
      ])

  -- What `SupervisorInner::next` makes of an event: the state, and what is to be handled, if anything.
  unfoldable pub next : Event → S.State → Run (S.State × Option InnerNext)
  next (signals s) c =
      let inner = S.inner c in
      let (life, seen, replied) = handle_signal s inner.inbox.life in
      let inner' = record inner { inbox = record (inner.inbox) { life = life } } in
      returns (
        S.with_parts c inner' (S.initializing c),
        elim seen [ none ↦ none | some x ↦ some (signalled x) ],
      )
  next (sends m) c = returns (c, some (message m))
  next (yields e) c = returns (c, some (source e))
  next (resolves k r) c =
      let inner = S.inner c in
      (get_mut X inner.supervisees k >>= λ found. elim found [
        | none ↦ returns (c, none)
        | some s ↦ elim (supervise r s) [
          | none ↦ returns (c, none)
          | some (s', item) ↦
              let inner' = record inner { supervisees = put X inner.supervisees k s' } in
              returns (S.with_parts c inner' (S.initializing c), some (supervisee k item))
        ]
      ])

  -- One round of the event loop.
  unfoldable pub round : ℕ → Event → S.State → Run (S.State × Flow)
  unfolding next handle_next
  round now e c = next e c >>= λ (c', got). elim got [
    | none ↦ returns (c', continue)
    | some n ↦ (handle_next now n c' >>= λ (c'', flow, reply). returns (c'', flow))
  ]

  -- The event loop on the events that come, each with its time. `continue` is a loop that waits for more.
  unfoldable pub run_events : List (ℕ × Event) → S.State → Run (S.State × Flow)
  unfolding round
  run_events [] c = returns (c, continue)
  run_events ((now, e) ∷ es) c = round now e c >>= λ (c', flow). elim flow [
    | break ↦ returns (c', break)
    | continue ↦ run_events es c'
  ]

  -- `Strategy::run`: the children are started, and then the events handled. Its result is `start`'s.
  unfoldable pub run : List (ℕ × Event) → S.State → Run (S.State × Flow)
  unfolding start run_events
  run es c = start c >>= λ (c', flow, result). elim flow [
    | break ↦ returns (c', break)
    | continue ↦ run_events es c'
  ]
