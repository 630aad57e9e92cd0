-- ===== src/Runtime/Tests.antt =====
-- The properties of crates/runtime at concrete values.
use zestors.Base.{ℕ, ◌≡◌, refl, ◌≢◌, false, none, some, List, [], ◌∷◌, Result, err, panics}
use zestors.External.Models.{list_fifo}
use zestors.Runtime.Status.{
  accepts_messages, ExitError, ActorStatus, suspended, exiting, initializing, running,
}
use zestors.Runtime.Lifecycle.{Lifecycle, Call, initializes, new as new_life, run as run_life}
use zestors.Runtime.Lifecycle.History.{latest, full_log, empty_log, run-new_history}
use zestors.Runtime.Channel.{
  SignalInterface, ping, Queues, Channel, pop_signal, pop_signal_loop, handle_signal, pop_msg,
}
use zestors.Runtime.Channel.Signals.{pop_signal-deliver}
use zestors.Runtime.Channel.Events.{next_event}
use zestors.Runtime.Channel.Shutdown.{GivesMessage, next_event-message}
use zestors.Runtime.Channel.Drain.{EndsWith, receive_all, exiting-receive_all}
use zestors.Runtime.Cast.{
  CallOptions, Accepts, TryCastDynError, not_accepted, try_cast_with, try_cast_other,
  try_cast_dyn_with, try_push_msg, reached_backpressure, delays,
}
use zestors.Runtime.Cast.Laws.{Tried, try_cast_with-Tried}
use zestors.Runtime.Inbox.{Inbox, auto}

abbrev life_in : ActorStatus → Lifecycle
life_in s = record { status = s; spawns = 1 ∷ []; exits = [] }

abbrev three_calls : List Call
three_calls = Call.spawns 1 ∷ initializes ∷ Call.exits 5 (err ExitError.aborted) ∷ []

run-new_history_example :
    (run_life three_calls new_life).spawns
    ≡ latest 6 (full_log three_calls new_life empty_log).spawned
run-new_history_example = (run-new_history three_calls).0

-- A channel of numbers, and an interface that takes any number.
abbrev queues : Queues ℕ
queues = record { signals = list_fifo SignalInterface; msgs = list_fifo ℕ }

abbrev takes_all : Accepts ℕ ℕ
takes_all = record { raw_queue = some (λ n. n); try_from_dyn = λ n. some n }

abbrev takes_none : Accepts ℕ ℕ
takes_none = record { raw_queue = none; try_from_dyn = λ n. none }

abbrev channel_in : ActorStatus → List SignalInterface → List ℕ → Channel queues
channel_in s signals msgs = record {
  name = 0;
  life = life_in s;
  signal_queue = signals;
  msg_queue = msgs;
  msg_backpressure_limit = 100;
  msg_queue_limit = 1000;
  signal_queue_limit = 1000;
  created_at = 0;
  strong_count = 1;
}

abbrev busy : Channel queues
busy = channel_in running (ping 4 ∷ SignalInterface.resume ∷ SignalInterface.shutdown ∷ []) (7 ∷ [])

pop_signal-deliver_example : pop_signal_loop queues 4 busy ≡ some (pop_signal queues busy)
pop_signal-deliver_example = (pop_signal-deliver queues busy).0

-- A ping and a signal that means nothing come before the message.
next_event-message_example :
    ((life_in running).status ≢ suspended)
    × GivesMessage queues
        (channel_in running (ping 4 ∷ SignalInterface.resume ∷ []) (7 ∷ 8 ∷ []))
        7
        (next_event queues false
          (channel_in running (ping 4 ∷ SignalInterface.resume ∷ []) (7 ∷ 8 ∷ [])))
unfolding next_event pop_signal pop_signal_loop pop_msg handle_signal
next_event-message_example =
    next_event-message queues false
      (channel_in running (ping 4 ∷ SignalInterface.resume ∷ []) (7 ∷ 8 ∷ [])) 7 refl

exiting-receive_all_example :
    EndsWith queues
      (receive_all queues 4 (channel_in exiting (ping 4 ∷ []) (7 ∷ 8 ∷ [])))
      (7 ∷ 8 ∷ [])
exiting-receive_all_example =
    exiting-receive_all queues (channel_in exiting (ping 4 ∷ []) (7 ∷ 8 ∷ [])) refl

abbrev plainly : CallOptions
plainly = record { ignore_exiting = false; ignore_backpressure = false }

-- A queue of another interface, which does not have the message.
not_accepted_panics : try_cast_with queues takes_none busy 9 plainly ≡ panics
unfolding try_cast_with try_cast_other try_cast_dyn_with try_push_msg reached_backpressure delays
    accepts_messages
not_accepted_panics = refl

try_cast_with-Tried_example :
    Tried queues takes_all busy 9 plainly (try_cast_with queues takes_all busy 9 plainly)
try_cast_with-Tried_example = try_cast_with-Tried queues takes_all busy 9 plainly

abbrev refusal : Result (Unit {0}) (TryCastDynError ℕ)
refusal = err (not_accepted 9)

abbrev fresh_inbox : Inbox
fresh_inbox = record { life = life_in initializing; init = auto }
