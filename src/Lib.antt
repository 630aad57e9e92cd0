-- ===== src/Lib.antt =====
-- A verification library for zestors, an actor framework in the manner of Erlang/OTP.
--
-- The runtime (crates/runtime) gives every actor a channel: a status, a queue of signals and a queue of
-- messages. Others signal it and cast messages to it through addresses; the actor's task owns the inbox,
-- which takes signals before messages and moves the status along. Supervision (crates/supervision)
-- describes children and how often they may be restarted. A supervisor (crates/supervisor) is an actor
-- that owns supervisees under names, starts them, and reacts to their exits by one of three strategies.
-- Nodes form a cluster (crates/distr): a driver keeps the list of members by what the failure detector
-- says, links keep one connection to each peer, and actors on other nodes are called by messages in
-- frames, whose replies are waited for in a table; what arrives for an actor waits in a bounded queue, and
-- monitors of an actor's status are called off one by one or with the node that asked for them.
--
-- What models what (a definition has the name of the function or type it translates, or its comment says
-- which one that is):
--   Base                      results, panics, tests and lists
--   External                  interfaces for concurrent_queue, indexmap, streamunordered, DelayQueue, dashmap
--                             and papaya, with the documented behaviour the code relies on; External.Models
--                             and External.HashModels have instances
--   Runtime.Status            crates/runtime/src/status.rs
--   Runtime.Lifecycle         crates/runtime/src/channel/data.rs, update_status and register_*
--   Runtime.Channel           crates/runtime/src/channel/data.rs, the queues, and .Events, receiving
--   Runtime.Cast              crates/runtime/src/channel/cast.rs
--   Runtime.Inbox             crates/runtime/src/references/inbox.rs
--   Runtime.Registry          crates/runtime/src/registry/mod.rs, references/strong.rs, and the spawn of a task
--   Supervision.Intensity     crates/supervision/src/strategy.rs, crates/supervisor/src/strategy.rs
--   Supervision.Config        crates/supervision/src/childspec.rs
--   Supervisor.Supervisee     crates/supervisor/src/actor/supervisee.rs
--   Supervisor.Children       crates/supervisor/src/actor/map.rs
--   Supervisor.Inner          crates/supervisor/src/actor/mod.rs
--   Supervisor.Runner         crates/supervisor/src/actor/runner.rs
--   Supervisor.OneForOne, Supervisor.OneForAll, Supervisor.RestForOne
--                             crates/supervisor/src/actor/one_for_one.rs and the two beside it
--   Supervisor.Accounts       what one-for-one and one-for-all have in common
--   Distr.Cluster             crates/distr/src/cluster: .Member, .State (state.rs), .Replay (its subscribers),
--                             .Foca (the interface to foca), .Driver (membership/driver.rs), .Generation
--   Distr.Links               crates/distr/src/link: .Connections and .Agreement (mod.rs), .Health (lane.rs),
--                             .Streams (wire.rs)
--   Distr.Frame               crates/distr/src/messaging/frame.rs
--   Distr.Messaging           crates/distr/src/messaging: .Pending, .Send, .ActorQueue (receive.rs), .Monitors
--                             (monitors.rs, and their operations in ops.rs),
--                             .Dispatch (dispatch.rs)
--
-- How it is modelled. A name is a number that is only compared, and so is an instant or a duration. A
-- method that takes `&mut self` takes the state and returns it. A Rust panic is `Run.panics`. An async
-- method is one poll of its future, and what a foreign future resolves to is an argument. Notifiers,
-- wakers, locks and logging are left out: each method runs as one step. Where tasks run
-- beside each other (a registry's users, the threads that pick a generation, an actor's queues, monitors),
-- what they can do next is a relation, and what holds is shown for every sequence of steps.
--
-- Fuel. `pop_signal` has a round for every queued signal and one more; `finish_cascade` and
-- `advance_cascade`, which in the source can call themselves through `remove_spec`, have one or two units,
-- and never use up the first. `receive_all` has one call for each entry queued and one more, and
-- `read_frames` one round for each frame of a stream and one more. `binary_search`, which is the standard
-- library's, has one round for each number it searches.
--
-- Not modelled: the tasks that drive network connections, the start of a node and its simulation, the
-- operations on remote actors but for monitors, actors' handlers and their scheduler, the derive macros,
-- the tools; typed lookups in the registry; the length of a backpressure delay, which is a computation on
-- floats; the source's debug assertions but for those in `cast_with` and in the drop of a strong address.
pub mod Base
pub mod External
pub mod Distr
pub mod Runtime
pub mod Supervision
pub mod Supervisor
