-- ===== src/Lib.antt =====
-- The causal actor runtime lichtung and its replay: what a log of events means, and that the
-- replay recovers it.
--
-- Actors exchange messages through a `Context` (crates/lichtung-core), which stamps each event
-- with a vector clock and a Lamport number (crates/lichtung-clock) and hands it to a backend,
-- which appends it to a log of JSON lines (crates/lichtung-log). The replay
-- (crates/lichtung-replay) reads such a log, rebuilds the happens-before poset from sequence
-- numbers and message ids, checks it against the recorded clocks, and orders the events by a
-- canonical linear extension.
--
-- The files and the code that they model:
--
--   Prelude.antt, Prelude/    shared names, lists, numbers, texts; `show` and `parse_u64` of `u64`
--   Map.antt, Map/            `BTreeMap<String, V>` as a list sorted by key
--   Clock.antt, Clock/        crates/lichtung-clock/src/lib.rs
--   Log.antt, Log/            crates/lichtung-log/src/lib.rs
--   Core.antt, Core/          crates/lichtung-core/src
--   Poset.antt, Poset/        crates/lichtung-replay/src/poset.rs and error.rs
--   Extension.antt, Extension/  crates/lichtung-replay/src/extension.rs
--   Engine.antt, Engine/      crates/lichtung-replay/src/engine.rs
--   Prod.antt, Prod/          crates/lichtung-prod/src
--   Reexec.antt, Reexec/      crates/lichtung-replay/src/reexec.rs
--   Desk.antt, Desk/          crates/lichtung-replay/examples/risk_desk.rs
--   Examples/                 tests, and the theorems at concrete inputs
--
-- A function of the code has the name that it has there; a loop is a function of its own beside
-- it, on the list that the loop runs over. `&mut self` is a state that goes in and comes out.
-- `u64` is the natural numbers with `% 2 ^ 64` at each addition, as in a release build. An
-- `ActorId` is its string. A `BinaryHeap` of reversed keys is the ascending list of the keys.
--
-- The two loops that are not over a list run on fuel: `drain` has a round for each event, since a
-- round orders one event, and `walk` one more than there are events, since an event enters the
-- stack once, and the first one perhaps again. With that fuel the loops end on an empty heap and
-- an empty stack.
--
-- Parameters: `serde_json` at `CausalEvent` (`Codec`, and `to_writer`, of which `WritesText` says
-- that it writes the text of `to_string`), the writers of `write_events` and of the log task, the
-- backend of a context (`Dispatch`; `Logged` says that it keeps the events in order) and the
-- payloads. A handler of an actor is the list of its calls.
--
-- The production runtime (crates/lichtung-prod) runs each actor as a task. Its model is a step
-- relation: a step is one operation of one thread on what threads share, the counters, the
-- mailboxes and the event channel, with the operations on the thread's own variables around it; a
-- run is any sequence of steps. `Notify` is the permit that it stores; `dec_in_flight` is two
-- operations, so that other threads may come between the decrement and the wakeup. An actor may
-- panic inside its handler. `events` of the shared runtime is what was handed to the channel; the
-- log task receives all of it but what is sent after it has ended. Behind the loop of
-- `run_until_quiescent` a step may abort a task, where its loop awaits. Prod/Run.antt counts the
-- steps of a run and the calls of `send_external`; Prod/Recorded has the invariant under which its
-- log is accepted. What `run_until_quiescent` returns is the answer of the log task
-- (Prod/Writer.antt) for the events of the channel.
--
-- The re-execution (crates/lichtung-replay/src/reexec.rs) drives the actors again, one event of
-- the timeline after the other, with a backend that compares each event with its recording. A
-- `HashMap` is a list of its entries, the text of a divergence is a constructor that says the
-- same, and the panic of a message of the wrong type is an outcome of its own. `made` of its state
-- is a history variable that the code does not have: the events that were compared.
--
-- The risk desk (crates/lichtung-replay/examples/risk_desk.rs) is a client of the runtime: its
-- actors are values of `Actor`, and `run_desk` is the system that they are spawned in. Desk/Flow
-- follows the messages from the feed to the book. `Floats` has the operations of `f64` that it
-- uses, with no law; a literal is its text. An index is in range there: a symbol is one of three,
-- and the number of ticks is at most the length of each series.
--
-- Not modelled: the tokio scheduler, the texts of the errors, and the serde attributes.
pub mod Prelude
pub mod Map
pub mod Clock
pub mod Log
pub mod Core
pub mod Poset
pub mod Extension
pub mod Engine
pub mod Prod
pub mod Reexec
pub mod Desk
mod Examples
