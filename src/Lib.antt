-- ===== src/Lib.antt =====
-- rinklers, a sprinkler control program in Rust: a model of its parts and what they do.
--
-- The program turns irrigation sections on and off. The section runner has a thread that serves a queue
-- of requests, one section at a time. A program is a list of items, each a section and a duration, with a
-- schedule. The schedule runner has a thread that keeps items in an index map, sleeps until the next one
-- is due and executes it; executing a program queues its items on the section runner. Both threads wait
-- on a `RunnerState`, a mutex with a condition variable. A configuration is made into sections and
-- programs, and messages over MQTT turn sections on or off or queue them.
--
-- Each file models one file of the program, or a part of one; the names are those of the source.
-- Section (src/section.rs): the trait `Section` as a record of functions, `NoopSection`, `LogSection`, and
--   the `TestSection` of the tests.
-- IndexMap (src/schedule_runner.rs, `mod index_map`): the vector with a free list. `insert` and `remove`
--   have the result `Outcome`, whose `panicked` is a panic. `collect` is a `for` loop over `Iter`; its
--   first argument bounds the calls of `next`, and as many as there are entries are enough. Iterators has
--   the other iterators: a loop over `IterMut` takes its body as a function that returns the new element,
--   and is bounded in the same way.
-- Schedule (src/schedule.rs): `next_run_after` with each of its `match`es and loops as one function. The
--   crate chrono is the record `Calendar` of Schedule/Chrono, with the laws that the source relies on.
--   Schedule/Plain and Schedule/Gregorian are calendars with these laws.
--   `next_weekday` has no bound in the source; the model makes 7 rounds, which are enough. Sets has
--   schedules up to the order and the repetition of the members of their sets.
-- ScheduleRunner (src/schedule_runner.rs): the data, the calls of a `ScheduleGuard`, and one round of the
--   thread. The readings of the clock are arguments, and what is executed is recorded. `visit_from` is the
--   loop of a round as a recursion over the entries, and Loop has it over `IterMut` and an executor, as the
--   source does.
--   `System` makes calls, on the runner and its guards, and rounds into a list of events, in any order; a
--   guard is named by its place among those handed out.
-- SectionRunner (src/section_runner.rs): the data, the calls, and one round of the thread. `System` makes
--   calls and rounds into a list of events, in any order, with a log of what was turned on and off and
--   what was told to whom. A section and a channel are numbers; a time is a number of nanoseconds.
--   `serve` makes a given number of rounds; a queue of n requests takes 2n + 1.
--   Logging has the lines that the thread logs at the level Debug, whose durations may not be printable; of
--   the other files, Application alone looks at it.
--   Threaded, here and in ScheduleRunner, has the thread on its `RunnerState`, where a call, a step of the
--   thread and a spurious wake-up may come at any time.
-- Program (src/program.rs and src/program_runner.rs): programs, `queue_run`, `run_sync` over what the
--   channels deliver, and the executor.
-- ProgramRunner (src/program_runner.rs, and the loop over the programs in src/main.rs): the schedule runner
--   with programs as its data, and the section runner that it executes them on.
-- Config (src/config.rs): the conversions, with `ConfigResult` and its errors.
-- Util (src/util.rs): `WaitPeriod` with its order, `wait_receiver`, and `RunnerState` as a step relation
--   between a thread and its callers; RunnerState/Driven has it for any runner that has the interface
--   `Runner`. CondvarGuard has the guard of an update, with a mutex that a panic poisons.
--   Durations: their text, as a list of code points; the crate chrono and the tables of characters are the
--   records of Util/Durations/Library. The first argument of `digits` bounds the number of digits, and
--   `to_string` gives the number itself, which is enough.
-- MqttApi (src/mqtt_api.rs): `process_msg`, which sets the state of a section or queues it on the
--   section runner. The readers of payloads are the record `Payloads`; the result is a reply or a panic,
--   with the state that is left. Responses has the data of the replies, with their texts. Client has
--   what the thread does with mqttc's client, which is the record `Mqttc`, with the laws on what it has
--   been handed and what it has given; Thread has the loop of `MqttApi::run` around it. These loops make
--   a given number of rounds, and the answers to whether `running` is set are arguments; a loop ends in
--   the first round that finds it not set, so one round more than that is enough. Storage is
--   `LocalStorage`. Lifecycle has `start_new`, `stop` and the thread, with its blocking calls, as steps, in
--   any order. Topics relates the topics that are announced to those that are read.
-- Application (src/main.rs): the global state, `from_config`, `stop_all`, and the part of `main` that makes
--   the state, turns its sections off and schedules its programs. Boot and Shutdown put the
--   parts together, from the configuration to the section runner and to the end of both threads.
--   System runs the started program as a list of events: a message, a round of either runner's thread, a
--   request of a program, or a stop. They come in any order, also the stops, which `main` makes in a fixed
--   one; the effects of a round of the section runner are carried out on the sections that the messages set as
--   well. A duration that the section runner's log cannot print panics its thread, and poisons its mutex.
--   Threads runs it as its threads do: those of the runners lock, wait, time out and make rounds, with
--   notifications that can be lost and spurious wake-ups, and `main` waits for a signal, stops the MQTT API and
--   then the runners, and joins their threads in its order.
--   A round that the program runner's thread makes while `main` still schedules is taken to come after that;
--   after a panic of `main` the model lets the other threads go on, where the process ends.
-- SourceTests: the unit tests of the source. The tests of schedules, and that of the schedule runner, are in
--   UTC, which is Schedule/Gregorian.
-- Prelude: Boolean tests and lemmas on numbers, lists and results.
-- Examples, in most folders: tests, and each theorem at concrete values.
--
-- Not modelled: how threads are spawned, and how a signal interrupts them; poisoned mutexes, outside
-- CondvarGuard and Application; logging, outside SectionRunner/Logging; the sleep before a connection is
-- tried again; the configuration file, and serde's reading and writing of JSON; the capacity of an index map.
-- src/blocking_queue.rs is not part of the crate.
pub mod Application
pub mod Config
pub mod IndexMap
pub mod MqttApi
pub mod Prelude
pub mod Program
pub mod ProgramRunner
pub mod Schedule
pub mod ScheduleRunner
pub mod Section
pub mod SectionRunner
pub mod SourceTests
pub mod Util
