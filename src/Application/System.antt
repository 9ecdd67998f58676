-- ===== src/Application/System.antt =====
-- The whole program after its start, as a sequence of events: src/main.rs, with the threads of
-- src/section_runner.rs, src/schedule_runner.rs and src/mqtt_api.rs, which share the sections and the
-- section runner's data. Each event holds the lock that it needs: a message that the MQTT client gives, a
-- round of either thread, a request of a program, or a stop. A round of the program runner's thread makes its
-- requests one by one, and holds the mutex of its own data until the last. A thread that cannot print the
-- duration of its `debug!` line panics, and the mutex that it holds is poisoned; who locks it then panics.
-- `main` stops the MQTT thread, then the section runner and, when its thread has returned, the program runner;
-- here these may come in any order and at any time.
pub mod Sections
pub mod Requests
pub mod Soundness
pub mod Runs
pub mod Start
pub mod Shown
pub mod Watering
pub mod Examples
use rinklers.Prelude.{
  ℕ, zero, suc, ◌+◌, Option, none, some, List, [], ◌∷◌, ◌++◌, Bool, true, false, if◌then◌else◌,
  Outcome, done, panicked, length, get_elem?, set, ltb, ◌||◌,
}
use rinklers.Util.WaitPeriod.{WaitPeriod, wait}
use rinklers.Util.Durations.Library.{CharTables, Chrono}
use rinklers.Schedule.Chrono.{Calendar}
use rinklers.Section.{NoopSection, LogSection, noop_section, log_section}
use rinklers.SectionRunner
use rinklers.SectionRunner.{SecRun, Effect, set_state, send, run_section}
use rinklers.SectionRunner.Logging.{round_prints, pop}
use rinklers.SectionRunner.System
use rinklers.ScheduleRunner
use rinklers.ProgramRunner.{Prog}
use rinklers.ProgramRunner.Start.{requests_of}
use rinklers.MqttApi.{Payloads, Incoming, process_msg}
use rinklers.MqttApi
use rinklers.Application.{State}

-- what is in a list behind the first elements
abbrev pub skip {ℓ} : {A : Type ℓ} → ℕ → List A → List A
skip zero xs = xs
skip (suc n) [] = []
skip (suc n) (x ∷ xs) = skip n xs

-- `set_state` on a section
abbrev pub set_at : List (LogSection NoopSection) → ℕ → Bool → List (LogSection NoopSection)
set_at ss i b = elim (get_elem? ss i) [
  | none ↦ ss
  | some sec ↦ set ss i (log_section.set_state sec b)
]

-- what the section runner's thread does to the sections
unfoldable pub apply_effects :
    List Effect → List (LogSection NoopSection) → List (LogSection NoopSection)
apply_effects [] ss = ss
apply_effects (set_state i b ∷ es) ss = apply_effects es (set_at ss i b)
apply_effects (send chan n ∷ es) ss = apply_effects es ss

module _ (c : Calendar) (p : Payloads) (ch : CharTables) (k : Chrono) (prefix_len : ℕ) where
  open c use {DateTime}

  pub record App : Type 0 where
    pub sections : List (LogSection NoopSection)
    -- the section runner's data, and its thread
    pub runner : SectionRunner.System.System
    -- the program runner's data, and its thread
    pub programs : ScheduleRunner.RunnerData c (Prog c)
    pub period : WaitPeriod
    pub returned : Bool
    -- the requests that the round of the program runner under way has yet to make
    pub pending : List SecRun
    -- A `debug!` line has panicked the section runner's thread, and poisoned the mutex of its data, with what
    -- it had popped from the queue.
    pub crashed : Option (List SecRun)
    -- The same has happened to the program runner's thread.
    pub programs_crashed : Bool
    -- whether the MQTT thread runs
    pub serving : Bool
    -- the next channel that is new
    pub chan : ℕ

  pub data Event : Type 0 where
    message : Incoming p → Event
    -- a round of the program runner's thread, with the readings of the clock
    program_round : (now later : ℕ → DateTime) → Event
    -- the program runner's thread makes the next request of its round
    program_queues : Event
    -- a round of the section runner's thread, `later` nanoseconds after the last one
    section_round : (later : ℕ) → Event
    serving_ends section_runner_stopped program_runner_stopped : Event

  -- after `main` has started all
  abbrev pub launched : State c → App
  launched st = record {
    sections = st.sections;
    runner = record (SectionRunner.System.init) { state = st.section_data };
    programs = st.program_data;
    period = wait;
    returned = false;
    pending = [];
    crashed = none;
    programs_crashed = false;
    serving = true;
    chan = 0;
  }

  abbrev pub survives {ℓ} : {A : Type ℓ} → Outcome A → Bool
  survives (done r) = true
  survives panicked = false

  abbrev pub take_message : App → Incoming p → App
  take_message app m =
      let (r, st) =
        process_msg p ch k prefix_len
          (record { sections = app.sections; section_runner = app.runner.state }) m app.chan in
      record app {
        sections = st.sections;
        runner = record (app.runner) { state = st.section_runner };
        serving = survives r;
        chan = app.chan + 1;
      }

  -- The mutex of the section runner's data is poisoned: a message that would queue a run panics the thread.
  abbrev pub refuse_message : App → Incoming p → App
  refuse_message app m =
      let (r, st) =
        process_msg p ch k prefix_len
          (record { sections = app.sections; section_runner = app.runner.state }) m app.chan in
      record app {
        sections = st.sections;
        serving =
            if ltb (length app.runner.state.queue) (length st.section_runner.queue)
            then false
            else survives r;
        chan = app.chan + 1;
      }

  -- The program runner's thread executes the programs that are due: it has their requests to make.
  abbrev pub round_of_programs : App → (now later : ℕ → DateTime) → App
  round_of_programs app now later =
      let r = ScheduleRunner.round c (Prog c) now later app.programs app.period in
      let requests = requests_of c r.executed app.chan in
      record app {
        programs = r.state;
        period = r.wait_period;
        returned = r.returned;
        pending = requests;
        chan = app.chan + length requests;
      }

  -- the next `run_section` of the round
  abbrev pub queue_next : App → List SecRun → Option (List SecRun) → App
  queue_next app [] crashed = app
  queue_next app (r ∷ rs) (some l) = record app { pending = []; programs_crashed = true }
  queue_next app (r ∷ rs) none = record app {
    runner = record (app.runner) {
      state = run_section app.runner.state r.sec r.dur r.notification_sender;
    };
    pending = rs;
  }

  -- The program runner's thread holds the mutex of its data, or has poisoned it.
  abbrev pub busy : List SecRun → Bool → Bool
  busy [] poisoned = poisoned
  busy (r ∷ rs) poisoned = true

  -- the effects of a round of the section runner's thread
  abbrev pub effects_of : SectionRunner.System.System → (later : ℕ) → List Effect
  effects_of s later =
      if s.returned
      then []
      else (SectionRunner.round (s.now + later) s.state s.current s.period).effects

  abbrev pub round_of_sections : App → (later : ℕ) → App
  round_of_sections app later = record app {
    sections = apply_effects (effects_of app.runner later) app.sections;
    runner = SectionRunner.System.handle app.runner (SectionRunner.System.woken later);
  }

  -- whether the `debug!` line of the round can be printed
  abbrev pub prints : App → (later : ℕ) → Bool
  prints app later =
      if app.runner.returned
      then true
      else round_prints ch k (app.runner.now + later) app.runner.state app.runner.current

  -- The round panics in its `debug!` line, after it has popped the queue.
  abbrev pub crash : App → App
  crash app =
      let (taken, rest) = pop app.runner.state app.runner.current in
      record app {
        runner = record (app.runner) { state = record (app.runner.state) { queue = rest } };
        crashed = some taken;
      }

  abbrev pub section_round_of : App → (later : ℕ) → Option (List SecRun) → App
  section_round_of app later (some l) = app
  section_round_of app later none =
      if prints app later then round_of_sections app later else crash app

  abbrev pub stop_runner : App → Option (List SecRun) → App
  stop_runner app none = record app {
    runner = SectionRunner.System.handle app.runner SectionRunner.System.stopped;
  }
  stop_runner app (some l) = app

  unfoldable pub handle : App → Event → App
  handle app (message m) =
      if app.serving
      then (elim app.crashed [ none ↦ take_message app m | some l ↦ refuse_message app m ])
      else app
  handle app (program_round now later) =
      if app.returned || busy app.pending app.programs_crashed
      then app
      else round_of_programs app now later
  handle app program_queues = queue_next app app.pending app.crashed
  handle app (section_round later) = section_round_of app later app.crashed
  handle app serving_ends = record app { serving = false }
  handle app section_runner_stopped = stop_runner app app.crashed
  handle app program_runner_stopped =
      if busy app.pending app.programs_crashed
      then app
      else record app { programs = ScheduleRunner.drop c (Prog c) app.programs }

  unfoldable pub run : App → List Event → App
  unfolding handle
  run app [] = app
  run app (e ∷ es) = run (handle app e) es

  -- What an event puts on the section runner's queue: only messages and programs put something there.
  abbrev pub added : App → Event → List SecRun
  added app (message m) =
      skip (length app.runner.state.queue) (handle app (message m)).runner.state.queue
  added app (program_round now later) = []
  added app program_queues =
      skip (length app.runner.state.queue) (handle app program_queues).runner.state.queue
  added app (section_round later) = []
  added app serving_ends = []
  added app section_runner_stopped = []
  added app program_runner_stopped = []

  -- the requests that the events make, in order
  abbrev pub made : App → List Event → List SecRun
  made app [] = []
  made app (e ∷ es) = added app e ++ made (handle app e) es
