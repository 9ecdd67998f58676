-- ===== src/Application/Threads.antt =====
-- src/main.rs: the started program with its threads, those of both runners on their `RunnerState`s, that of
-- the MQTT API, and `main` from its wait for a signal on. What a step does to the sections and to the data is
-- an event of Application/System. Each run of a section is an update, which notifies the section runner's
-- thread; a request is such an update exactly if it makes the queue longer.
pub mod Follows
pub mod Quits
pub mod Crashes
pub mod Order
pub mod Phases
pub mod Ends
pub mod Stopping
pub mod Stuck
pub mod Joining
mod Examples
use rinklers.Prelude.{
  Option, none, some, ◌⊎◌, ℕ, ◌≡◌, List, [], ◌∷◌, ◌++◌, Bool, true, false, ltb, length,
  if◌then◌else◌,
}
use rinklers.Util.WaitPeriod.{WaitPeriod, wait, at_most}
use rinklers.Util.RunnerState.{Phase, entering, waiting, ready, ended, Next, quit, notify, enter}
use rinklers.Util.Durations.Library.{CharTables, Chrono}
use rinklers.Schedule.Chrono.{Calendar}
use rinklers.SectionRunner
use rinklers.SectionRunner.{SecRun}
use rinklers.MqttApi.{Payloads, Incoming}
use rinklers.Application.{State}
use rinklers.Application.System.{
  App, Event, message, program_round, program_queues, section_round, serving_ends,
  section_runner_stopped, program_runner_stopped, launched, handle,
}

-- Where `main` stands: it waits for a signal, has stopped the MQTT API, waits for either runner's thread to
-- return, has returned, or has panicked.
pub data Main : Type 0 where
  awaiting stopping joining_sections joining_programs finished died : Main

-- `notify_one` and the lock of `wait_condvar`, on a thread
abbrev no_round : Unit {0} → WaitPeriod → Unit {0} × Next
no_round d w = (d, quit)

abbrev pub notified : Phase → Phase
notified = notify Unit no_round

abbrev pub entered : WaitPeriod → Phase
entered = enter Unit no_round

-- the thread of the section runner is notified of each request
abbrev pub told : (before after : SectionRunner.RunnerData) → Phase → Phase
told before after p = if ltb (length before.queue) (length after.queue) then notified p else p

-- where a thread stands after a round
abbrev pub behind : Bool → WaitPeriod → Phase
behind true p = ended
behind false p = entering p

-- where the section runner's thread stands after a round, which may have panicked
abbrev pub behind_crash : Option (List SecRun) → Bool → WaitPeriod → Phase
behind_crash none b p = behind b p
behind_crash (some l) b p = ended

module _ (c : Calendar) (p : Payloads) (ch : CharTables) (k : Chrono) (prefix_len : ℕ) where
  open c use {DateTime}

  pub record Threads : Type 0 where
    pub app : App c p ch k prefix_len
    -- where the threads of the section runner and of the program runner stand
    pub sections : Phase
    pub programs : Phase
    pub main : Main

  -- When `main` begins to wait for a signal: the threads of the runners may not have come to their first wait,
  -- may wait, or may have been notified.
  abbrev pub opened : State c → (sections programs : Phase) → Threads
  opened st sections programs = record {
    app = launched c p ch k prefix_len st;
    sections = sections;
    programs = programs;
    main = awaiting;
  }

  abbrev pub handled : Event c p ch k prefix_len → App c p ch k prefix_len → App c p ch k prefix_len
  handled e app = handle c p ch k prefix_len app e

  abbrev pub requests_made : Threads → App c p ch k prefix_len → Threads
  requests_made s app = record s {
    app = app;
    sections = told s.app.runner.state app.runner.state s.sections;
  }

  -- a message of the client to the MQTT API's thread
  unfoldable pub take : Threads → Incoming p → Threads
  take s m = requests_made s (handled (message m) s.app)

  -- a round of the program runner's thread
  unfoldable pub round_programs : Threads → (now later : ℕ → DateTime) → Threads
  round_programs s now later =
      let app = handled (program_round now later) s.app in
      record s { app = app; programs = behind app.returned app.period }

  -- The program runner's thread makes a request of its round, or panics.
  unfoldable pub queue_program : Threads → Threads
  queue_program s =
      let app = handled program_queues s.app in
      record (requests_made s app) { programs = if app.programs_crashed then ended else s.programs }

  -- a round of the section runner's thread
  unfoldable pub round_sections : Threads → (later : ℕ) → Threads
  round_sections s later =
      let app = handled (section_round later) s.app in
      record s {
        app = app;
        sections = behind_crash app.crashed app.runner.returned app.runner.period;
      }

  -- `SectionRunner::stop`, before the join
  unfoldable pub stop_sections : Threads → Threads
  stop_sections s = record s {
    app = handled section_runner_stopped s.app;
    sections = notified s.sections;
    main = joining_sections;
  }

  -- `ProgramRunner::stop`, before the join
  unfoldable pub stop_programs : Threads → Threads
  stop_programs s = record s {
    app = handled program_runner_stopped s.app;
    programs = notified s.programs;
    main = joining_programs;
  }

  -- `main` locks a mutex that is poisoned, or joins a thread that has panicked.
  abbrev pub Panics : Main → Threads → Type 0
  Panics awaiting s = ⊥
  Panics stopping s = (l : List SecRun) × (s.app.crashed ≡ some l)
  Panics joining_sections s =
      (s.sections ≡ ended)
      × (((l : List SecRun) × (s.app.crashed ≡ some l)) ⊎ (s.app.programs_crashed ≡ true))
  Panics joining_programs s = (s.programs ≡ ended) × (s.app.programs_crashed ≡ true)
  Panics finished s = ⊥
  Panics died s = ⊥

  -- The steps of the threads and of `main`, with their events. The program runner's thread goes on from a round
  -- when it has made all its requests, and `main` waits for the mutex that it holds until then.
  pub data Step (s : Threads) : List (Event c p ch k prefix_len) → Threads → Type 0 where
    receives :
        (m : Incoming p)
        → s.main ≡ awaiting
        → s.app.serving ≡ true
        → Step s (message m ∷ []) (take s m)
    sections_locks :
        (w : WaitPeriod) → s.sections ≡ entering w → Step s [] (record s { sections = entered w })
    sections_times_out :
        (d : ℕ) → s.sections ≡ waiting (at_most d) → Step s [] (record s { sections = ready })
    sections_rounds :
        (later : ℕ)
        → s.sections ≡ ready
        → Step s (section_round later ∷ []) (round_sections s later)
    programs_locks :
        (w : WaitPeriod)
        → s.programs ≡ entering w
        → s.app.pending ≡ []
        → Step s [] (record s { programs = entered w })
    programs_times_out :
        (d : ℕ) → s.programs ≡ waiting (at_most d) → Step s [] (record s { programs = ready })
    programs_rounds :
        (now later : ℕ → DateTime)
        → s.programs ≡ ready
        → Step s (program_round now later ∷ []) (round_programs s now later)
    programs_queues :
        (r : SecRun) (rs : List SecRun)
        → s.app.pending ≡ r ∷ rs
        → Step s (program_queues ∷ []) (queue_program s)
    -- a signal, and the stop of the MQTT API: it succeeds, or it, or taking the state back, panics
    signalled :
        s.main ≡ awaiting
        → Step s
            (serving_ends ∷ [])
            (record s { app = handled serving_ends s.app; main = stopping })
    signal_fails :
        s.main ≡ awaiting
        → Step s (serving_ends ∷ []) (record s { app = handled serving_ends s.app; main = died })
    stops_sections :
        s.main ≡ stopping
        → s.app.crashed ≡ none
        → Step s (section_runner_stopped ∷ []) (stop_sections s)
    stops_programs :
        s.main ≡ joining_sections
        → s.sections ≡ ended
        → s.app.crashed ≡ none
        → s.app.pending ≡ []
        → s.app.programs_crashed ≡ false
        → Step s (program_runner_stopped ∷ []) (stop_programs s)
    finishes :
        s.main ≡ joining_programs
        → s.programs ≡ ended
        → s.app.programs_crashed ≡ false
        → Step s [] (record s { main = finished })
    main_panics : Panics s.main s → Step s [] (record s { main = died })

  -- Steps one after the other, with no spurious wake-up, and their events.
  pub data Steps : Threads → List (Event c p ch k prefix_len) → Threads → Type 0 where
    still : {s : Threads} → Steps s [] s
    moves :
        {es fs : List (Event c p ch k prefix_len)} {s t u : Threads}
        → Step s es t
        → Steps t fs u
        → Steps s (es ++ fs) u

  -- Any steps and spurious wake-ups, in any order, with their events.
  pub data Reach (s : Threads) : List (Event c p ch k prefix_len) → Threads → Type 0 where
    here : Reach s [] s
    later :
        {es fs : List (Event c p ch k prefix_len)} {t u : Threads}
        → Reach s es t
        → Step t fs u
        → Reach s (es ++ fs) u
    sections_spuriously :
        {es : List (Event c p ch k prefix_len)} {t : Threads} (w : WaitPeriod)
        → Reach s es t
        → t.sections ≡ waiting w
        → Reach s es (record t { sections = ready })
    programs_spuriously :
        {es : List (Event c p ch k prefix_len)} {t : Threads} (w : WaitPeriod)
        → Reach s es t
        → t.programs ≡ waiting w
        → Reach s es (record t { programs = ready })
