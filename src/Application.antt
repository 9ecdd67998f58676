-- ===== src/Application.antt =====
-- src/main.rs: the global `State`, and what `main` does with it between reading the configuration and
-- waiting for a signal. A `SectionRef` is the index of its section. The data that a runner shares with its
-- thread stand beside its handle. A panic of `unwrap_or_else` is `panicked`; the file, the log, the
-- signals and the MQTT client are left out.
pub mod Boot
pub mod Shutdown
pub mod System
pub mod Threads
pub mod Examples
use rinklers.Prelude.{ℕ, List, map, Bool, false, Outcome, done, panicked, ◌>>=◌, indices_from}
use rinklers.Schedule.Chrono.{Calendar}
use rinklers.Schedule.{Schedule}
use rinklers.Section.{NoopSection, LogSection, noop_section, log_section}
use rinklers.SectionRunner
use rinklers.ScheduleRunner
use rinklers.ProgramRunner
use rinklers.ProgramRunner.{Prog, schedule_programs}
use rinklers.Config.{Config, ConfigResult, ok, err, to_sections, to_programs}
use rinklers.Config

module _ (c : Calendar) where
  open c use {DateTime}

  -- `executor` is the clone of the section runner's handle that the program runner holds.
  pub record State : Type 0 where
    pub sections : List (LogSection NoopSection)
    pub programs : List (Prog c)
    pub section_runner : SectionRunner.SectionRunner
    pub section_data : SectionRunner.RunnerData
    pub executor : SectionRunner.SectionRunner
    pub program_data : ScheduleRunner.RunnerData c (Prog c)

  abbrev started : List (LogSection NoopSection) → List (Prog c) → State
  started sections programs = record {
    sections = sections;
    programs = programs;
    section_runner = SectionRunner.start_new;
    section_data = SectionRunner.new_data;
    executor = SectionRunner.clone SectionRunner.start_new;
    program_data = ProgramRunner.start_new c;
  }

  abbrev with_programs :
      List (LogSection NoopSection) → ConfigResult (List (Prog c)) → ConfigResult State
  with_programs sections (ok programs) = ok (started sections programs)
  with_programs sections (err e) = err e
  with_programs sections Config.panicked = Config.panicked

  -- `State::from_config`
  unfoldable pub from_config : Config (Schedule c) → ConfigResult State
  from_config config =
      let sections = to_sections config.sections in
      with_programs sections (to_programs (Schedule c) config (indices_from 0 sections))

  -- `State::stop_all`: the joins are left out
  unfoldable pub stop_all :
      State → Outcome (SectionRunner.RunnerData × ScheduleRunner.RunnerData c (Prog c))
  stop_all st = do
    d ← SectionRunner.stop st.section_runner st.section_data
    done (d, ProgramRunner.stop c st.program_data)

  -- `main`, "initializing sections" and "initializing programs"
  unfoldable pub initialize : (now : ℕ → DateTime) → State → Outcome State
  initialize now st = do
    d ← schedule_programs c now st.program_data 0 st.programs
    done (record st {
      sections = map (λ s. log_section.set_state s false) st.sections;
      program_data = d;
    })

  abbrev unwrapped : ConfigResult State → Outcome State
  unwrapped (ok st) = done st
  unwrapped (err e) = panicked
  unwrapped Config.panicked = panicked

  -- `main`, from the configuration on
  unfoldable pub boot : (now : ℕ → DateTime) → Config (Schedule c) → Outcome State
  boot now config = do st ← unwrapped (from_config config); initialize now st
