-- ===== src/Application/Shutdown.antt =====
-- From the start to `State::stop_all`.
use rinklers.Prelude.{
  ℕ, ◌≡◌, refl, Option, none, some, List, [], ◌∷◌, map, true, false, Outcome, done, panicked, ◌>>=◌,
}
use rinklers.Util.WaitPeriod.{WaitPeriod}
use rinklers.Schedule.Chrono.{Calendar}
use rinklers.Schedule.{Schedule}
use rinklers.Section.{noop_section, log_section}
use rinklers.SectionRunner
use rinklers.SectionRunner.{Run, SecRun, Effect, set_state, send, interrupted}
use rinklers.ScheduleRunner
use rinklers.ScheduleRunner.{drop}
use rinklers.ProgramRunner.{Prog, schedule_programs}
use rinklers.Config.{ConfigResult, ok, err, Config, to_sections, to_programs}
use rinklers.Config
use rinklers.Application.{
  State, started, with_programs, from_config, initialize, unwrapped, boot, stop_all,
}

-- The specification: what a stop does to the run under way and the queue.
abbrev pub cut_short : Option Run → List SecRun → List Effect
cut_short none queue = []
cut_short (some run) queue =
    set_state run.sec false
    ∷ send run.notify interrupted
    ∷ map (λ r. send r.notification_sender interrupted) queue

module _ (c : Calendar) where
  open c use {DateTime}

  -- The state holds the first handle of the section runner.
  boot_handle :
      (at : ℕ → DateTime) (config : Config (Schedule c)) (st : State c)
      → boot c at config ≡ done st
      → st.section_runner.join_handle ≡ true
  unfolding boot from_config initialize
  boot_handle at config st h = by_programs (to_programs (Schedule c) config _) h
    where
      by_data :
          (ps : List (Prog c)) (x : Outcome (ScheduleRunner.RunnerData c (Prog c)))
          → (x >>= λ d. done (record (started c (to_sections config.sections) ps) {
            sections = map (λ s. log_section.set_state s false) (to_sections config.sections);
            program_data = d;
          }))
            ≡ done st
          → st.section_runner.join_handle ≡ true
      by_data ps (done d) h = cc h
      by_data ps panicked h = cc h

      by_programs :
          (r : ConfigResult (List (Prog c)))
          → (unwrapped c (with_programs c (to_sections config.sections) r) >>= initialize c at)
            ≡ done st
          → st.section_runner.join_handle ≡ true
      by_programs (ok ps) h =
          by_data ps (schedule_programs c at (ScheduleRunner.new_data c (Prog c)) 0 ps) h
      by_programs (err e) h = cc h
      by_programs Config.panicked h = cc h

  -- After the start, whatever has been queued and scheduled since and whether a section is running,
  -- `stop_all` does not panic, and the next round of each thread returns. That of the section runner turns
  -- off the section of the run under way, if there is one, and then interrupts all that is
  -- queued; that of the program runner executes nothing.
  pub boot-stop_all :
      (at : ℕ → DateTime) (config : Config (Schedule c)) (st : State c)
      (d : SectionRunner.RunnerData) (e : ScheduleRunner.RunnerData c (Prog c))
      → boot c at config ≡ done st
      → (d' : SectionRunner.RunnerData) × (e' : ScheduleRunner.RunnerData c (Prog c)) × (stop_all c
            (record st { section_data = d; program_data = e })
          ≡ done (d', e'))
        × ((now : ℕ) (run : Option Run) (w : WaitPeriod)
            → let r = SectionRunner.round now d' run w in
              (r.returned ≡ true) × (r.current_run ≡ none) × (r.effects ≡ cut_short run d.queue))
        × ((now later : ℕ → DateTime) (w : WaitPeriod)
            → let r = ScheduleRunner.round c (Prog c) now later e' w in
              (r.returned ≡ true) × (r.executed ≡ []))
  unfolding stop_all SectionRunner.stop drop SectionRunner.round ScheduleRunner.round
  boot-stop_all at config st d e h = (
    record d { quit = true },
    drop c (Prog c) e,
    rw (boot_handle at config st h) refl,
    section_thread,
    λ now later w. (refl, refl),
  )
    where
      section_thread :
          (now : ℕ) (run : Option Run) (w : WaitPeriod)
          → let r = SectionRunner.round now (record d { quit = true }) run w in
            (r.returned ≡ true) × (r.current_run ≡ none) × (r.effects ≡ cut_short run d.queue)
      section_thread now none w = (refl, refl, refl)
      section_thread now (some run) w = (refl, refl, refl)
