-- ===== src/Application/Threads/Examples.antt =====
-- The garden of the other examples, with its threads, from the start to the end.
use rinklers.Prelude.{◌≡◌, ◌≢◌, refl, List, [], ◌∷◌, true, false, none}
use rinklers.Util.WaitPeriod.{wait, at_most, no_wait, min}
use rinklers.Util.RunnerState.{entering, waiting, ready, ended, notify, enter}
use rinklers.Schedule.{
  next_weekday, next_run_after, over_weekdays, over_times, earlier, candidate_at, resolve_from,
  start_reference, start_bound,
}
use rinklers.Schedule.Plain.{plain}
use rinklers.Util.Durations.Examples.{ascii, lengths}
use rinklers.MqttApi.Examples.{simple}
use rinklers.SectionRunner
use rinklers.SectionRunner.System
use rinklers.SectionRunner.Logging
use rinklers.Util.Durations
use rinklers.ScheduleRunner
use rinklers.ProgramRunner
use rinklers.Program
use rinklers.Application.Examples.{garden, garden_state, garden_boots}
use rinklers.Application.System.{
  prints, Event, program_round, program_queues, section_round, serving_ends, section_runner_stopped,
  program_runner_stopped, handle,
}
use rinklers.Application.System.Shown.{Shows}
use rinklers.Application.Threads.{
  stopping, joining_sections, finished, Threads, opened, handled, round_programs, round_sections,
  stop_sections, stop_programs, Step, programs_locks, sections_locks, programs_rounds,
  programs_queues, queue_program, sections_rounds, signalled, stops_sections, stops_programs,
  finishes, sections_times_out, Steps, Reach, here, later, programs_spuriously,
}
use rinklers.Application.Threads.Ends.{finished-Shows}
use rinklers.Application.Threads.Stopping.{IsPrompt, Finishes, stopping-Finishes}
use rinklers.Application.Threads.Joining.{OwnStep, Nearer, joining-Nearer}
use rinklers.Application.Threads.Stuck.{opened_stuck}

abbrev Garden : Type 0
Garden = Threads plain simple ascii lengths 2

abbrev GardenEvent : Type 0
GardenEvent = Event plain simple ascii lengths 2

abbrev start : Garden
start = opened plain simple ascii lengths 2 garden_state (entering wait) (entering wait)

-- Both threads wait; the program runner's wakes spuriously, and finds a program due.
abbrev due : Garden
unfolding round_programs
due =
    round_programs plain simple ascii lengths 2
      (record start { sections = waiting wait; programs = ready }) (λ i. 3510) (λ i. 3511)

-- The program's two requests, one after the other.
abbrev asked : Garden
unfolding queue_program
asked = queue_program plain simple ascii lengths 2 (queue_program plain simple ascii lengths 2 due)

-- The first section of the program is turned on.
abbrev watering : Garden
unfolding round_sections
watering = round_sections plain simple ascii lengths 2 asked 10

-- The signal comes.
abbrev interrupted : Garden
interrupted = record watering {
  app = handled plain simple ascii lengths 2 serving_ends watering.app;
  main = stopping;
}

abbrev first_events : List GardenEvent
first_events =
    program_round (λ i. 3510) (λ i. 3511)
    ∷ program_queues
    ∷ program_queues
    ∷ section_round 10
    ∷ serving_ends
    ∷ []

interrupted_reached : Reach plain simple ascii lengths 2 start first_events interrupted
unfolding round_programs queue_program round_sections SectionRunner.Logging.round_prints
    Durations.duration_string enter notify handle SectionRunner.System.handle SectionRunner.round
    SectionRunner.run_section ScheduleRunner.round ScheduleRunner.tend ScheduleRunner.visit
    ScheduleRunner.visit_from ScheduleRunner.update_next_run ScheduleRunner.new_run
    ProgramRunner.execute_all Program.execute Program.queue_run min next_weekday next_run_after
    over_weekdays over_times earlier candidate_at resolve_from start_reference start_bound
interrupted_reached =
    later
      (later
        (later
          (later
            (later
              (programs_spuriously wait
                (later (later here (programs_locks wait refl refl)) (sections_locks wait refl))
                refl)
              (programs_rounds (λ i. 3510) (λ i. 3511) refl))
            (programs_queues _ _ refl))
          (programs_queues _ _ refl))
        (sections_rounds 10 refl))
      (signalled refl)

-- Each runner is stopped, and its thread makes its last round.
abbrev sections_ended : Garden
unfolding stop_sections round_sections
sections_ended =
    round_sections plain simple ascii lengths 2
      (record (stop_sections plain simple ascii lengths 2 interrupted) { sections = ready }) 40

abbrev over : Garden
unfolding stop_programs round_programs
over =
    record (round_programs plain simple ascii lengths 2
      (record (stop_programs plain simple ascii lengths 2 sections_ended) { programs = ready })
      (λ i. 3600) (λ i. 3601)) { main = finished }

abbrev all_events : List GardenEvent
all_events =
    program_round (λ i. 3510) (λ i. 3511)
    ∷ program_queues
    ∷ program_queues
    ∷ section_round 10
    ∷ serving_ends
    ∷ section_runner_stopped
    ∷ section_round 40
    ∷ program_runner_stopped
    ∷ program_round (λ i. 3600) (λ i. 3601)
    ∷ []

over_reached : Reach plain simple ascii lengths 2 start all_events over
unfolding round_programs queue_program round_sections SectionRunner.Logging.round_prints
    Durations.duration_string stop_sections stop_programs enter notify handle
    SectionRunner.System.handle SectionRunner.stop SectionRunner.round SectionRunner.run_section
    ScheduleRunner.round ScheduleRunner.tend ScheduleRunner.visit ScheduleRunner.visit_from
    ScheduleRunner.update_next_run ScheduleRunner.new_run ScheduleRunner.drop
    ProgramRunner.execute_all Program.execute Program.queue_run min next_weekday next_run_after
    over_weekdays over_times earlier candidate_at resolve_from start_reference start_bound
over_reached =
    later
      (later
        (later
          (later
            (later
              (later
                (later (later interrupted_reached (stops_sections refl refl))
                  (sections_locks (at_most 100) refl))
                (sections_times_out 100 refl))
              (sections_rounds 40 refl))
            (stops_programs refl refl refl refl refl))
          (programs_locks no_wait refl refl))
        (programs_rounds (λ i. 3600) (λ i. 3601) refl))
      (finishes refl refl refl)

finished-Shows_example :
    (over.sections ≡ ended) × (over.programs ≡ ended) × Shows (λ i. false) over.app.sections
unfolding over
finished-Shows_example =
    finished-Shows plain simple ascii lengths 2 (λ i. 700) garden garden_state (entering wait)
      (entering wait) all_events over garden_boots (λ h. cc h) (λ h. cc h) over_reached refl
      (tt, (tt, (tt, (tt, (tt, (tt, (tt, (tt, (tt, tt)))))))))

-- Neither thread waits without a limit: a run is under way, and a program has just been executed.
in_time : (interrupted.sections ≢ entering wait) × (interrupted.programs ≢ entering wait)
unfolding enter notify handle SectionRunner.System.handle SectionRunner.round ScheduleRunner.round
    ScheduleRunner.tend ScheduleRunner.visit ScheduleRunner.visit_from ScheduleRunner.new_run
    ScheduleRunner.update_next_run ProgramRunner.execute_all Program.execute Program.queue_run min
    next_weekday next_run_after over_weekdays over_times earlier candidate_at resolve_from
    start_reference start_bound round_programs queue_program round_sections
    SectionRunner.run_section SectionRunner.Logging.round_prints Durations.duration_string
in_time = (λ h. cc h, λ h. cc h)

sound :
    (interrupted.app.crashed ≡ none)
    × (interrupted.app.programs_crashed ≡ false)
    × (prints plain simple ascii lengths 2
          (handled plain simple ascii lengths 2 section_runner_stopped interrupted.app)
          0
        ≡ true)
unfolding enter notify handle SectionRunner.System.handle SectionRunner.round ScheduleRunner.round
    ScheduleRunner.tend ScheduleRunner.visit ScheduleRunner.visit_from ScheduleRunner.new_run
    ScheduleRunner.update_next_run ProgramRunner.execute_all Program.execute Program.queue_run min
    next_weekday next_run_after over_weekdays over_times earlier candidate_at resolve_from
    start_reference start_bound round_programs round_sections SectionRunner.run_section
    queue_program SectionRunner.stop SectionRunner.Logging.round_prints Durations.duration_string
sound = (refl, refl, refl)

stopping-Finishes_example : Finishes plain simple ascii lengths 2 interrupted
stopping-Finishes_example =
    stopping-Finishes plain simple ascii lengths 2 (λ i. 700) garden garden_state (entering wait)
      (entering wait) first_events interrupted garden_boots (λ h. cc h) (λ h. cc h)
      interrupted_reached refl in_time.0 in_time.1 sound.0 sound.1 sound.2

opened_stuck_example :
    (t : Garden) × Steps plain simple ascii lengths 2 start
      (serving_ends ∷ section_runner_stopped ∷ [])
      t
    × (t.main ≡ joining_sections)
    × (t.app.programs ≡ garden_state.program_data)
    × ((es : List GardenEvent) (u : Garden) → ¬ Step plain simple ascii lengths 2 t es u)
opened_stuck_example = opened_stuck plain simple ascii lengths 2 garden_state

-- `main` has told the section runner to stop, and its thread has yet to wait for the run.
abbrev told_to_stop : Garden
told_to_stop = stop_sections plain simple ascii lengths 2 interrupted

told_to_stop_reached :
    Reach plain simple ascii lengths 2 start
      (program_round (λ i. 3510) (λ i. 3511)
        ∷ program_queues
        ∷ program_queues
        ∷ section_round 10
        ∷ serving_ends
        ∷ section_runner_stopped
        ∷ [])
      told_to_stop
told_to_stop_reached = later interrupted_reached (stops_sections refl sound.0)

abbrev waits_for_run : Garden
waits_for_run = record told_to_stop { sections = waiting (at_most 100) }

told_to_stop-IsPrompt :
    (told_to_stop.main ≡ joining_sections)
    × IsPrompt told_to_stop.sections
    × Step plain simple ascii lengths 2 told_to_stop [] waits_for_run
unfolding stop_sections enter notify handle SectionRunner.System.handle SectionRunner.round
    ScheduleRunner.round ScheduleRunner.tend ScheduleRunner.visit ScheduleRunner.visit_from
    ScheduleRunner.new_run ScheduleRunner.update_next_run ProgramRunner.execute_all Program.execute
    Program.queue_run min next_weekday next_run_after over_weekdays over_times earlier candidate_at
    resolve_from start_reference start_bound round_programs queue_program round_sections
    SectionRunner.run_section SectionRunner.Logging.round_prints Durations.duration_string
told_to_stop-IsPrompt = (refl, tt, sections_locks (at_most 100) refl)

joining-Nearer_example :
    OwnStep plain simple ascii lengths 2 told_to_stop
    × Nearer plain simple ascii lengths 2 told_to_stop waits_for_run
joining-Nearer_example =
    joining-Nearer plain simple ascii lengths 2 (λ i. 700) garden garden_state (entering wait)
      (entering wait)
      (program_round (λ i. 3510) (λ i. 3511)
        ∷ program_queues
        ∷ program_queues
        ∷ section_round 10
        ∷ serving_ends
        ∷ section_runner_stopped
        ∷ [])
      [] told_to_stop waits_for_run garden_boots (λ h. cc h) (λ h. cc h) told_to_stop_reached
      told_to_stop-IsPrompt.0 told_to_stop-IsPrompt.1 told_to_stop-IsPrompt.2
