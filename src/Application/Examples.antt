-- ===== src/Application/Examples.antt =====
-- The start of the application with two sections and two programs.
use rinklers.Prelude.{ℕ, ◌≡◌, refl, Option, none, [], ◌∷◌, true, false, done, panicked}
use rinklers.Util.WaitPeriod.{WaitPeriod, wait}
use rinklers.Schedule.{Schedule}
use rinklers.Schedule.Plain.{plain}
use rinklers.Schedule.Examples.{wednesdays}
use rinklers.Config.{Config}
use rinklers.SectionRunner
use rinklers.SectionRunner.{Run}
use rinklers.ScheduleRunner
use rinklers.ScheduleRunner.{new_run, schedule}
use rinklers.IndexMap.{element, insert}
use rinklers.Section.{new_noop}
use rinklers.Config.{
  to_section, to_sections, to_prog_item, to_program, to_programs, collect_results,
}
use rinklers.Program.{new_program}
use rinklers.ProgramRunner.{Prog, schedule_program, schedule_programs}
use rinklers.Application.{State, started, from_config, initialize, boot, stop_all}
use rinklers.Application.Boot.{Boots, boot-Boots}
use rinklers.Application.Shutdown.{cut_short, boot-stop_all}

abbrev pub garden : Config (Schedule plain)
garden = record {
  sections = record { name = "lawn" } ∷ record { name = "beds" } ∷ [];
  programs =
      record {
        name = "weekly";
        sequence =
            record { section = 1; duration = 100 } ∷ record { section = 0; duration = 200 } ∷ [];
        schedule = wednesdays;
      }
      ∷ record {
        name = "never";
        sequence = record { section = 1; duration = 5 } ∷ [];
        schedule = record wednesdays { weekdays = [] };
      }
      ∷ [];
}

-- a program that names a third section
abbrev no_third : Config (Schedule plain)
no_third = record garden {
  programs =
      record {
        name = "far";
        sequence = record { section = 2; duration = 1 } ∷ [];
        schedule = wednesdays;
      }
      ∷ garden.programs;
}

boot-Boots_example :
    Boots plain (λ i. 700) (λ i. 3510) (λ i. 3511) wait 7 garden none (boot plain (λ i. 700) garden)
boot-Boots_example = boot-Boots plain (λ i. 700) (λ i. 3510) (λ i. 3511) wait 7 garden

-- This one panics.
no_third_panics : boot plain (λ i. 700) no_third ≡ panicked
no_third_panics = boot-Boots plain (λ i. 700) (λ i. 3510) (λ i. 3511) wait 7 no_third

abbrev weekly : Prog plain
weekly = record {
  name = "weekly";
  sequence = record { section = 1; duration = 100 } ∷ record { section = 0; duration = 200 } ∷ [];
  schedule = wednesdays;
  on_schedule_update = none;
}

abbrev never : Prog plain
never = record {
  name = "never";
  sequence = record { section = 1; duration = 5 } ∷ [];
  schedule = record wednesdays { weekdays = [] };
  on_schedule_update = none;
}

-- the state of the start
abbrev pub garden_state : State plain
garden_state =
    record (started plain (new_noop "lawn" ∷ new_noop "beds" ∷ []) (weekly ∷ never ∷ [])) {
      program_data = record {
        quit = false;
        runs = record {
          entries =
              element (new_run plain (Prog plain) weekly.schedule weekly 700)
              ∷ element (new_run plain (Prog plain) never.schedule never 700)
              ∷ [];
          next_empty = none;
        };
      };
    }

pub garden_boots : boot plain (λ i. 700) garden ≡ done garden_state
unfolding boot from_config initialize to_sections to_section new_noop to_programs to_program
    to_prog_item collect_results new_program schedule_programs schedule_program schedule insert
garden_boots = refl

-- A request is queued, and nothing is scheduled any more.
abbrev queued : SectionRunner.RunnerData
queued = record { quit = false; queue = record { sec = 1; dur = 50; notification_sender = 9 } ∷ [] }

garden_stop_all :
    (d' : SectionRunner.RunnerData) × (e' : ScheduleRunner.RunnerData plain (Prog plain))
    × (stop_all plain (record garden_state {
      section_data = queued;
      program_data = ScheduleRunner.new_data plain (Prog plain);
    })
        ≡ done (d', e'))
    × ((now : ℕ) (run : Option Run) (w : WaitPeriod)
        → let r = SectionRunner.round now d' run w in
          (r.returned ≡ true) × (r.current_run ≡ none) × (r.effects ≡ cut_short run queued.queue))
    × ((now later : ℕ → ℕ) (w : WaitPeriod)
        → let r = ScheduleRunner.round plain (Prog plain) now later e' w in
          (r.returned ≡ true) × (r.executed ≡ []))
garden_stop_all =
    boot-stop_all plain (λ i. 700) garden garden_state queued
      (ScheduleRunner.new_data plain (Prog plain)) garden_boots
