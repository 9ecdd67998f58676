-- ===== src/ProgramRunner/Examples.antt =====
-- Two programs with schedules in a concrete calendar.
use rinklers.Prelude.{◌≡◌, ◌++◌, refl, none, [], ◌∷◌, false, done}
use rinklers.Util.WaitPeriod.{wait}
use rinklers.SectionRunner
use rinklers.Schedule.Plain.{plain}
use rinklers.Schedule.Examples.{wednesdays}
use rinklers.Schedule.{
  next_weekday, next_run_after, over_weekdays, over_times, earlier, candidate_at, resolve_from,
  start_reference, start_bound,
}
use rinklers.ScheduleRunner
use rinklers.ScheduleRunner.{new_data, round, visit, new_run}
use rinklers.ProgramRunner.{Prog, schedule_programs, execute_all}
use rinklers.ProgramRunner.Start.{due_programs, requests_of, schedule_programs-execute_all}

abbrev on_wednesdays : Prog plain
on_wednesdays = record {
  name = "weekly";
  sequence = record { section = 4; duration = 100 } ∷ record { section = 5; duration = 200 } ∷ [];
  schedule = wednesdays;
  on_schedule_update = none;
}

abbrev never : Prog plain
never = record {
  name = "never";
  sequence = record { section = 6; duration = 5 } ∷ [];
  schedule = record wednesdays { weekdays = [] };
  on_schedule_update = none;
}

abbrev no_requests : SectionRunner.RunnerData
no_requests = record { quit = false; queue = [] }

first_requests :
    (d : ScheduleRunner.RunnerData plain (Prog plain)) × (schedule_programs plain
        (λ i. 700)
        (new_data plain (Prog plain))
        0
        (never ∷ on_wednesdays ∷ [])
      ≡ done d)
    × (execute_all plain
          (round plain (Prog plain) (λ i. 3510) (λ i. 3511) d wait).executed
          no_requests
          7
        ≡ record no_requests {
          queue =
              []
              ++ requests_of plain
                  (due_programs plain (λ i. 700) (λ i. 3510) 0 (never ∷ on_wednesdays ∷ []))
                  7;
        })
first_requests =
    schedule_programs-execute_all plain (λ i. 700) (λ i. 3510) (λ i. 3511)
      (never ∷ on_wednesdays ∷ []) no_requests wait 7

-- Only the weekly program is due.
weekly_is_due :
    due_programs plain (λ i. 700) (λ i. 3510) 0 (never ∷ on_wednesdays ∷ []) ≡ on_wednesdays ∷ []
unfolding new_run next_run_after over_weekdays over_times earlier candidate_at resolve_from
    next_weekday start_reference start_bound
weekly_is_due = refl
