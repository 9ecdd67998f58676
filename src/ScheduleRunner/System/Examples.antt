-- ===== src/ScheduleRunner/System/Examples.antt =====
-- A runner with three guards in a concrete calendar: the data of the first are replaced, the second is
-- stopped, and the third takes its index.
use rinklers.Prelude.{ℕ, ◌≡◌, refl, none, some, List, [], ◌∷◌, false, done}
use rinklers.IndexMap.{element, insert, remove, index, index_mut}
use rinklers.Schedule.{
  Schedule, next_weekday, next_run_after, over_weekdays, over_times, earlier, candidate_at,
  resolve_from, start_reference, start_bound,
}
use rinklers.Schedule.Plain.{plain}
use rinklers.Schedule.Examples.{wednesdays}
use rinklers.ScheduleRunner.{new_run, round, visit, schedule, update_data, guard_stop}
use rinklers.ScheduleRunner.System.{
  slot, System, Event, scheduled, data_updated, guard_stopped, start, run,
}
use rinklers.ScheduleRunner.System.Guards.{run-Serves}
use rinklers.ScheduleRunner.System.Notes.{notes, Serves}
use rinklers.ScheduleRunner.System.Executions.{executed-asked}

abbrev three_guards : List (Event plain ℕ)
three_guards =
    scheduled wednesdays 71 700
    ∷ scheduled wednesdays 72 700
    ∷ data_updated 0 74
    ∷ guard_stopped 1
    ∷ scheduled wednesdays 73 701
    ∷ data_updated 1 75
    ∷ []

asked_for :
    notes plain ℕ [] three_guards ≡ some (wednesdays, 74) ∷ none ∷ some (wednesdays, 73) ∷ []
asked_for = refl

three_guards_served :
    (s : System plain ℕ) × (run plain ℕ (start plain ℕ) three_guards ≡ done s)
    × Serves plain ℕ s (notes plain ℕ [] three_guards)
three_guards_served = run-Serves plain ℕ three_guards

-- the state after these events
abbrev two_left : System plain ℕ
two_left = record (start plain ℕ) {
  state = record {
    quit = false;
    runs = record {
      entries =
          element (record (new_run plain ℕ wednesdays 71 700) { item = 74 })
          ∷ element (new_run plain ℕ wednesdays 73 701)
          ∷ [];
      next_empty = none;
    };
  };
  guards = some 0 ∷ none ∷ some 1 ∷ [];
}

three_guards_run : run plain ℕ (start plain ℕ) three_guards ≡ done two_left
unfolding run schedule insert update_data index index_mut guard_stop remove
three_guards_run = refl

executed-asked_example :
    (g : ℕ) × (sched : Schedule plain) × (slot (notes plain ℕ [] three_guards) g ≡ some (sched, 73))
unfolding round visit new_run next_weekday next_run_after over_weekdays over_times earlier
    candidate_at resolve_from start_reference start_bound
executed-asked_example =
    executed-asked plain ℕ three_guards two_left (λ i. 3510) (λ i. 3511) 1 73 three_guards_run refl
      refl
