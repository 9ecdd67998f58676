-- ===== src/SourceTests/Runner.antt =====
-- `test_schedule_runner` of src/schedule_runner.rs on the model, in UTC, with a round of the thread at
-- each time for which it waits. What a closure sends is its number, in the order of the sending.
use rinklers.Prelude.{
  ℕ, zero, suc, ◌+◌, ◌-◌, ◌*◌, ◌/◌, ◌%◌, ◌≡◌, refl, List, [], ◌∷◌, ◌++◌, Bool, true, false, ◌&&◌,
  Outcome, done, ◌>>=◌,
}
use rinklers.Util.WaitPeriod.{WaitPeriod, wait, at_most, no_wait, min}
use rinklers.IndexMap
use rinklers.Schedule.{
  Schedule, new_schedule, default_schedule, no_bound, next_weekday, search_weekday, next_run_after,
  over_weekdays, over_times, earlier, candidate_at, resolve_from, start_reference, start_bound,
  search_start,
}
use rinklers.Schedule.Plain.{nth_day}
use rinklers.Schedule.Gregorian.{utc, days_before, day_length}
use rinklers.ScheduleRunner.{
  RunnerData, new_data, schedule, remove, update_data, update_schedule, replace_schedule, new_run,
  update_next_run, guard_stop, drop, visit, visit_from, tend, Round, round,
}
use rinklers.ScheduleRunner.Executor.{fn_executor, execute_each}
use rinklers.SourceTests.{same_list}
use rinklers.SourceTests.Schedules.{ymd, and_hms}

-- what has been sent
abbrev Sent : Type 0
Sent = List ℕ

abbrev TestedRunner : Type 0
TestedRunner = RunnerData utc (Sent → Sent)

abbrev delay_time : ℕ
delay_time = 25

-- twice in the rest of the day
abbrev test_times : ℕ → Schedule utc
unfolding new_schedule
test_times now =
    let time = now % day_length in
    new_schedule utc ((time + delay_time) ∷ (time + delay_time * 2) ∷ [])
      (nth_day ((now / day_length) % 7) ∷ []) no_bound no_bound

-- the loop that schedules: so many items, from the number `n` on, with their guards
abbrev make_guards : (now : ℕ) → ℕ → ℕ → TestedRunner → Outcome (List ℕ × TestedRunner)
make_guards now zero n d = done ([], d)
make_guards now (suc left) n d = do
  (guard, scheduled) ← schedule utc _ d (default_schedule utc) (λ sent. sent) now
  (_, updated) ← update_data utc _ scheduled guard (λ sent. sent ++ n ∷ [])
  (_, rescheduled) ← update_schedule utc _ updated guard (test_times now) now
  (guards, made) ← make_guards now left (n + 1) rescheduled
  done (guard ∷ guards, made)

abbrev stop_guards : List ℕ → TestedRunner → Outcome TestedRunner
stop_guards [] d = done d
stop_guards (guard ∷ guards) d = do (_, d') ← guard_stop utc _ d guard; stop_guards guards d'

abbrev sent_by : List (Sent → Sent) → Sent
sent_by executed = execute_each (fn_executor Sent) executed []

abbrev waits_for : WaitPeriod → ℕ → Bool
waits_for wait n = false
waits_for (at_most m) n = same_list (m ∷ []) (n ∷ [])
waits_for no_wait n = false

-- The clock is read a millisecond later after an execution.
abbrev round_at : ℕ → TestedRunner → WaitPeriod → Round utc (Sent → Sent)
round_at at d w = round utc (Sent → Sent) (λ i. at) (λ i. at + 1) d w

abbrev test_schedule_runner : (now : ℕ) → Outcome Bool
test_schedule_runner now = do
  (guards, scheduled) ← make_guards now 10 0 (new_data utc _)
  let first = round_at now scheduled wait
  let second = round_at (now + delay_time) first.state first.wait_period
  let third = round_at (now + delay_time + 1) second.state second.wait_period
  stopped ← stop_guards guards third.state
  let fourth = round_at (now + delay_time * 2) stopped third.wait_period
  let last = round_at (now + delay_time * 2) (drop utc _ fourth.state) fourth.wait_period
  done (
      same_list (sent_by first.executed) []
      && waits_for first.wait_period delay_time
      && same_list (sent_by second.executed) (0 ∷ 1 ∷ 2 ∷ 3 ∷ 4 ∷ 5 ∷ 6 ∷ 7 ∷ 8 ∷ 9 ∷ [])
      && same_list (sent_by third.executed) []
      && waits_for third.wait_period (delay_time - 1)
      && same_list (sent_by fourth.executed) []
      && last.returned)

schedule_runner_passes : test_schedule_runner (and_hms (ymd 2017 1 20) 12 0 0) ≡ done true
unfolding days_before schedule remove update_data update_schedule replace_schedule new_run
    update_next_run guard_stop drop visit visit_from tend round new_schedule next_weekday
    search_weekday next_run_after over_weekdays over_times earlier candidate_at resolve_from
    start_reference start_bound search_start IndexMap.insert IndexMap.remove IndexMap.index
    IndexMap.index_mut IndexMap.remove_entry min
schedule_runner_passes = refl
