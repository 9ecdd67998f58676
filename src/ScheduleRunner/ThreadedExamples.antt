-- ===== src/ScheduleRunner/ThreadedExamples.antt =====
-- A run of the schedule runner's thread: it waits, an item is scheduled, and the runner is dropped.
use rinklers.Prelude.{ℕ, ◌+◌, ◌≡◌, refl, none, some, List, [], ◌∷◌, done}
use rinklers.Util.WaitPeriod.{wait, at_most, min}
use rinklers.Util.RunnerState.{
  waiting, ended, new_state, notify, update, enter, make_round, locks, rounds,
}
use rinklers.Util.RunnerState.Wakeups.{Alone, IsBlocked}
use rinklers.Util.RunnerState.Missed.{called_all, calls_missed}
use rinklers.Util.RunnerState.Driven.{
  ThreadState, Shared, thread_round, called_in, begin, Runs, begun, calls, steps,
}
use rinklers.Util.RunnerState.Prompt.{PromptRuns}
use rinklers.Util.RunnerState.Prompt
use rinklers.IndexMap.{insert}
use rinklers.Schedule.{
  next_weekday, next_run_after, over_weekdays, over_times, earlier, candidate_at, resolve_from,
  start_reference, start_bound,
}
use rinklers.Schedule.Plain.{plain}
use rinklers.ScheduleRunner.{schedule, round, visit, new_run}
use rinklers.ScheduleRunner.InTime.{InTime, waits-InTime}
use rinklers.Schedule.Examples.{wednesdays}
use rinklers.ScheduleRunner.System.{System, start, handle}
use rinklers.ScheduleRunner.System.Notes.{Serves}
use rinklers.ScheduleRunner.Threaded.{
  Call, schedules, drops, event, schedule_thread, Runs-Serves, drop-Runs,
}

abbrev readings : ℕ → (ℕ → ℕ) × (ℕ → ℕ)
readings i = (λ j. 700 + i, λ j. 701 + i)

-- the thread waits
abbrev asleep : ThreadState (schedule_thread plain ℕ)
asleep = record (begin (schedule_thread plain ℕ) readings) { phase = waiting wait }

abbrev wakened : ThreadState (schedule_thread plain ℕ)
wakened =
    update (Shared (schedule_thread plain ℕ)) (thread_round (schedule_thread plain ℕ)) asleep
      (called_in (schedule_thread plain ℕ) (schedules wednesdays 71 700))

wakened-Runs :
    Runs
      (schedule_thread plain ℕ)
      (begin (schedule_thread plain ℕ) readings)
      (schedules wednesdays 71 700 ∷ [])
      wakened
unfolding new_state enter
wakened-Runs = calls (steps begun (locks wait refl)) (schedules wednesdays 71 700)

Runs-Serves_example :
    Serves plain ℕ wakened.content.sys.sys (some (wednesdays, 71) ∷ [])
    × ((x : Call plain ℕ)
        → (s : System plain ℕ) × (handle plain ℕ wakened.content.sys.sys (event plain ℕ x)
            ≡ done s))
Runs-Serves_example =
    Runs-Serves plain ℕ readings (schedules wednesdays 71 700 ∷ []) wakened wakened-Runs

two_items_dropped :
    (u : ThreadState (schedule_thread plain ℕ)) × Alone
      (Shared (schedule_thread plain ℕ))
      (thread_round (schedule_thread plain ℕ))
      (update
        (Shared (schedule_thread plain ℕ))
        (thread_round (schedule_thread plain ℕ))
        wakened
        (called_in (schedule_thread plain ℕ) drops))
      u
    × (u.phase ≡ ended)
    × (u.content.sys.executed ≡ wakened.content.sys.executed)
unfolding update notify
two_items_dropped =
    drop-Runs plain ℕ readings (schedules wednesdays 71 700 ∷ []) wakened wakened-Runs (λ h. cc h)
      (λ h. cc h)

-- Two items that are scheduled before the thread first waits are not seen.
abbrev early : List (Call plain ℕ)
early = schedules wednesdays 71 700 ∷ schedules wednesdays 72 700 ∷ []

calls_missed_example :
    (t : ThreadState (schedule_thread plain ℕ)) × Runs
      (schedule_thread plain ℕ)
      (begin (schedule_thread plain ℕ) readings)
      early
      t
    × IsBlocked (Shared (schedule_thread plain ℕ)) (thread_round (schedule_thread plain ℕ)) t
    × (t.content.sys
        ≡ called_all
            (schedule_thread plain ℕ)
            early
            (record { sys = start plain ℕ; executed = []; last = none }))
calls_missed_example = calls_missed (schedule_thread plain ℕ) readings early

-- The thread has made a round, and waits for the item.
abbrev rested : ThreadState (schedule_thread plain ℕ)
rested =
    record (make_round (Shared (schedule_thread plain ℕ)) (thread_round (schedule_thread plain ℕ))
      wakened) { phase = waiting (at_most 2810) }

rested-PromptRuns :
    PromptRuns
      (schedule_thread plain ℕ)
      (begin (schedule_thread plain ℕ) readings)
      (schedules wednesdays 71 700 ∷ [])
      rested
unfolding new_state enter update notify make_round handle schedule insert round visit new_run
    next_weekday next_run_after over_weekdays over_times earlier candidate_at resolve_from
    start_reference start_bound min
rested-PromptRuns =
    Prompt.steps
      (Prompt.steps
        (Prompt.calls (Prompt.steps Prompt.begun (locks wait refl)) tt
          (schedules wednesdays 71 700))
        (rounds refl))
      (locks (at_most 2810) refl)

waits-InTime_example : InTime plain ℕ rested.content.sys (at_most 2810)
waits-InTime_example =
    waits-InTime plain ℕ readings (schedules wednesdays 71 700 ∷ []) rested (at_most 2810)
      rested-PromptRuns refl (λ h. cc h)
