-- ===== src/ScheduleRunner/System.antt =====
-- src/schedule_runner.rs: the runner's thread and its guards as a sequence of events. Each event holds the
-- mutex: a call on the runner or on a guard, or a round of the thread, which may come at any time. A guard
-- is named by its place among the guards handed out. `ScheduleGuard::stop` consumes its guard, so no call on
-- it can follow; such an event is not one of the program's, and does nothing here.
pub mod Linked
pub mod Notes
pub mod Guards
pub mod Executions
pub mod Examples
use rinklers.Prelude.{
  ℕ, ◌++◌, Option, none, some, List, [], ◌∷◌, Bool, true, false, if◌then◌else◌, Outcome, done,
  panicked, ◌>>=◌, get_elem?, set,
}
use rinklers.Util.WaitPeriod.{WaitPeriod, wait}
use rinklers.Schedule.Chrono.{Calendar}
use rinklers.Schedule.{Schedule}
use rinklers.ScheduleRunner.{
  RunnerData, new_data, schedule, update_schedule, update_data, guard_stop, drop, Round, round,
}

-- what is at a place of a table, if there is still something
abbrev pub slot {ℓ} : {A : Type ℓ} → List (Option A) → ℕ → Option A
slot xs i = elim (get_elem? xs i) [ none ↦ none | some x ↦ x ]

module _ (c : Calendar) (D : Type 0) where
  open c use {DateTime}

  pub record System : Type 0 where
    pub state : RunnerData c D
    pub period : WaitPeriod
    pub returned : Bool
    -- the index of each guard that has been handed out, or none once it has been stopped
    pub guards : List (Option ℕ)

  pub data Event : Type 0 where
    scheduled : Schedule c → D → (now : DateTime) → Event
    data_updated : (guard : ℕ) → D → Event
    schedule_updated : (guard : ℕ) → Schedule c → (now : DateTime) → Event
    guard_stopped : (guard : ℕ) → Event
    dropped : Event
    -- a round, with the readings of the clock
    woken : (now later : ℕ → DateTime) → Event

  abbrev pub start : System
  start = record { state = new_data c D; period = wait; returned = false; guards = [] }

  abbrev pub on_guard : System → ℕ → (ℕ → Outcome System) → Outcome System
  on_guard s guard f = elim (slot s.guards guard) [ none ↦ done s | some index ↦ f index ]

  abbrev after_round : System → Round c D → System
  after_round s r = record s { state = r.state; period = r.wait_period; returned = r.returned }

  unfoldable pub handle : System → Event → Outcome System
  handle s (scheduled sched item now) = do
    (index, d) ← schedule c D s.state sched item now
    done (record s { state = d; guards = s.guards ++ some index ∷ [] })
  handle s (data_updated guard item) =
      on_guard s guard
        (λ index. do (_, d) ← update_data c D s.state index item; done (record s { state = d }))
  handle s (schedule_updated guard sched now) = on_guard s guard (λ index. do
    (_, d) ← update_schedule c D s.state index sched now
    done (record s { state = d }))
  handle s (guard_stopped guard) = on_guard s guard (λ index. do
    (_, d) ← guard_stop c D s.state index
    done (record s { state = d; guards = set s.guards guard none }))
  handle s dropped = done (record s { state = drop c D s.state })
  handle s (woken now later) =
      done (if s.returned then s else after_round s (round c D now later s.state s.period))

  unfoldable pub run : System → List Event → Outcome System
  unfolding handle
  run s [] = done s
  run s (e ∷ es) = do s' ← handle s e; run s' es
