-- ===== src/ScheduleRunner.antt =====
-- src/schedule_runner.rs, without its module `index_map`. The executor's data is the type `D`; that it
-- executes an item is recorded. The clock is read anew for each item, so its readings are arguments;
-- a `DateTime` less another is a number of the units of `stamp`. `trace!` and `debug!` are left out.
pub mod Examples
pub mod Executor
pub mod Items
pub mod Loop
pub mod Operations
pub mod System
pub mod Threaded
pub mod ThreadedExamples
pub mod InTime
pub mod Waits
pub mod Rounds
use rinklers.Prelude.{
  ℕ, ◌+◌, ◌-◌, Option, none, some, List, [], ◌∷◌, ◌++◌, Bool, true, false, leb, if◌then◌else◌,
  Outcome, done, panicked, ◌>>=◌,
}
use rinklers.Util.WaitPeriod.{WaitPeriod, wait, at_most, no_wait, min}
use rinklers.Schedule.Chrono.{Calendar}
use rinklers.Schedule
use rinklers.Schedule.{Schedule}
use rinklers.IndexMap
use rinklers.IndexMap.{IndexMap, Entry, element, empty}

module _ (c : Calendar) (D : Type 0) where
  open c use {DateTime, stamp}

  pub record SchedRun : Type 0 where
    pub sched : Schedule c
    pub item : D
    pub next_run : Option DateTime

  -- `update_next_run`
  unfoldable pub update_next_run : SchedRun → (now : DateTime) → SchedRun
  update_next_run r now = record r { next_run = Schedule.next_run c r.sched now }

  -- `SchedRun::new`
  unfoldable pub new_run : Schedule c → D → (now : DateTime) → SchedRun
  unfolding update_next_run
  new_run sched item now =
      update_next_run (record { sched = sched; item = item; next_run = none }) now

  -- `SchedRun::update_schedule`; the old schedule is that of the argument
  unfoldable pub replace_schedule : SchedRun → Schedule c → (now : DateTime) → SchedRun
  unfolding update_next_run
  replace_schedule r new_schedule now = update_next_run (record r { sched = new_schedule }) now

  pub record RunnerData : Type 0 where
    pub quit : Bool
    pub runs : IndexMap SchedRun

  abbrev pub new_data : RunnerData
  new_data = record { quit = false; runs = IndexMap.new }

  -- `ScheduleRunner::schedule`: the index goes into the guard
  unfoldable pub schedule :
      RunnerData → Schedule c → D → (now : DateTime) → Outcome (ℕ × RunnerData)
  schedule d sched item now = do
    (idx, runs) ← IndexMap.insert d.runs (new_run sched item now)
    done (idx, record d { runs = runs })

  unfoldable pub remove : RunnerData → ℕ → Outcome (Option SchedRun × RunnerData)
  remove d idx = do (run, runs) ← IndexMap.remove d.runs idx; done (run, record d { runs = runs })

  unfoldable pub update_schedule :
      RunnerData → ℕ → Schedule c → (now : DateTime) → Outcome (Schedule c × RunnerData)
  update_schedule d idx new_schedule now = do
    old ← IndexMap.index d.runs idx
    runs ← IndexMap.index_mut d.runs idx (λ r. replace_schedule r new_schedule now)
    done (old.sched, record d { runs = runs })

  unfoldable pub update_data : RunnerData → ℕ → D → Outcome (D × RunnerData)
  update_data d idx new_item = do
    old ← IndexMap.index d.runs idx
    runs ← IndexMap.index_mut d.runs idx (λ r. record r { item = new_item })
    done (old.item, record d { runs = runs })

  abbrev expect : Option SchedRun × RunnerData → Outcome ((Schedule c × D) × RunnerData)
  expect (none, d) = panicked
  expect (some run, d) = done ((run.sched, run.item), d)

  -- `ScheduleGuard::stop`
  unfoldable pub guard_stop : RunnerData → ℕ → Outcome ((Schedule c × D) × RunnerData)
  unfolding remove
  guard_stop d idx = remove d idx >>= expect

  -- `Drop::drop`, before the join
  unfoldable pub drop : RunnerData → RunnerData
  drop d = record d { quit = true }

  -- `ScheduleRunner::stop`
  abbrev pub stop : RunnerData → RunnerData
  stop d = drop d

  -- whether the item's time has come at `now`
  abbrev pub is_due : DateTime → SchedRun → Bool
  is_due now r = elim r.next_run [ none ↦ false | some at ↦ leb (stamp at) (stamp now) ]

  pub record Visit : Type 0 where
    pub run : SchedRun
    pub wait_period : WaitPeriod
    pub executed : List D

  -- The body of the loop in `run`, with the item's next run: `now` is read by `till_run`, `later` by
  -- `update_next_run`.
  visit_at : (now later : DateTime) → SchedRun → WaitPeriod → Option DateTime → Visit
  unfolding update_next_run
  visit_at now later r w none = record { run = r; wait_period = w; executed = [] }
  visit_at now later r w (some at) =
      if leb (stamp at) (stamp now)
      then record { run = update_next_run r later; wait_period = no_wait; executed = r.item ∷ [] }
      else record { run = r; wait_period = min w (at_most (stamp at - stamp now)); executed = [] }

  unfoldable pub visit : (now later : DateTime) → SchedRun → WaitPeriod → Visit
  unfolding visit_at
  visit now later r w = visit_at now later r w r.next_run

  pub record Visited : Type 0 where
    pub entries : List (Entry SchedRun)
    pub wait_period : WaitPeriod
    pub executed : List D

  -- the loop over the map, from the index `i` on; the readings of the clock go by the index
  unfoldable pub visit_from :
      (now later : ℕ → DateTime) → ℕ → List (Entry SchedRun) → WaitPeriod → Visited
  visit_from now later i [] w = record { entries = []; wait_period = w; executed = [] }
  visit_from now later i (empty n ∷ es) w =
      let rest = visit_from now later (i + 1) es w in
      record rest { entries = empty n ∷ rest.entries }
  visit_from now later i (element r ∷ es) w =
      let v = visit (now i) (later i) r w in
      let rest = visit_from now later (i + 1) es v.wait_period in
      record {
        entries = element v.run ∷ rest.entries;
        wait_period = rest.wait_period;
        executed = v.executed ++ rest.executed;
      }

  pub record Round : Type 0 where
    pub state : RunnerData
    pub wait_period : WaitPeriod
    pub executed : List D
    pub returned : Bool

  -- the rest of the body if the runner is not to quit
  unfoldable pub tend : (now later : ℕ → DateTime) → RunnerData → Round
  unfolding visit_from
  tend now later d =
      let v = visit_from now later 0 d.runs.entries wait in
      record {
        state = record d { runs = record (d.runs) { entries = v.entries } };
        wait_period = v.wait_period;
        executed = v.executed;
        returned = false;
      }

  -- one round of the loop in `run`, from the return of `wait_update_for_period` on
  unfoldable pub round : (now later : ℕ → DateTime) → RunnerData → WaitPeriod → Round
  unfolding tend
  round now later d w =
      if d.quit
      then record { state = d; wait_period = w; executed = []; returned = true }
      else tend now later d
