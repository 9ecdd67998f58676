-- ===== src/ScheduleRunner/Examples.antt =====
-- A runner with two items in a concrete calendar; the data of an item is a number.
use rinklers.Prelude.{
  ℕ, suc, zero, ◌≡◌, ◌⊎◌, refl, none, some, Option, contains, List, [], ◌∷◌, false, true, done,
  arith,
}
use rinklers.Util.WaitPeriod.{wait, at_most, min}
use rinklers.IndexMap.{element, empty, iter, collect}
use rinklers.IndexMap.Invariant.{view, link, IsValid}
use rinklers.Schedule.Plain.{plain}
use rinklers.Schedule.Examples.{wednesdays}
use rinklers.ScheduleRunner.{SchedRun, RunnerData, tend, round, visit}
use rinklers.ScheduleRunner.Rounds.{due, visited, WakesFor, round-executed, round-WakesFor}
use rinklers.ScheduleRunner.Executor.{Executor, execute_each}
use rinklers.ScheduleRunner.Loop.{loop_body, for_mut-tend}
use rinklers.ScheduleRunner.Waits.{AccountsFor, round-AccountsFor}
use rinklers.IndexMap.Iterators.{iter_mut, for_mut}
use rinklers.ScheduleRunner.Operations.{guard_life, guard_life_lem}

-- one item due at 3510, a free index, and one item due in the next week
abbrev two_items : RunnerData plain ℕ
two_items = record {
  quit = false;
  runs = record {
    entries =
        element (record { sched = wednesdays; item = 71; next_run = some 3510 })
        ∷ empty none
        ∷ element (record { sched = wednesdays; item = 72; next_run = some 13590 })
        ∷ [];
    next_empty = some 1;
  };
}

two_items-IsValid : IsValid two_items.runs
two_items-IsValid = record {
  free = 1 ∷ [];
  chain = (refl, none, refl, refl);
  distinct = (refl, tt);
  covers = two_items_covers;
}
  where
    two_items_covers :
        (i : ℕ) (n : Option ℕ) → link two_items.runs.entries i ≡ some n → contains i (1 ∷ []) ≡ true
    two_items_covers zero n h = ground arith
    two_items_covers (suc zero) n h = ground arith
    two_items_covers (suc (suc zero)) n h = ground arith
    two_items_covers (suc (suc (suc i))) n h = ground arith

round-executed_example :
    let r = round plain ℕ (λ i. 3511) (λ i. 3512) two_items wait in
    (r.executed ≡ due plain ℕ (λ i. 3511) (collect 3 (iter two_items.runs)))
    × ((j : ℕ) → view r.state.runs j ≡ visited plain ℕ 3511 3512 (view two_items.runs j))
    × IsValid r.state.runs
round-executed_example =
    round-executed plain ℕ (λ i. 3511) (λ i. 3512) two_items wait refl two_items-IsValid

round_wakes :
    WakesFor plain ℕ
      (round plain ℕ (λ i. 3500) (λ i. 3501) two_items wait).wait_period
      3500
      (record { sched = wednesdays; item = 71; next_run = some 3510 })
round_wakes = round-WakesFor plain ℕ (λ i. 3500) (λ i. 3501) two_items wait 0 _ refl refl

-- The first item runs, and the thread sleeps until it is due again.
first_item_runs :
    ((round plain ℕ (λ i. 3511) (λ i. 3512) two_items wait).executed ≡ 71 ∷ [])
    × ((round plain ℕ (λ i. 3500) (λ i. 3501) two_items wait).wait_period ≡ at_most 10)
unfolding round visit min
first_item_runs = (refl, refl)

one_guard_life :
    (d : RunnerData plain ℕ) × (guard_life plain ℕ two_items wednesdays 73 74 wednesdays 3000 3100
      ≡ done ((wednesdays, 74), d))
    × IsValid d.runs
    × (d.quit ≡ false)
    × ((j : ℕ) → view d.runs j ≡ view two_items.runs j)
one_guard_life =
    guard_life_lem plain ℕ two_items wednesdays 73 74 wednesdays 3000 3100 two_items-IsValid

-- an executor that notes the items
abbrev noting : Executor ℕ (List ℕ)
noting = record { execute = λ x xs. x ∷ xs }

for_mut-tend_example :
    let r = tend plain ℕ (λ i. 3511) (λ i. 3512) two_items in
    for_mut
      (loop_body plain ℕ (List ℕ) noting (λ i. 3511) (λ i. 3512))
      3
      (iter_mut two_items.runs)
      (wait, 70 ∷ [])
    ≡ (r.state.runs, (r.wait_period, execute_each noting r.executed (70 ∷ [])))
for_mut-tend_example =
    for_mut-tend plain ℕ (List ℕ) noting (λ i. 3511) (λ i. 3512) 3 two_items (70 ∷ []) (omega arith)

round_accounted :
    let w = (round plain ℕ (λ i. 3500) (λ i. 3501) two_items wait).wait_period in
    (w ≡ wait)
    ⊎ ((j : ℕ) × (r : SchedRun plain ℕ) × (view two_items.runs j ≡ some r)
        × AccountsFor plain ℕ w 3500 r)
round_accounted = round-AccountsFor plain ℕ (λ i. 3500) (λ i. 3501) two_items wait refl
