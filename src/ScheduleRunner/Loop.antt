-- ===== src/ScheduleRunner/Loop.antt =====
-- The loop of `run` as the source writes it, `for (_, run) in &mut data_lock.runs`, with its executor.
use rinklers.Prelude.{
  ℕ, ◌+◌, ◌-◌, ◌≡◌, ◌≤◌, refl, sym, ap, ◌∙◌, inl, inr, Option, none, some, List, [], ◌∷◌, length,
  leb, if◌then◌else◌, Bool-cases,
}
use rinklers.Util.WaitPeriod.{WaitPeriod, wait, at_most, no_wait, min}
use rinklers.Schedule.Chrono.{Calendar}
use rinklers.IndexMap.{Entry, element, empty}
use rinklers.IndexMap.Iterators.{iter_mut, for_mut}
use rinklers.IndexMap.Loops.{visit_entries, for_mut-iter_mut}
use rinklers.ScheduleRunner.{
  SchedRun, RunnerData, update_next_run, visit_at, visit, visit_from, tend,
}
use rinklers.ScheduleRunner.Executor.{Executor, execute_each, execute_each-append}

module _ (c : Calendar) (D W : Type 0) (ex : Executor D W) (now later : ℕ → c.DateTime) where
  open c use {DateTime, stamp}

  abbrev body_at :
      ℕ → SchedRun c D → WaitPeriod → W → Option DateTime → SchedRun c D × (WaitPeriod × W)
  body_at i r w world none = (r, (w, world))
  body_at i r w world (some at) =
      if leb (stamp at) (stamp (now i))
      then (update_next_run c D r (later i), (no_wait, ex.execute r.item world))
      else (r, (min w (at_most (stamp at - stamp (now i))), world))

  -- the body of the loop, on an item, the wait period, and what the executor changes
  abbrev pub loop_body : ℕ → SchedRun c D → WaitPeriod × W → SchedRun c D × (WaitPeriod × W)
  loop_body i r (w, world) = body_at i r w world r.next_run

  body_at-visit_at :
      (i : ℕ) (r : SchedRun c D) (w : WaitPeriod) (world : W) (next : Option DateTime)
      → let v = visit_at c D (now i) (later i) r w next in
        body_at i r w world next ≡ (v.run, (v.wait_period, execute_each ex v.executed world))
  unfolding visit_at
  body_at-visit_at i r w world none = refl
  body_at-visit_at i r w world (some at) = elim (Bool-cases (leb (stamp at) (stamp (now i)))) [
    | inl past ↦ rw past refl
    | inr ahead ↦ rw ahead refl
  ]

  visit_entries-visit_from :
      (i : ℕ) (es : List (Entry (SchedRun c D))) (w : WaitPeriod) (world : W)
      → let v = visit_from c D now later i es w in
        visit_entries loop_body i es (w, world)
        ≡ (v.entries, (v.wait_period, execute_each ex v.executed world))
  unfolding visit_from visit
  visit_entries-visit_from i [] w world = refl
  visit_entries-visit_from i (empty n ∷ es) w world =
      ap (λ r. (empty n ∷ r.0, r.1)) (visit_entries-visit_from (i + 1) es w world)
  visit_entries-visit_from i (element r ∷ es) w world =
      let v = visit c D (now i) (later i) r w in
      let rest = visit_from c D now later (i + 1) es v.wait_period in
      ap (λ x. let y = visit_entries loop_body (i + 1) es x.1 in (element x.0 ∷ y.0, y.1))
        (body_at-visit_at i r w world r.next_run)
      ∙ ap (λ x. (element v.run ∷ x.0, x.1))
          (visit_entries-visit_from (i + 1) es v.wait_period (execute_each ex v.executed world))
      ∙ ap (λ l. (element v.run ∷ rest.entries, (rest.wait_period, l)))
          (sym (execute_each-append ex v.executed rest.executed world))

  -- The loop over the map with `IterMut` and any executor, as the source writes it, does what a
  -- round of the model does: with at least as many calls of `next` as there are entries it leaves
  -- the same map and the same wait period, and the executor has executed, in order, the items that
  -- the round lists.
  pub for_mut-tend :
      (calls : ℕ) (d : RunnerData c D) (world : W)
      → length d.runs.entries ≤ calls
      → let r = tend c D now later d in
        for_mut loop_body calls (iter_mut d.runs) (wait, world)
        ≡ (r.state.runs, (r.wait_period, execute_each ex r.executed world))
  unfolding tend
  for_mut-tend calls d world h =
      for_mut-iter_mut loop_body calls d.runs (wait, world) h
      ∙ ap (λ x. (record (d.runs) { entries = x.0 }, x.1))
          (visit_entries-visit_from 0 d.runs.entries wait world)
