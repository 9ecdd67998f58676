-- ===== src/ScheduleRunner/Operations.antt =====
-- The calls of a guard and of the runner's handle.
use rinklers.Prelude.{
  ℕ, ◌≡◌, refl, ◌∙◌, Option, none, some, Outcome, done, ◌>>=◌, arith, if◌then◌else◌, ◌==◌,
}
use rinklers.Schedule.Chrono.{Calendar}
use rinklers.Schedule.{Schedule}
use rinklers.IndexMap.Invariant.{view, IsValid, insert-Inserted}
use rinklers.IndexMap.Removal.{remove-Removed}
use rinklers.IndexMap.Access.{index-view, index_mut-Written, view-inside}
use rinklers.ScheduleRunner.{
  SchedRun, RunnerData, new_run, replace_schedule, schedule, update_schedule, update_data,
  guard_stop,
}

module _ (c : Calendar) (D : Type 0) where
  open c use {DateTime}

  -- `d'` is `d` with the item `r` at the index `i`, or with none there.
  pub record Has (d : RunnerData c D) (i : ℕ) (r : Option (SchedRun c D)) (d' : RunnerData c D)
      : Type 0 where
    pub valid : IsValid d'.runs
    pub same_quit : d'.quit ≡ d.quit
    pub held : (j : ℕ) → view d'.runs j ≡ (if i == j then r else view d.runs j)

  pub schedule-Has :
      (d : RunnerData c D) (s : Schedule c) (item : D) (now : DateTime)
      → IsValid d.runs
      → (i : ℕ) × (d' : RunnerData c D) × (schedule c D d s item now ≡ done (i, d'))
        × (view d.runs i ≡ none)
        × Has d i (some (new_run c D s item now)) d'
  unfolding schedule
  schedule-Has d s item now v =
      let (i, m, e, ins) = insert-Inserted d.runs (new_run c D s item now) v in
      (
        i,
        record d { runs = m },
        rw e,
        ins.fresh,
        record { valid = ins.valid; same_quit = refl; held = ins.held },
      )

  pub update_data-Has :
      (d : RunnerData c D) (i : ℕ) (r : SchedRun c D) (new_item : D)
      → IsValid d.runs
      → view d.runs i ≡ some r
      → (d' : RunnerData c D) × (update_data c D d i new_item ≡ done (r.item, d'))
        × Has d i (some (record r { item = new_item })) d'
  unfolding update_data
  update_data-Has d i r new_item v h =
      let (m, e, wr) = index_mut-Written d.runs i (λ x. record x { item = new_item }) r v h in
      (
        record d { runs = m },
        rw (index-view d.runs i, h, e),
        record { valid = wr.valid; same_quit = refl; held = wr.held },
      )

  pub update_schedule-Has :
      (d : RunnerData c D) (i : ℕ) (r : SchedRun c D) (s : Schedule c) (now : DateTime)
      → IsValid d.runs
      → view d.runs i ≡ some r
      → (d' : RunnerData c D) × (update_schedule c D d i s now ≡ done (r.sched, d'))
        × Has d i (some (replace_schedule c D r s now)) d'
  unfolding update_schedule
  update_schedule-Has d i r s now v h =
      let (m, e, wr) = index_mut-Written d.runs i (λ x. replace_schedule c D x s now) r v h in
      (
        record d { runs = m },
        rw (index-view d.runs i, h, e),
        record { valid = wr.valid; same_quit = refl; held = wr.held },
      )

  pub guard_stop-Has :
      (d : RunnerData c D) (i : ℕ) (r : SchedRun c D)
      → IsValid d.runs
      → view d.runs i ≡ some r
      → (d' : RunnerData c D) × (guard_stop c D d i ≡ done ((r.sched, r.item), d'))
        × Has d i none d'
  unfolding guard_stop
  guard_stop-Has d i r v h =
      let (m, e, rm, _) = remove-Removed d.runs i v (view-inside d.runs i r h) in
      (
        record d { runs = m },
        rw (e, h),
        record { valid = rm.valid; same_quit = refl; held = rm.gone },
      )

  -- The items after a write and a later write or removal at the same index.
  Has-Has :
      (d d' d'' : RunnerData c D) (i : ℕ) (r r' : Option (SchedRun c D))
      → Has d i r d'
      → Has d' i r' d''
      → Has d i r' d''
  Has-Has d d' d'' i r r' h k = record {
    valid = k.valid;
    same_quit = k.same_quit ∙ h.same_quit;
    held = λ j. ground (arith, h.held j, k.held j);
  }

  Has-self :
      (d d' : RunnerData c D) (i : ℕ) (r : Option (SchedRun c D))
      → Has d i r d'
      → view d'.runs i ≡ r
  Has-self d d' i r h = ground (arith, h.held i)

  -- The whole life of a guard: schedule an item, replace its data and its schedule, and stop it.
  abbrev pub guard_life :
      RunnerData c D
      → Schedule c
      → D
      → D
      → Schedule c
      → (t0 t1 : DateTime) → Outcome ((Schedule c × D) × RunnerData c D)
  guard_life d s item new_item new_schedule t0 t1 = do
    (i, d1) ← schedule c D d s item t0
    (_, d2) ← update_data c D d1 i new_item
    (_, d3) ← update_schedule c D d2 i new_schedule t1
    guard_stop c D d3 i

  -- None of the calls of a guard panics. The stop returns the schedule and the data last set, and the
  -- runner then holds the same items as before the item was scheduled.
  pub guard_life_lem :
      (d : RunnerData c D) (s : Schedule c) (item new_item : D) (new_schedule : Schedule c)
      (t0 t1 : DateTime)
      → IsValid d.runs
      → (d' : RunnerData c D) × (guard_life d s item new_item new_schedule t0 t1
          ≡ done ((new_schedule, new_item), d'))
        × IsValid d'.runs
        × (d'.quit ≡ d.quit)
        × ((j : ℕ) → view d'.runs j ≡ view d.runs j)
  unfolding replace_schedule
  guard_life_lem d s item new_item new_schedule t0 t1 v =
      let (i, d1, e1, fresh, h1) = schedule-Has d s item t0 v in
      let (d2, e2, h2) = update_data-Has d1 i _ new_item h1.valid (Has-self d d1 i _ h1) in
      let (d3, e3, h3) =
        update_schedule-Has d2 i _ new_schedule t1 h2.valid (Has-self d1 d2 i _ h2) in
      let (d4, e4, h4) = guard_stop-Has d3 i _ h3.valid (Has-self d2 d3 i _ h3) in
      let all =
        Has-Has d d1 d4 i _ _ h1 (Has-Has d1 d2 d4 i _ _ h2 (Has-Has d2 d3 d4 i _ _ h3 h4)) in
      (d4, rw (e1, e2, e3) e4, all.valid, all.same_quit, λ j. ground (arith, all.held j, fresh))
