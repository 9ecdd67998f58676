-- ===== src/ScheduleRunner/Items.antt =====
-- What holds of all items of the runner holds of all that a round executes.
use rinklers.Prelude.{
  ℕ, ◌+◌, inl, inr, List, [], ◌∷◌, ◌++◌, Bool-cases, All, Option, none, some, leb,
}
use rinklers.Util.WaitPeriod.{WaitPeriod, wait}
use rinklers.Schedule.Chrono.{Calendar}
use rinklers.IndexMap.{Entry, element, empty}
use rinklers.ScheduleRunner.{
  SchedRun, RunnerData, update_next_run, visit_at, visit, visit_from, tend, round,
}

pub All-append {ℓ κ} :
    {A : Type ℓ} (P : A → Type κ) (xs ys : List A) → All P xs → All P ys → All P (xs ++ ys)
All-append P [] ys hx hy = hy
All-append P (x ∷ xs) ys hx hy = (hx.0, All-append P xs ys hx.1 hy)

-- Each item of the entries satisfies the predicate.
abbrev pub AllItems :
    {c : Calendar} {D : Type 0} → (D → Type 0) → List (Entry (SchedRun c D)) → Type 0
AllItems P [] = Unit
AllItems P (element r ∷ es) = P r.item × AllItems P es
AllItems P (empty n ∷ es) = AllItems P es

module _ (c : Calendar) (D : Type 0) (P : D → Type 0) where
  visit_at-item :
      (now later : c.DateTime) (r : SchedRun c D) (w : WaitPeriod) (next : Option c.DateTime)
      → P r.item
      → let v = visit_at c D now later r w next in P v.run.item × All P v.executed
  unfolding visit_at update_next_run
  visit_at-item now later r w none h = (h, tt)
  visit_at-item now later r w (some at) h = elim (Bool-cases (leb (c.stamp at) (c.stamp now))) [
    | inl past ↦ rw past (h, (h, tt))
    | inr ahead ↦ rw ahead (h, tt)
  ]

  visit-item :
      (now later : c.DateTime) (r : SchedRun c D) (w : WaitPeriod)
      → P r.item
      → let v = visit c D now later r w in P v.run.item × All P v.executed
  unfolding visit
  visit-item now later r w h = visit_at-item now later r w r.next_run h

  visit_from-AllItems :
      (now later : ℕ → c.DateTime) (i : ℕ) (es : List (Entry (SchedRun c D))) (w : WaitPeriod)
      → AllItems P es
      → let v = visit_from c D now later i es w in AllItems P v.entries × All P v.executed
  unfolding visit_from
  visit_from-AllItems now later i [] w h = (tt, tt)
  visit_from-AllItems now later i (empty n ∷ es) w h = visit_from-AllItems now later (i + 1) es w h
  visit_from-AllItems now later i (element r ∷ es) w (h, hs) =
      let v = visit c D (now i) (later i) r w in
      let (item, executed) = visit-item (now i) (later i) r w h in
      let (items, others) = visit_from-AllItems now later (i + 1) es v.wait_period hs in
      ((item, items), All-append P v.executed _ executed others)

  pub round-AllItems :
      (now later : ℕ → c.DateTime) (d : RunnerData c D) (w : WaitPeriod)
      → AllItems P d.runs.entries
      → let r = round c D now later d w in AllItems P r.state.runs.entries × All P r.executed
  unfolding round tend
  round-AllItems now later d w h = elim (Bool-cases d.quit) [
    | inl off ↦ rw (round, off) (h, tt)
    | inr on ↦ rw (round, on) (visit_from-AllItems now later 0 d.runs.entries wait h)
  ]
