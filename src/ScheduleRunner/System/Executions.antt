-- ===== src/ScheduleRunner/System/Executions.antt =====
-- What the thread executes, over any run of the system.
use rinklers.Prelude.{
  ℕ, zero, suc, ◌+◌, ◌≡◌, refl, ap, ◌∙◌, inl, inr, Option, some, List, [], ◌∷◌, true, false,
  Bool-cases, done, get_elem?, arith, subst,
}
use rinklers.Schedule.Chrono.{Calendar}
use rinklers.Schedule.{Schedule}
use rinklers.IndexMap.{Entry, element, empty}
use rinklers.IndexMap.Invariant.{element?}
use rinklers.IndexMap.Iteration.{present}
use rinklers.ScheduleRunner.{SchedRun, is_due, round}
use rinklers.ScheduleRunner.Rounds.{due, executed-due}
use rinklers.ScheduleRunner.System.{slot, System, Event, start, run}
use rinklers.ScheduleRunner.System.Guards.{run-Serves}
use rinklers.ScheduleRunner.System.Notes.{notes, Serves}

module _ (c : Calendar) (D : Type 0) where
  -- What is due is in the list.
  due-present :
      (now : ℕ → c.DateTime) (i : ℕ) (es : List (Entry (SchedRun c D))) (k : ℕ) (x : D)
      → get_elem? (due c D now (present i es)) k ≡ some x
      → (j : ℕ) × (r : SchedRun c D) × (element? (get_elem? es j) ≡ some r)
        × (r.item ≡ x)
        × (is_due c D (now (i + j)) r ≡ true)
  due-present now i [] k x h = cc h
  due-present now i (empty n ∷ es) k x h =
      let (j, r, at, item, time) = due-present now (i + 1) es k x h in
      let next : i + suc j ≡ i + 1 + j = omega arith in (suc j, r, at, item, rw next time)
  due-present now i (element r ∷ es) k x h = elim (Bool-cases (is_due c D (now i) r)) [
    | inl in_time ↦ first k (rw in_time at h) in_time (λ k'. due-present now (i + 1) es k' x)
    | inr ahead ↦ later k (rw ahead at h) (λ k'. due-present now (i + 1) es k' x)
  ]
    where
      Found : ℕ → List (Entry (SchedRun c D)) → Type 0
      Found i0 l =
          (j : ℕ) × (r0 : SchedRun c D) × (element? (get_elem? l j) ≡ some r0)
          × (r0.item ≡ x)
          × (is_due c D (now (i0 + j)) r0 ≡ true)

      further : Found (i + 1) es → Found i (element r ∷ es)
      further (j, r0, at, item, time) =
          let next : i + suc j ≡ i + 1 + j = omega arith in (suc j, r0, at, item, rw next time)

      later :
          (k' : ℕ)
          → get_elem? (due c D now (present (i + 1) es)) k' ≡ some x
          → ((k0 : ℕ) → get_elem? (due c D now (present (i + 1) es)) k0 ≡ some x → Found (i + 1) es)
          → Found i (element r ∷ es)
      later k' h' rest = further (rest k' h')

      first :
          (k' : ℕ)
          → get_elem? (r.item ∷ due c D now (present (i + 1) es)) k' ≡ some x
          → is_due c D (now i) r ≡ true
          → ((k0 : ℕ) → get_elem? (due c D now (present (i + 1) es)) k0 ≡ some x → Found (i + 1) es)
          → Found i (element r ∷ es)
      first zero h' in_time rest =
          let here : i + 0 ≡ i = omega arith in (0, r, refl, ground (arith, h'), rw here in_time)
      first (suc k') h' in_time rest = further (rest k' h')

  executed-Serves :
      (s : System c D) (t : List (Option (Schedule c × D))) (now later : ℕ → c.DateTime) (k : ℕ)
      (x : D)
      → Serves c D s t
      → s.state.quit ≡ false
      → get_elem? (round c D now later s.state s.period).executed k ≡ some x
      → (g : ℕ) × (sched : Schedule c) × (slot t g ≡ some (sched, x))
  executed-Serves s t now later k x v on h =
      let listed = rw (executed-due c D now later s.state s.period on) at h in
      let (j, r, at, item, _) = due-present now 0 s.state.runs.entries k x listed in
      let (g, held) = v.links.covered j r at in
      let (r', there, told) = v.links.linked g j held in
      let one : r' ≡ r = ground (arith, there, at) in
      (g, r'.sched, told ∙ ap (λ i. some (r'.sched, i)) (ap (λ y. y.item) one ∙ item))

  -- Whatever a round of the thread executes, after any events that have not told the runner to quit,
  -- is the data last given for a guard that has not been stopped.
  pub executed-asked :
      (es : List (Event c D)) (s : System c D) (now later : ℕ → c.DateTime) (k : ℕ) (x : D)
      → run c D (start c D) es ≡ done s
      → s.state.quit ≡ false
      → get_elem? (round c D now later s.state s.period).executed k ≡ some x
      → (g : ℕ) × (sched : Schedule c) × (slot (notes c D [] es) g ≡ some (sched, x))
  executed-asked es s now later k x ran on h =
      let (s', ran', v) = run-Serves c D es in
      let same : s' ≡ s = cc (ran, ran') in
      executed-Serves s (notes c D [] es) now later k x
        (subst (λ y. Serves c D y (notes c D [] es)) same v) on h
