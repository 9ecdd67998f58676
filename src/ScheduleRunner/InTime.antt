-- ===== src/ScheduleRunner/InTime.antt =====
-- src/schedule_runner.rs: the wait that the thread has chosen, for the items that the runner has while it waits.
use rinklers.Prelude.{
  ℕ, ◌+◌, ◌≡◌, ◌≢◌, refl, sym, ap, ◌∙◌, inl, inr, Option, none, some, List, [], ◌∷◌, false,
  Bool-cases, leb, subst,
}
use rinklers.Util.WaitPeriod.{WaitPeriod, wait, at_most, no_wait, Within}
use rinklers.Util.RunnerState.{waiting}
use rinklers.Util.RunnerState.Driven.{ThreadState, begin}
use rinklers.Util.RunnerState.Prompt.{PromptRuns, PromptRuns-waiting}
use rinklers.Schedule.Chrono.{Calendar}
use rinklers.IndexMap.{Entry, element, empty}
use rinklers.IndexMap.Invariant.{view}
use rinklers.ScheduleRunner.{SchedRun, RunnerData, visit_at, visit, visit_from, tend, round}
use rinklers.ScheduleRunner.Rounds.{WakesFor, round-WakesFor, visit_from-Within, round-tend}
use rinklers.ScheduleRunner.Threaded.{Call, Held, woken_at, schedule_thread}

no_wait-least : (w : WaitPeriod) → Within w no_wait → w ≡ no_wait
no_wait-least wait h = elim h [ ]
no_wait-least (at_most d) h = elim h [ ]
no_wait-least no_wait h = refl

module _ (c : Calendar) (D : Type 0) where
  open c use {DateTime, stamp}

  visit_at-kept :
      (now later : DateTime) (r : SchedRun c D) (w : WaitPeriod) (next : Option DateTime)
      → (visit_at c D now later r w next).wait_period ≢ no_wait
      → (visit_at c D now later r w next).run ≡ r
  unfolding visit_at
  visit_at-kept now later r w none h = refl
  visit_at-kept now later r w (some at) h = elim (Bool-cases (leb (stamp at) (stamp now))) [
    | inl due ↦ absurd (h (rw due refl))
    | inr ahead ↦ rw ahead refl
  ]

  -- A round that does not return the period `None` has found nothing due, and leaves the items as they are.
  visit_from-kept :
      (now later : ℕ → DateTime) (i : ℕ) (es : List (Entry (SchedRun c D))) (w : WaitPeriod)
      → (visit_from c D now later i es w).wait_period ≢ no_wait
      → (visit_from c D now later i es w).entries ≡ es
  unfolding visit_from visit
  visit_from-kept now later i [] w h = refl
  visit_from-kept now later i (empty n ∷ es) w h =
      ap (◌∷◌ (empty n)) (visit_from-kept now later (i + 1) es w h)
  visit_from-kept now later i (element r ∷ es) w h =
      let v = visit c D (now i) (later i) r w in
      let not_yet : v.wait_period ≢ no_wait = λ e. h (
        no_wait-least _ (
          subst (λ x. Within (visit_from c D now later (i + 1) es v.wait_period).wait_period x) e
            (visit_from-Within c D now later (i + 1) es v.wait_period).0)) in
      let first = visit_at-kept (now i) (later i) r w r.next_run not_yet in
      rw (first, visit_from-kept now later (i + 1) es v.wait_period h) refl

  -- The wait ends, for each item of the runner, by its next run, as of the last reading of the clock; before
  -- the first round there is no item.
  abbrev pub InTime : Held c D → WaitPeriod → Type 0
  InTime s w =
      (j : ℕ) (run : SchedRun c D)
      → view s.sys.state.runs j ≡ some run
      → (now : ℕ → DateTime) × (s.last ≡ some now) × WakesFor c D w (now j) run

  round-kept :
      (now later : ℕ → DateTime) (d : RunnerData c D) (w : WaitPeriod) (j : ℕ)
      → d.quit ≡ false
      → (round c D now later d w).wait_period ≢ no_wait
      → view (round c D now later d w).state.runs j ≡ view d.runs j
  unfolding tend
  round-kept now later d w j on h =
      let busy : (visit_from c D now later 0 d.runs.entries wait).wait_period ≢ no_wait =
        λ e. h (rw (round-tend c D now later d w on) e) in
      rw (round-tend c D now later d w on, visit_from-kept now later 0 d.runs.entries wait busy)
        refl

  round-returned :
      (now later : ℕ → DateTime) (d : RunnerData c D) (w : WaitPeriod)
      → (round c D now later d w).returned ≡ false
      → d.quit ≡ false
  unfolding round
  round-returned now later d w h = elim (Bool-cases d.quit) [
    | inl off ↦ absurd (cc (rw off at h))
    | inr on ↦ on
  ]

  woken-InTime :
      (o : (ℕ → DateTime) × (ℕ → DateTime)) (s : Held c D) (w : WaitPeriod)
      → (woken_at c D o s w).sys.returned ≡ false
      → let s' = woken_at c D o s w in s'.sys.period ≢ no_wait → InTime s' s'.sys.period
  woken-InTime (now, later) s w on h j run e =
      let running = round-returned now later s.sys.state w on in
      (
        now,
        refl,
        round-WakesFor c D now later s.sys.state w j run running
            (sym (round-kept now later s.sys.state w j running h) ∙ e),
      )

  -- If no call falls between a round, or the start of the thread, and the wait that follows, the thread never
  -- oversleeps: while it waits, the wait ends by the next run of every item on the runner, counted from the
  -- clock as the last round has read it.
  pub waits-InTime :
      (readings : ℕ → (ℕ → DateTime) × (ℕ → DateTime)) (cs : List (Call c D))
      (t : ThreadState (schedule_thread c D)) (w : WaitPeriod)
      → PromptRuns (schedule_thread c D) (begin (schedule_thread c D) readings) cs t
      → t.phase ≡ waiting w
      → w ≢ no_wait
      → InTime t.content.sys w
  waits-InTime readings cs t w =
      PromptRuns-waiting (schedule_thread c D) (λ s x. x ≢ no_wait → InTime s x) woken-InTime
        (λ h j run e. cc e) readings cs t w
