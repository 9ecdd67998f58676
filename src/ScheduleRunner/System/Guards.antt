-- ===== src/ScheduleRunner/System/Guards.antt =====
-- What the guards promise, over any run of the system.
use rinklers.Prelude.{
  ℕ, ◌≡◌, refl, ◌∙◌, inl, inr, Option, none, some, List, [], ◌∷◌, ◌++◌, Bool, true, false,
  if◌then◌else◌, Bool-cases, Outcome, done, set, arith,
}
use rinklers.Schedule.Chrono.{Calendar}
use rinklers.Schedule.{Schedule}
use rinklers.IndexMap.Invariant.{view}
use rinklers.ScheduleRunner.{
  SchedRun, new_run, replace_schedule, update_next_run, is_due, drop, round,
}
use rinklers.ScheduleRunner.Rounds.{visited, round-executed}
use rinklers.ScheduleRunner.Operations.{
  schedule-Has, update_data-Has, update_schedule-Has, guard_stop-Has,
}
use rinklers.ScheduleRunner.System.{
  slot, System, Event, scheduled, data_updated, schedule_updated, guard_stopped, dropped, woken,
  start, handle, run, on_guard,
}
use rinklers.ScheduleRunner.System.Linked.{settings, Linked-visited}
use rinklers.ScheduleRunner.System.Notes.{
  change, note, notes, Serves, Serves-put, Serves-remove, Serves-push,
}

module _ (c : Calendar) (D : Type 0) where
  visited-some :
      (now later : c.DateTime) (o : Option (SchedRun c D))
      → visited c D now later o ≡ elim o [
        | none ↦ none
        | some r ↦ some (if is_due c D now r then update_next_run c D r later else r)
      ]
  visited-some now later none = refl
  visited-some now later (some r) = refl

  visited-settings :
      (now later : c.DateTime) (r : SchedRun c D)
      → settings c D (if is_due c D now r then update_next_run c D r later else r) ≡ settings c D r
  unfolding update_next_run
  visited-settings now later r = elim (Bool-cases (is_due c D now r)) [
    | inl due ↦ rw due refl
    | inr ahead ↦ rw ahead refl
  ]

  Serves-round :
      (s : System c D) (t : List (Option (Schedule c × D))) (now later : ℕ → c.DateTime)
      → s.state.quit ≡ false
      → Serves c D s t
      → let r = round c D now later s.state s.period in
        Serves c D (record s { state = r.state; period = r.wait_period; returned = r.returned }) t
  Serves-round s t now later on v =
      let (_, at, valid) = round-executed c D now later s.state s.period on v.valid in
      record {
        valid = valid;
        same_length = v.same_length;
        links =
            Linked-visited c D _ _ _ v.links _ (slot s.guards) (slot t)
              (λ j r. if is_due c D (now j) r then update_next_run c D r (later j) else r)
              (λ j r. visited-settings (now j) (later j) r)
              (λ j. at j ∙ visited-some (now j) (later j) (view s.state.runs j));
      }

  -- An event on a guard: nothing if it has been stopped.
  on_guard-Serves :
      (s : System c D) (t : List (Option (Schedule c × D))) (g : ℕ)
      (body : ℕ → Outcome (System c D)) (f : Schedule c × D → Option (Schedule c × D))
      → Serves c D s t
      → ((i : ℕ) (r : SchedRun c D)
          → slot s.guards g ≡ some i
          → view s.state.runs i ≡ some r
          → slot t g ≡ some (settings c D r)
          → (s' : System c D) × (body i ≡ done s') × Serves c D s' (set t g (f (settings c D r))))
      → (s' : System c D) × (on_guard c D s g body ≡ done s') × Serves c D s' (change c D t g f)
  on_guard-Serves s t g body f v each = by_slots (slot s.guards g) (slot t g) refl refl
    where
      by_slots :
          (o : Option ℕ) (p : Option (Schedule c × D))
          → slot s.guards g ≡ o
          → slot t g ≡ p
          → (s' : System c D) × (elim o [ none ↦ done s | some i ↦ body i ] ≡ done s')
            × Serves c D s' (elim p [ none ↦ t | some x ↦ set t g (f x) ])
      by_slots none none h k = (s, refl, v)
      by_slots none (some x) h k = absurd (cc (v.links.unlinked g h, k))
      by_slots (some i) none h k = let (r, _, told) = v.links.linked g i h in absurd (cc (told, k))
      by_slots (some i) (some x) h k =
          let (r, there, told) = v.links.linked g i h in
          let same : x ≡ settings c D r = ground (arith, told, k) in rw same (each i r h there told)

  Serves-drop :
      (s : System c D) (t : List (Option (Schedule c × D)))
      → Serves c D s t
      → Serves c D (record s { state = drop c D s.state }) t
  unfolding drop
  Serves-drop s t v = record { valid = v.valid; same_length = v.same_length; links = v.links }

  pub Serves-woken :
      (s : System c D) (t : List (Option (Schedule c × D))) (now later : ℕ → c.DateTime)
      → Serves c D s t
      → let r = round c D now later s.state s.period in
        Serves c D
          (if s.returned
            then s
            else record s { state = r.state; period = r.wait_period; returned = r.returned })
          t
  unfolding round
  Serves-woken s t now later v = by_returned s.returned
    where
      woke : System c D
      woke =
          let r = round c D now later s.state s.period in
          record s { state = r.state; period = r.wait_period; returned = r.returned }

      woke-Serves : Serves c D woke t
      woke-Serves = elim (Bool-cases s.state.quit) [
        | inr on ↦ Serves-round s t now later on v
        | inl off ↦
            rw (round, off)
              (record { valid = v.valid; same_length = v.same_length; links = v.links })
      ]

      by_returned : (b : Bool) → Serves c D (if b then s else woke) t
      by_returned true = v
      by_returned false = woke-Serves

  pub handle-Serves :
      (s : System c D) (t : List (Option (Schedule c × D))) (e : Event c D)
      → Serves c D s t
      → (s' : System c D) × (handle c D s e ≡ done s') × Serves c D s' (note c D t e)
  unfolding handle new_run replace_schedule
  handle-Serves s t (scheduled sched item now) v =
      let (i, d, e, fresh, h) = schedule-Has c D s.state sched item now v.valid in
      (
        record s { state = d; guards = s.guards ++ some i ∷ [] },
        rw e refl,
        Serves-push c D s t i (new_run c D sched item now) d v fresh h,
      )
  handle-Serves s t (data_updated g item) v = on_guard-Serves s t g _ _ v (λ i r held there told.
      let (d, e, h) = update_data-Has c D s.state i r item v.valid there in
      (record s { state = d }, rw e refl, Serves-put c D s t g i r _ d v held told h))
  handle-Serves s t (schedule_updated g sched now) v =
      on_guard-Serves s t g _ _ v (λ i r held there told.
        let (d, e, h) = update_schedule-Has c D s.state i r sched now v.valid there in
        (record s { state = d }, rw e refl, Serves-put c D s t g i r _ d v held told h))
  handle-Serves s t (guard_stopped g) v = on_guard-Serves s t g _ _ v (λ i r held there told.
      let (d, e, h) = guard_stop-Has c D s.state i r v.valid there in
      (
        record s { state = d; guards = set s.guards g none },
        rw e refl,
        Serves-remove c D s t g i r d v held told h,
      ))
  handle-Serves s t dropped v = (record s { state = drop c D s.state }, refl, Serves-drop s t v)
  handle-Serves s t (woken now later) v = (_, refl, Serves-woken s t now later v)

  pub Serves-start : Serves c D (start c D) []
  Serves-start = record {
    valid = record { free = []; chain = refl; distinct = tt; covers = λ i n h. cc h };
    same_length = refl;
    links = record {
      linked = λ g i e. cc e;
      unlinked = λ g e. refl;
      apart = λ g h i e e'. cc e;
      covered = λ i r e. cc e;
    };
  }

  run-Serves_from :
      (s : System c D) (t : List (Option (Schedule c × D))) (es : List (Event c D))
      → Serves c D s t
      → (s' : System c D) × (run c D s es ≡ done s') × Serves c D s' (notes c D t es)
  unfolding run
  run-Serves_from s t [] v = (s, refl, v)
  run-Serves_from s t (e ∷ es) v =
      let (s1, h1, v1) = handle-Serves s t e v in
      let (s2, h2, v2) = run-Serves_from s1 (note c D t e) es v1 in (s2, rw h1 h2, v2)

  -- In any run, with the calls on the runner and its guards and the rounds of the thread in any order, no
  -- call panics. Each guard that has not been stopped has an item of its own on the runner,
  -- with the schedule and the data that were last given for this guard; there are no other items.
  pub run-Serves :
      (es : List (Event c D))
      → (s : System c D) × (run c D (start c D) es ≡ done s) × Serves c D s (notes c D [] es)
  run-Serves es = run-Serves_from (start c D) [] es Serves-start
