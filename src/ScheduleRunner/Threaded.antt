-- ===== src/ScheduleRunner/Threaded.antt =====
-- src/schedule_runner.rs: the thread on its `RunnerState`. The data under the mutex stand with the guards that
-- have been handed out, the thread's own variables, and what has been executed; a reading is what a round
-- reads of the clock. The callers take the mutex for one call each, at any time.
use rinklers.Prelude.{
  ℕ, ◌≡◌, ◌≢◌, refl, Option, none, some, List, [], ◌∷◌, ◌++◌, map, false, Outcome, done, panicked,
  ◌>>=◌, append-nil, subst, set, if◌then◌else◌,
}
use rinklers.Util.WaitPeriod.{WaitPeriod, wait}
use rinklers.Util.RunnerState.{entering, ended, update}
use rinklers.Util.RunnerState.Wakeups.{Alone}
use rinklers.Util.RunnerState.Driven.{
  ThreadState, Runner, Shared, thread_round, called_in, begin, Runs, Runs-invariant, calls-ends,
}
use rinklers.Schedule.Chrono.{Calendar}
use rinklers.Schedule.{Schedule}
use rinklers.ScheduleRunner.{schedule, update_data, update_schedule, guard_stop, drop, round}
use rinklers.ScheduleRunner.System.{
  slot, System, Event, scheduled, data_updated, schedule_updated, guard_stopped, dropped, start,
  handle, on_guard,
}
use rinklers.ScheduleRunner.System.Guards.{handle-Serves, Serves-start, Serves-woken}
use rinklers.ScheduleRunner.System.Notes.{note, notes, Serves}

module _ (c : Calendar) (D : Type 0) where
  open c use {DateTime}

  -- the calls on the runner and its guards
  pub data Call : Type 0 where
    schedules : Schedule c → D → (now : DateTime) → Call
    updates_data : (guard : ℕ) → D → Call
    updates_schedule : (guard : ℕ) → Schedule c → (now : DateTime) → Call
    stops_guard : (guard : ℕ) → Call
    drops : Call

  abbrev pub event : Call → Event c D
  event (schedules sched item now) = scheduled sched item now
  event (updates_data guard item) = data_updated guard item
  event (updates_schedule guard sched now) = schedule_updated guard sched now
  event (stops_guard guard) = guard_stopped guard
  event drops = dropped

  pub record Held : Type 0 where
    pub sys : System c D
    -- what the thread has executed, oldest first
    pub executed : List D
    -- what the last round has read of the clock to tell which items are due
    pub last : Option (ℕ → DateTime)

  -- A call that panics changes nothing.
  abbrev pub settled : Held → Outcome (System c D) → Held
  settled s (done sys) = record s { sys = sys }
  settled s panicked = s

  abbrev pub woken_at : (ℕ → DateTime) × (ℕ → DateTime) → Held → WaitPeriod → Held
  woken_at (now, later) s w =
      let r = round c D now later s.sys.state w in
      record {
        sys = record (s.sys) { state = r.state; period = r.wait_period; returned = r.returned };
        executed = s.executed ++ r.executed;
        last = some now;
      }

  -- What is left neither ends the thread nor changes what it waits for.
  abbrev Kept : System c D → Outcome (System c D) → Type 0
  Kept s (done s') = (s'.returned ≡ s.returned) × (s'.period ≡ s.period)
  Kept s panicked = Unit

  Kept-bind :
      {A : Type 0} (s : System c D) (o : Outcome A) (f : A → Outcome (System c D))
      → ((a : A) → Kept s (f a))
      → Kept s (o >>= f)
  Kept-bind s (done a) f h = h a
  Kept-bind s panicked f h = tt

  on_guard-Kept :
      (s : System c D) (guard : ℕ) (f : ℕ → Outcome (System c D))
      → ((i : ℕ) → Kept s (f i))
      → Kept s (on_guard c D s guard f)
  on_guard-Kept s guard f h = by_slot (slot s.guards guard)
    where
      by_slot : (o : Option ℕ) → Kept s (elim o [ none ↦ done s | some index ↦ f index ])
      by_slot none = (refl, refl)
      by_slot (some i) = h i

  handle-Kept : (s : System c D) (x : Call) → Kept s (handle c D s (event x))
  unfolding handle
  handle-Kept s (schedules sched item now) =
      Kept-bind s (schedule c D s.state sched item now)
        (λ x. done (record s { state = x.1; guards = s.guards ++ some x.0 ∷ [] }))
        (λ a. (refl, refl))
  handle-Kept s (updates_data guard item) = on_guard-Kept s guard _ (λ i.
      Kept-bind s (update_data c D s.state i item) (λ x. done (record s { state = x.1 }))
        (λ a. (refl, refl)))
  handle-Kept s (updates_schedule guard sched now) = on_guard-Kept s guard _ (λ i.
      Kept-bind s (update_schedule c D s.state i sched now) (λ x. done (record s { state = x.1 }))
        (λ a. (refl, refl)))
  handle-Kept s (stops_guard guard) = on_guard-Kept s guard _ (λ i.
      Kept-bind s (guard_stop c D s.state i)
        (λ x. done (record s { state = x.1; guards = set s.guards guard none }))
        (λ a. (refl, refl)))
  handle-Kept s drops = (refl, refl)

  Kept-settled :
      (s : Held) (o : Outcome (System c D))
      → Kept s.sys o
      → ((settled s o).sys.returned ≡ s.sys.returned) × ((settled s o).sys.period ≡ s.sys.period)
  Kept-settled s (done s') h = h
  Kept-settled s panicked h = (refl, refl)

  pub settled-handle :
      (x : Call) (s : Held)
      → let s' = settled s (handle c D s.sys (event x)) in
        (s'.sys.returned ≡ s.sys.returned) × (s'.sys.period ≡ s.sys.period)
  settled-handle x s = Kept-settled s _ (handle-Kept s.sys x)

  abbrev pub schedule_thread : Runner
  schedule_thread = record {
    System = Held;
    Call = Call;
    Reading = (ℕ → DateTime) × (ℕ → DateTime);
    start = record { sys = start c D; executed = []; last = none };
    called = λ x s. settled s (handle c D s.sys (event x));
    woken = woken_at;
    returned = λ s. s.sys.returned;
    period = λ s. s.sys.period;
    start_returned = refl;
    start_period = refl;
    called-returned = λ x s. (settled-handle x s).0;
    called-period = λ x s. (settled-handle x s).1;
  }

  -- what the guards stand for after the calls
  abbrev pub asked_for : List Call → List (Option (Schedule c × D))
  asked_for cs = notes c D [] (map (λ x. event x) cs)

  notes-snoc :
      (t : List (Option (Schedule c × D))) (cs : List Call) (x : Call)
      → notes c D t (map (λ y. event y) (cs ++ x ∷ []))
        ≡ note c D (notes c D t (map (λ y. event y) cs)) (event x)
  notes-snoc t [] x = refl
  notes-snoc t (y ∷ cs) x = notes-snoc (note c D t (event y)) cs x

  abbrev ServesHeld : List Call → Held → Type 0
  ServesHeld cs s = Serves c D s.sys (asked_for cs)

  ServesHeld-called :
      (cs : List Call) (x : Call) (s : Held)
      → ServesHeld cs s
      → ServesHeld (cs ++ x ∷ []) (settled s (handle c D s.sys (event x)))
  ServesHeld-called cs x s v =
      let (s', ran, v') = handle-Serves c D s.sys (asked_for cs) (event x) v in
      rw (ran, notes-snoc [] cs x) v'

  ServesHeld-woken :
      (cs : List Call) (s : Held) (o : (ℕ → DateTime) × (ℕ → DateTime))
      → ServesHeld cs s
      → s.sys.returned ≡ false
      → ServesHeld cs (woken_at o s s.sys.period)
  ServesHeld-woken cs s (now, later) v on =
      let r = round c D now later s.sys.state s.sys.period in
      subst
        (λ b.
          Serves c D
            (if b then s.sys else record (s.sys) {
              state = r.state;
              period = r.wait_period;
              returned = r.returned;
            })
            (asked_for cs))
        on (Serves-woken c D s.sys (asked_for cs) now later v)

  -- Whatever the thread and the callers do through the mutex and the condition variable, in any order, lost and
  -- spurious wake-ups included: the runner holds an item for each guard that has not been stopped, with the
  -- schedule and the data last given for it, and no others; and no further call panics.
  pub Runs-Serves :
      (readings : ℕ → (ℕ → DateTime) × (ℕ → DateTime)) (cs : List Call)
      (t : ThreadState schedule_thread)
      → Runs schedule_thread (begin schedule_thread readings) cs t
      → Serves c D t.content.sys.sys (asked_for cs)
        × ((x : Call) → (s : System c D) × (handle c D t.content.sys.sys (event x) ≡ done s))
  Runs-Serves readings cs t h =
      let v =
        Runs-invariant schedule_thread ServesHeld ServesHeld-woken ServesHeld-called
          (Serves-start c D) readings cs t h in
      (
        v,
        λ x.
            let (s, ran, _) = handle-Serves c D t.content.sys.sys (asked_for cs) (event x) v in
            (s, ran),
      )

  -- Dropping the runner ends the thread with nothing more executed, whatever has gone before, unless the
  -- thread has ended already, or has left the mutex with the period `Wait` and does not wait yet: the thread
  -- comes to its end by itself.
  pub drop-Runs :
      (readings : ℕ → (ℕ → DateTime) × (ℕ → DateTime)) (cs : List Call)
      (t : ThreadState schedule_thread)
      → Runs schedule_thread (begin schedule_thread readings) cs t
      → t.phase ≢ ended
      → t.phase ≢ entering wait
      → (u : ThreadState schedule_thread) × Alone
          (Shared schedule_thread)
          (thread_round schedule_thread)
          (update
            (Shared schedule_thread)
            (thread_round schedule_thread)
            t
            (called_in schedule_thread drops))
          u
        × (u.phase ≡ ended)
        × (u.content.sys.executed ≡ t.content.sys.executed)
  unfolding handle drop round
  drop-Runs readings cs t h running not_before =
      let (u, alone, runs, at, content) =
        calls-ends schedule_thread (begin schedule_thread readings) t cs drops h running not_before
          refl in
      (u, alone, at, rw content (append-nil t.content.sys.executed))
