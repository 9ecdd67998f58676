-- ===== src/SectionRunner/System.antt =====
-- The runner thread and its callers as a sequence of events. Each event holds the mutex: a call of
-- `run_section` or `stop`, or a round of the thread. A round may come at any time, since the thread
-- wakes by a notification, by its timeout or spuriously; the clock never goes back.
use rinklers.Prelude.{
  ℕ, ◌+◌, Option, none, List, [], ◌∷◌, ◌++◌, map, Bool, true, false, done, panicked,
}
use rinklers.Util.WaitPeriod.{WaitPeriod, wait}
use rinklers.SectionRunner.{
  RunnerData, new_data, SecRun, Run, Effect, Round, round, run_section, stop, start_new,
}

pub record System : Type 0 where
  pub state : RunnerData
  pub current : Option Run
  pub period : WaitPeriod
  pub returned : Bool
  pub now : ℕ
  -- what the thread has done, oldest first, with the times
  pub log : List (ℕ × Effect)

pub data Event : Type 0 where
  requested : (sec dur chan : ℕ) → Event
  stopped : Event
  -- the thread makes a round, `later` nanoseconds after the last one
  woken : (later : ℕ) → Event

abbrev pub init : System
init = record {
  state = new_data;
  current = none;
  period = wait;
  returned = false;
  now = 0;
  log = [];
}

abbrev pub stamped : ℕ → List Effect → List (ℕ × Effect)
stamped now = map (λ e. (now, e))

abbrev pub after_round : System → ℕ → Round → System
after_round s now r = record {
  state = r.state;
  current = r.current_run;
  period = r.wait_period;
  returned = r.returned;
  now = now;
  log = s.log ++ stamped now r.effects;
}

abbrev pub wake : Bool → System → ℕ → System
wake true s now = record s { now = now }
wake false s now = after_round s now (round now s.state s.current s.period)

unfoldable pub handle : System → Event → System
unfolding run_section stop
handle s (requested sec dur chan) = record s { state = run_section s.state sec dur chan }
handle s stopped = elim (stop start_new s.state) [
  | done data' ↦ record s { state = data' }
  | panicked ↦ s
]
handle s (woken later) = wake s.returned s (s.now + later)

unfoldable pub run : System → List Event → System
unfolding handle
run s [] = s
run s (e ∷ es) = run (handle s e) es

-- The requests among the events, in order.
abbrev pub asked : List Event → List SecRun
asked [] = []
asked (requested sec dur chan ∷ es) =
    record { sec = sec; dur = dur; notification_sender = chan } ∷ asked es
asked (stopped ∷ es) = asked es
asked (woken _ ∷ es) = asked es
