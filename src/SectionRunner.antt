-- ===== src/SectionRunner.antt =====
-- src/section_runner.rs. A `Duration` and an `Instant` are numbers of nanoseconds; a `SectionRef` and
-- a notification channel are numbers that name them. What the thread does to sections and channels
-- is recorded as effects. `trace!` is left out; the `debug!` lines are in Logging.
pub mod Logging
pub mod System
pub mod Invariant
pub mod Protocol
pub mod Threaded
pub mod Waits
pub mod ThreadedExamples
pub mod Exclusion
pub mod Draining
pub mod Examples
use rinklers.Prelude.{
  ℕ, ◌+◌, ◌-◌, ◌≡◌, Option, none, some, List, [], ◌∷◌, ◌++◌, map, Bool, true, false, Outcome, done,
  panicked, leb, if◌then◌else◌,
}
use rinklers.Util.WaitPeriod.{WaitPeriod, wait, at_most, no_wait}

pub data RunNotification : Type 0 where
  start finish interrupted : RunNotification

pub record SecRun : Type 0 where
  pub sec : ℕ
  pub dur : ℕ
  pub notification_sender : ℕ

pub record RunnerData : Type 0 where
  pub quit : Bool
  pub queue : List SecRun

-- `RunnerData::new`
abbrev pub new_data : RunnerData
new_data = record { quit = false; queue = [] }

-- The handle; only the first one can join the thread. It shares the state with its clones.
pub record SectionRunner : Type 0 where
  pub join_handle : Bool

abbrev pub start_new : SectionRunner
start_new = record { join_handle = true }

unfoldable pub clone : SectionRunner → SectionRunner
clone r = record { join_handle = false }

-- `run_section`: the receiver is the other end of the channel `chan`, which is new.
unfoldable pub run_section : RunnerData → (sec dur chan : ℕ) → RunnerData
run_section data' sec dur chan = record data' {
  queue = data'.queue ++ record { sec = sec; dur = dur; notification_sender = chan } ∷ [];
}

-- `stop`, up to the join: it panics on a clone.
unfoldable pub stop : SectionRunner → RunnerData → Outcome RunnerData
stop r data' = if r.join_handle then done (record data' { quit = true }) else panicked

-- The struct `Run` in `run`.
pub record Run : Type 0 where
  pub sec : ℕ
  pub dur : ℕ
  pub start_time : ℕ
  pub notify : ℕ

pub data Effect : Type 0 where
  set_state : (sec : ℕ) → Bool → Effect
  send : (chan : ℕ) → RunNotification → Effect

-- One round of the loop in `run`, from the return of `wait_update_for_period` on.
pub record Round : Type 0 where
  pub state : RunnerData
  pub current_run : Option Run
  pub wait_period : WaitPeriod
  pub effects : List Effect
  pub returned : Bool

abbrev pub discard : SecRun → Effect
discard run = send run.notification_sender interrupted

quit_round : RunnerData → Option Run → WaitPeriod → Round
quit_round data' none w = record {
  state = data';
  current_run = none;
  wait_period = w;
  effects = [];
  returned = true;
}
quit_round data' (some run) w = record {
  state = record data' { queue = [] };
  current_run = none;
  wait_period = w;
  effects = set_state run.sec false ∷ send run.notify interrupted ∷ map discard data'.queue;
  returned = true;
}

-- `now` is the time that `elapsed` reads.
running_round : ℕ → RunnerData → Run → Round
running_round now data' run =
    let elapsed = now - run.start_time in
    if leb run.dur elapsed
    then record {
      state = data';
      current_run = none;
      wait_period = no_wait;
      effects = set_state run.sec false ∷ send run.notify finish ∷ [];
      returned = false;
    }
    else record {
      state = data';
      current_run = some run;
      wait_period = at_most (run.dur - elapsed);
      effects = [];
      returned = false;
    }

-- `now` is `Instant::now()`. The panics of the `debug!` lines, here and in `quit_round`, are in Logging.
idle_round : ℕ → RunnerData → List SecRun → Round
idle_round now data' [] = record {
  state = data';
  current_run = none;
  wait_period = wait;
  effects = [];
  returned = false;
}
idle_round now data' (run ∷ rest) = record {
  state = record data' { queue = rest };
  current_run =
      some (record {
        sec = run.sec;
        dur = run.dur;
        start_time = now;
        notify = run.notification_sender;
      });
  wait_period = at_most run.dur;
  effects = set_state run.sec true ∷ send run.notification_sender start ∷ [];
  returned = false;
}

unfoldable pub round : (now : ℕ) → RunnerData → Option Run → WaitPeriod → Round
unfolding quit_round running_round idle_round
round now data' current w = if data'.quit then quit_round data' current w else elim current [
  | some run ↦ running_round now data' run
  | none ↦ idle_round now data' data'.queue
]
