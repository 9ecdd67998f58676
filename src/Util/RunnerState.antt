-- ===== src/Util/RunnerState.antt =====
-- src/util.rs: `RunnerState`, its `CondvarGuard`, and `wait_condvar`, for a runner's thread and any
-- number of callers. The mutex is held from the lock to the end of a guard's life, so an update and a
-- round of the thread are each one step; `condvar.wait` releases the mutex. A poisoned mutex, which only
-- a panic leaves behind, is left out.
pub mod Wakeups
pub mod Driven
pub mod Missed
pub mod Prompt
pub mod Examples
use rinklers.Prelude.{◌≡◌, Bool, true, false, ℕ}
use rinklers.Util.WaitPeriod.{WaitPeriod, wait, at_most, no_wait}

-- Where the thread stands.
pub data Phase : Type 0 where
  -- outside the mutex, before `wait_condvar` with this period
  entering : WaitPeriod → Phase
  -- in `condvar.wait` or `wait_timeout`, with the mutex released
  waiting : WaitPeriod → Phase
  -- about to hold the mutex and make a round
  ready : Phase
  -- returned
  ended : Phase

-- what a round of the thread leaves: the data, and the next period or the end
pub data Next : Type 0 where
  sleep : WaitPeriod → Next
  quit : Next

module _ (D : Type 0) (round : D → WaitPeriod → D × Next) where
  -- `period` is the thread's variable `wait_period`.
  pub record RunnerState : Type 0 where
    pub content : D
    pub phase : Phase
    pub period : WaitPeriod

  -- `RunnerState::new` and the start of the thread
  unfoldable pub new_state : D → RunnerState
  new_state d = record { content = d; phase = entering wait; period = wait }

  -- `notify_one`, on the thread: it is lost unless the thread waits
  unfoldable pub notify : Phase → Phase
  notify (waiting p) = ready
  notify (entering p) = entering p
  notify ready = ready
  notify ended = ended

  -- `update`, a change of the data, and the drop of the guard
  unfoldable pub update : RunnerState → (D → D) → RunnerState
  unfolding notify
  update s f = record s { content = f s.content; phase = notify s.phase }

  -- `wait_condvar`, from the lock to the wait or the return
  unfoldable pub enter : WaitPeriod → Phase
  enter wait = waiting wait
  enter (at_most d) = waiting (at_most d)
  enter no_wait = ready

  -- `wait_update`, from the lock to the wait
  abbrev pub wait_update : Phase
  unfolding enter
  wait_update = enter wait

  abbrev pub after : Next → WaitPeriod → Phase
  after (sleep p) _ = entering p
  after quit _ = ended

  abbrev pub next_period : Next → WaitPeriod → WaitPeriod
  next_period (sleep p) _ = p
  next_period quit p = p

  unfoldable pub make_round : RunnerState → RunnerState
  make_round s =
      let (d, n) = round s.content s.period in
      record { content = d; phase = after n s.period; period = next_period n s.period }

  -- The steps of the thread by itself. A spurious wake-up of `condvar.wait`, which nobody may rely on,
  -- is none of them.
  pub data ThreadStep (s : RunnerState) : RunnerState → Type 0 where
    locks : (p : WaitPeriod) → s.phase ≡ entering p → ThreadStep s (record s { phase = enter p })
    times_out : (d : ℕ) → s.phase ≡ waiting (at_most d) → ThreadStep s (record s { phase = ready })
    rounds : s.phase ≡ ready → ThreadStep s (make_round s)

  pub data Step (s : RunnerState) : RunnerState → Type 0 where
    thread : {t : RunnerState} → ThreadStep s t → Step s t
    updates : (f : D → D) → Step s (update s f)
    wakes_spuriously : (p : WaitPeriod) → s.phase ≡ waiting p → Step s (record s { phase = ready })

  pub data Reach (s : RunnerState) : RunnerState → Type 0 where
    here : Reach s s
    later : {t u : RunnerState} → Reach s t → Step t u → Reach s u
