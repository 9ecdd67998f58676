-- ===== src/Util/RunnerState/Driven.antt =====
-- src/util.rs: a runner as its `RunnerState` drives it, for any runner. What the mutex protects stands with the
-- variables of the thread; the callers take the mutex for one call each, at any time. Each round reads the
-- clock, and what it reads is given beforehand.
use rinklers.Prelude.{
  ℕ, suc, ◌≡◌, ◌≢◌, refl, ◌∙◌, sym, List, [], ◌∷◌, ◌++◌, Bool, true, false, if◌then◌else◌, subst,
}
use rinklers.Util.WaitPeriod.{WaitPeriod, wait}
use rinklers.Util.RunnerState.{
  Phase, entering, waiting, ready, ended, Next, sleep, quit, RunnerState, new_state, notify, update,
  after, next_period, make_round, ThreadStep, locks, times_out, rounds,
}
use rinklers.Util.RunnerState.Wakeups.{Alone, still, moves, update_ends}

-- The interface: a runner, its calls, and a round of its thread after a wait for a period.
pub record Runner : Type 1 where
  pub System : Type 0
  pub Call : Type 0
  pub Reading : Type 0
  pub start : System
  pub called : Call → System → System
  pub woken : Reading → System → WaitPeriod → System
  pub returned : System → Bool
  pub period : System → WaitPeriod
  pub start_returned : returned start ≡ false
  pub start_period : period start ≡ wait
  -- A call neither ends the thread nor changes what it waits for.
  pub called-returned : (x : Call) (s : System) → returned (called x s) ≡ returned s
  pub called-period : (x : Call) (s : System) → period (called x s) ≡ period s

notify_running :
    {D : Type 0} (round : D → WaitPeriod → D × Next) (x : Phase)
    → notify D round x ≢ ended
    → x ≢ ended
unfolding notify
notify_running round (entering w) h = λ e. cc e
notify_running round (waiting w) h = λ e. cc e
notify_running round ready h = λ e. cc e
notify_running round ended h = absurd (h refl)

after-ended :
    {D : Type 0} (round : D → WaitPeriod → D × Next) (b : Bool) (p w : WaitPeriod)
    → let next : Next = if b then quit else sleep p in
      after D round next w ≢ ended
      → (b ≡ false) × (next_period D round (if b then quit else sleep p) w ≡ p)
after-ended round true p w h = absurd (h refl)
after-ended round false p w h = (refl, refl)

module _ (r : Runner) where
  open r use {System, Call, Reading}

  pub record Shared : Type 0 where
    pub sys : System
    pub readings : ℕ → Reading

  -- a round of the loop in `run`
  abbrev pub thread_round : Shared → WaitPeriod → Shared × Next
  thread_round d w =
      let s = r.woken (d.readings 0) d.sys w in
      (
        record { sys = s; readings = λ i. d.readings (suc i) },
        if r.returned s then quit else sleep (r.period s),
      )

  abbrev pub ThreadState : Type 0
  ThreadState = RunnerState Shared thread_round

  abbrev pub called_in : Call → Shared → Shared
  called_in x d = record d { sys = r.called x d.sys }

  -- the start of the thread
  abbrev pub begin : (ℕ → Reading) → ThreadState
  begin readings = new_state Shared thread_round (record { sys = r.start; readings = readings })

  -- What the thread and its callers can do, with the calls that have been made: a call at any time, any
  -- step of the thread, and a spurious wake-up.
  pub data Runs (s : ThreadState) : List Call → ThreadState → Type 0 where
    begun : Runs s [] s
    calls :
        {cs : List Call} {t : ThreadState}
        → Runs s cs t
        → (x : Call) → Runs s (cs ++ x ∷ []) (update Shared thread_round t (called_in x))
    steps :
        {cs : List Call} {t u : ThreadState}
        → Runs s cs t
        → ThreadStep Shared thread_round t u
        → Runs s cs u
    wakes_spuriously :
        {cs : List Call} {t : ThreadState} (p : WaitPeriod)
        → Runs s cs t
        → t.phase ≡ waiting p
        → Runs s cs (record t { phase = ready })

  -- The thread's own steps are among those of the whole.
  pub Alone-Runs :
      (s t u : ThreadState) (cs : List Call)
      → Runs s cs t
      → Alone Shared thread_round t u
      → Runs s cs u
  Alone-Runs s t u cs h still = h
  Alone-Runs s t u cs h (moves {t = v} alone step) = steps (Alone-Runs s t v cs h alone) step

  module _ (P : List Call → System → Type 0) where
    -- What the calls and the rounds keep holds, and the thread, unless it has ended, waits for the period of
    -- its last round.
    record Keeps (cs : List Call) (t : ThreadState) : Type 0 where
      kept : P cs t.content.sys
      alive : t.phase ≢ ended → r.returned t.content.sys ≡ false
      same_period : t.phase ≢ ended → t.period ≡ r.period t.content.sys

    Keeps-calls :
        (cs : List Call) (t : ThreadState) (x : Call)
        → ((s : System) → P cs s → P (cs ++ x ∷ []) (r.called x s))
        → Keeps cs t
        → Keeps (cs ++ x ∷ []) (update Shared thread_round t (called_in x))
    unfolding update
    Keeps-calls cs t x on_call v = record {
      kept = on_call t.content.sys v.kept;
      alive =
          λ h. r.called-returned x t.content.sys ∙ v.alive (notify_running thread_round t.phase h);
      same_period = λ h.
          v.same_period (notify_running thread_round t.phase h)
          ∙ sym (r.called-period x t.content.sys);
    }

    module _
        (on_round : (cs : List Call) (s : System) (o : Reading)
          → P cs s
          → r.returned s ≡ false
          → P cs (r.woken o s (r.period s))) where
      Keeps-round :
          (cs : List Call) (t : ThreadState)
          → t.phase ≡ ready
          → Keeps cs t
          → Keeps cs (make_round Shared thread_round t)
      unfolding make_round
      Keeps-round cs t at v =
          let o = t.content.readings 0 in
          let s = r.woken o t.content.sys t.period in
          let running : t.phase ≢ ended = λ e. cc (at, e) in
          record {
            kept =
                subst (λ w. P cs (r.woken o t.content.sys w)) (sym (v.same_period running))
                  (on_round cs t.content.sys o v.kept (v.alive running));
            alive = λ h. (after-ended thread_round (r.returned s) (r.period s) t.period h).0;
            same_period = λ h. (after-ended thread_round (r.returned s) (r.period s) t.period h).1;
          }

      Keeps-steps :
          (cs : List Call) (t u : ThreadState)
          → ThreadStep Shared thread_round t u
          → Keeps cs t
          → Keeps cs u
      Keeps-steps cs t u (locks p e) v = record {
        kept = v.kept;
        alive = λ h. v.alive (λ o. cc (o, e));
        same_period = λ h. v.same_period (λ o. cc (o, e));
      }
      Keeps-steps cs t u (times_out d e) v = record {
        kept = v.kept;
        alive = λ h. v.alive (λ o. cc (o, e));
        same_period = λ h. v.same_period (λ o. cc (o, e));
      }
      Keeps-steps cs t u (rounds e) v = Keeps-round cs t e v

      module _
          (on_call : (cs : List Call) (x : Call) (s : System)
            → P cs s
            → P (cs ++ x ∷ []) (r.called x s))
          (at_start : P [] r.start) (readings : ℕ → Reading) where
        Runs-Keeps : (cs : List Call) (t : ThreadState) → Runs (begin readings) cs t → Keeps cs t
        unfolding new_state
        Runs-Keeps cs t begun = record {
          kept = at_start;
          alive = λ h. r.start_returned;
          same_period = λ h. sym r.start_period;
        }
        Runs-Keeps cs t (calls {cs = cs'} {t = t'} h x) =
            Keeps-calls cs' t' x (on_call cs' x) (Runs-Keeps cs' t' h)
        Runs-Keeps cs t (steps {cs = cs'} {t = t'} h step) =
            Keeps-steps cs' t' t step (Runs-Keeps cs' t' h)
        Runs-Keeps cs t (wakes_spuriously {cs = cs'} {t = t'} p h e) =
            let v = Runs-Keeps cs' t' h in
            record {
              kept = v.kept;
              alive = λ h'. v.alive (λ o. cc (o, e));
              same_period = λ h'. v.same_period (λ o. cc (o, e));
            }

        -- The rule of invariants: what holds at the start, and is kept by each call and by each round of a
        -- thread that has not returned, after a wait for the period of its last round, holds always.
        pub Runs-invariant :
            (cs : List Call) (t : ThreadState) → Runs (begin readings) cs t → P cs t.content.sys
        Runs-invariant cs t h = (Runs-Keeps cs t h).kept

  -- A call after which a round ends the thread, whatever it reads, does end it, unless the thread has left the
  -- mutex with the period `Wait` and does not wait yet. The end comes by the thread's own steps.
  pub calls-ends :
      (s t : ThreadState) (cs : List Call) (x : Call)
      → Runs s cs t
      → t.phase ≢ ended
      → t.phase ≢ entering wait
      → r.returned (r.woken (t.content.readings 0) (r.called x t.content.sys) t.period) ≡ true
      → (u : ThreadState) × Alone Shared thread_round (update Shared thread_round t (called_in x)) u
        × Runs s (cs ++ x ∷ []) u
        × (u.phase ≡ ended)
        × (u.content.sys ≡ r.woken (t.content.readings 0) (r.called x t.content.sys) t.period)
  calls-ends s t cs x h running not_before last =
      let quits : (thread_round (called_in x t.content) t.period).1 ≡ quit = rw last refl in
      let (u, alone, at, content) =
        update_ends Shared thread_round t (called_in x) running not_before quits in
      (u, alone, Alone-Runs s _ u _ (calls h x) alone, at, rw content refl)
