-- ===== src/SectionRunner/Threaded.antt =====
-- src/section_runner.rs: the thread on its `RunnerState`. The data under the mutex stand with the thread's own
-- variables, its log and the clock; a reading says how much later a round is than the one before. The
-- callers take the mutex for one call each, at any time.
use rinklers.Prelude.{
  ℕ, ◌+◌, ◌≡◌, ◌≢◌, refl, sym, ap, ◌∙◌, List, [], ◌∷◌, ◌++◌, map, true, false, Option, none, some,
  append-nil, subst,
}
use rinklers.Util.WaitPeriod.{WaitPeriod, wait}
use rinklers.Util.RunnerState.{entering, ended, update}
use rinklers.Util.RunnerState.Wakeups.{Alone}
use rinklers.Util.RunnerState.Driven.{
  ThreadState, Runner, Shared, thread_round, called_in, begin, Runs, Runs-invariant, calls-ends,
}
use rinklers.SectionRunner.{Run, stop, round}
use rinklers.SectionRunner.System.{
  System, Event, requested, stopped, woken, init, after_round, wake, handle, run, asked,
}
use rinklers.SectionRunner.Invariant.{Inv}
use rinklers.SectionRunner.Protocol.{run-init-Inv}
use rinklers.SectionRunner.Exclusion.{lit, waters, lit-Inv}

-- the calls that update the data: `run_section` and `stop`
pub data Call : Type 0 where
  requests : (sec dur chan : ℕ) → Call
  stops : Call

abbrev pub event : Call → Event
event (requests sec dur chan) = requested sec dur chan
event stops = stopped

-- A call neither ends the thread nor changes what it waits for.
pub handle-returned : (x : Call) (s : System) → (handle s (event x)).returned ≡ s.returned
unfolding handle stop
handle-returned (requests sec dur chan) s = refl
handle-returned stops s = refl

pub handle-period : (x : Call) (s : System) → (handle s (event x)).period ≡ s.period
unfolding handle stop
handle-period (requests sec dur chan) s = refl
handle-period stops s = refl

-- a round of the loop in `run`, as what the thread makes of the data and of the period it has waited for
abbrev pub woken_after : (later : ℕ) → System → WaitPeriod → System
woken_after later s w = after_round s (s.now + later) (round (s.now + later) s.state s.current w)

abbrev pub section_thread : Runner
section_thread = record {
  System = System;
  Call = Call;
  Reading = ℕ;
  start = init;
  called = λ x s. handle s (event x);
  woken = woken_after;
  returned = λ s. s.returned;
  period = λ s. s.period;
  start_returned = refl;
  start_period = refl;
  called-returned = handle-returned;
  called-period = handle-period;
}

run-append : (s : System) (es : List Event) (e : Event) → run s (es ++ e ∷ []) ≡ handle (run s es) e
unfolding run
run-append s [] e = refl
run-append s (x ∷ es) e = run-append (handle s x) es e

asked-append : (es fs : List Event) → asked (es ++ fs) ≡ asked es ++ asked fs
asked-append [] fs = refl
asked-append (requested sec dur chan ∷ es) fs =
    ap (◌∷◌ (record { sec = sec; dur = dur; notification_sender = chan })) (asked-append es fs)
asked-append (stopped ∷ es) fs = asked-append es fs
asked-append (woken later ∷ es) fs = asked-append es fs

map-snoc :
    (cs : List Call) (x : Call)
    → map (λ y. event y) (cs ++ x ∷ []) ≡ map (λ y. event y) cs ++ event x ∷ []
map-snoc [] x = refl
map-snoc (c ∷ cs) x = ap (◌∷◌ (event c)) (map-snoc cs x)

-- The system that the events describe is the one under the mutex.
record Simulated (cs : List Call) (s : System) : Type 0 where
  events : List Event
  reached : run init events ≡ s
  same_calls : asked events ≡ asked (map (λ x. event x) cs)

Simulated-called :
    (cs : List Call) (x : Call) (s : System)
    → Simulated cs s
    → Simulated (cs ++ x ∷ []) (handle s (event x))
Simulated-called cs x s v = record {
  events = v.events ++ event x ∷ [];
  reached = run-append init v.events (event x) ∙ ap (λ s. handle s (event x)) v.reached;
  same_calls =
      asked-append v.events (event x ∷ [])
      ∙ ap (λ l. l ++ asked (event x ∷ [])) v.same_calls
      ∙ sym (asked-append (map (λ y. event y) cs) (event x ∷ []))
      ∙ ap (λ l. asked l) (sym (map-snoc cs x));
}

Simulated-woken :
    (cs : List Call) (s : System) (later : ℕ)
    → Simulated cs s
    → s.returned ≡ false
    → Simulated cs (woken_after later s s.period)
unfolding handle
Simulated-woken cs s later v on = record {
  events = v.events ++ woken later ∷ [];
  reached =
      run-append init v.events (woken later)
      ∙ ap (λ x. handle x (woken later)) v.reached
      ∙ ap (λ b. wake b s (s.now + later)) on;
  same_calls =
      asked-append v.events (woken later ∷ []) ∙ append-nil (asked v.events) ∙ v.same_calls;
}

Simulated-init : Simulated [] init
unfolding run
Simulated-init = record { events = []; reached = refl; same_calls = refl }

-- Whatever the thread and its callers do through the mutex and the condition variable, in any order, lost and
-- spurious wake-ups included: the log is the one of the protocol, for the requests that have been made.
pub Runs-Inv :
    (delays : ℕ → ℕ) (cs : List Call) (t : ThreadState section_thread)
    → Runs section_thread (begin section_thread delays) cs t
    → Inv (asked (map (λ x. event x) cs)) t.content.sys
Runs-Inv delays cs t r =
    let v =
      Runs-invariant section_thread Simulated Simulated-woken Simulated-called Simulated-init delays
        cs t r in
    subst (λ s. Inv (asked (map (λ x. event x) cs)) s) v.reached
      (subst (λ rs. Inv rs (run init v.events)) v.same_calls (run-init-Inv v.events))

-- A round that is to quit is the last one, with no run under way.
last_round :
    (later : ℕ) (s : System) (w : WaitPeriod)
    → let after = woken_after later (handle s stopped) w in
      (after.returned ≡ true) × (after.current ≡ none)
unfolding round handle stop
last_round later s w = by_run s.current
  where
    by_run :
        (run : Option Run)
        → let r = round (s.now + later) (record (s.state) { quit = true }) run w in
          (r.returned ≡ true) × (r.current_run ≡ none)
    by_run none = (refl, refl)
    by_run (some x) = (refl, refl)

-- `stop` ends the thread and leaves every section off, whatever has gone before, unless the thread has ended
-- already, or has left the mutex with the period `Wait` and does not wait yet: the thread comes to its
-- end by itself.
pub stop-Runs :
    (delays : ℕ → ℕ) (cs : List Call) (t : ThreadState section_thread)
    → Runs section_thread (begin section_thread delays) cs t
    → t.phase ≢ ended
    → t.phase ≢ entering wait
    → (u : ThreadState section_thread) × Alone
        (Shared section_thread)
        (thread_round section_thread)
        (update
          (Shared section_thread)
          (thread_round section_thread)
          t
          (called_in section_thread stops))
        u
      × (u.phase ≡ ended)
      × ((sec : ℕ) → lit sec false u.content.sys.log ≡ false)
stop-Runs delays cs t r running not_before =
    let (returned, idle) = last_round (t.content.readings 0) t.content.sys t.period in
    let (u, alone, runs, at, content) =
      calls-ends section_thread (begin section_thread delays) t cs stops r running not_before
        returned in
    let none_runs : u.content.sys.current ≡ none = rw content idle in
    (
      u,
      alone,
      at,
      λ sec.
          lit-Inv sec _ u.content.sys (Runs-Inv delays _ u runs) ∙ ap (λ x. waters sec x) none_runs,
    )
