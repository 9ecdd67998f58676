-- ===== src/SectionRunner/Waits.antt =====
-- src/section_runner.rs: what the thread waits for.
use rinklers.Prelude.{
  ℕ, ◌+◌, ◌-◌, ◌≡◌, refl, inl, inr, Option, none, some, List, [], ◌∷◌, true, false, Bool-cases, leb,
  arith,
}
use rinklers.Util.WaitPeriod.{WaitPeriod, wait, at_most, no_wait}
use rinklers.Util.RunnerState.{waiting}
use rinklers.Util.RunnerState.Driven.{ThreadState, begin}
use rinklers.Util.RunnerState.Prompt.{PromptRuns, PromptRuns-waiting}
use rinklers.SectionRunner.{RunnerData, Run, SecRun, Round, running_round, idle_round, round}
use rinklers.SectionRunner.Threaded.{Call, section_thread}

-- Without a limit only if there is nothing to do; with a limit, for exactly what is left of the run under way.
abbrev pub WaitsFor : WaitPeriod → (now : ℕ) → RunnerData → Option Run → Type 0
WaitsFor wait now d c = (c ≡ none) × (d.queue ≡ [])
WaitsFor (at_most left) now d c =
    (run : Run) × (c ≡ some run) × (left ≡ run.dur - (now - run.start_time))
WaitsFor no_wait now d c = Unit

round-WaitsFor :
    (now : ℕ) (d : RunnerData) (c : Option Run) (w : WaitPeriod)
    → (round now d c w).returned ≡ false
    → let r = round now d c w in WaitsFor r.wait_period now r.state r.current_run
unfolding round
round-WaitsFor now d c w on = elim (Bool-cases d.quit) [
  | inl quits ↦ absurd (returns c quits on)
  | inr stays ↦ rw (round, stays) (goes_on c)
]
  where
    returns : (c' : Option Run) → d.quit ≡ true → (round now d c' w).returned ≡ false → ⊥
    returns none quits h = cc (rw quits at h)
    returns (some run) quits h = cc (rw quits at h)

    runs :
        (run : Run)
        → let r = running_round now d run in WaitsFor r.wait_period now r.state r.current_run
    runs run = elim (Bool-cases (leb run.dur (now - run.start_time))) [
      | inl over ↦ rw (running_round, over) tt
      | inr under ↦ rw (running_round, under) (run, refl, refl)
    ]

    idles :
        (q : List SecRun)
        → d.queue ≡ q
        → let r = idle_round now d q in WaitsFor r.wait_period now r.state r.current_run
    idles [] e = (refl, e)
    idles (x ∷ rest) e = (_, refl, omega arith)

    goes_on :
        (c' : Option Run)
        → let r : Round = elim c' [
          | some run ↦ running_round now d run
          | none ↦ idle_round now d d.queue
        ] in
          WaitsFor r.wait_period now r.state r.current_run
    goes_on none = idles d.queue refl
    goes_on (some run) = runs run

-- If no call falls between a round, or the start of the thread, and the wait that follows, the thread waits
-- without a limit only while no section is running and the queue is empty, and with a limit only for exactly
-- what was left of the run under way at its last round.
pub waits-WaitsFor :
    (delays : ℕ → ℕ) (cs : List Call) (t : ThreadState section_thread) (w : WaitPeriod)
    → PromptRuns section_thread (begin section_thread delays) cs t
    → t.phase ≡ waiting w
    → WaitsFor w t.content.sys.now t.content.sys.state t.content.sys.current
waits-WaitsFor delays cs t w =
    PromptRuns-waiting section_thread (λ s x. WaitsFor x s.now s.state s.current)
      (λ later s x on. round-WaitsFor (s.now + later) s.state s.current x on) (refl, refl) delays cs
      t w
