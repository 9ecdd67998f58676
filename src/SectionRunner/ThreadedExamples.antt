-- ===== src/SectionRunner/ThreadedExamples.antt =====
-- A run of the section runner's thread: it waits, a request wakes it, it starts the request, and it is stopped.
use rinklers.Prelude.{ℕ, ◌≡◌, refl, [], ◌∷◌, true, false}
use rinklers.Util.WaitPeriod.{wait, at_most}
use rinklers.Util.RunnerState.{
  waiting, ended, new_state, notify, update, enter, make_round, locks, rounds,
}
use rinklers.Util.RunnerState.Wakeups.{Alone}
use rinklers.Util.RunnerState.Driven.{
  ThreadState, Shared, thread_round, called_in, begin, Runs, begun, calls, steps,
}
use rinklers.Util.RunnerState.Prompt
use rinklers.Util.RunnerState.Prompt.{PromptRuns}
use rinklers.SectionRunner.{set_state, send, start, run_section, round}
use rinklers.SectionRunner.System.{requested, handle, asked}
use rinklers.SectionRunner.Invariant.{Inv}
use rinklers.SectionRunner.Exclusion.{lit}
use rinklers.SectionRunner.Waits.{WaitsFor, waits-WaitsFor}
use rinklers.SectionRunner.Threaded.{requests, stops, section_thread, Runs-Inv, stop-Runs}

-- the thread waits
abbrev asleep : ThreadState section_thread
asleep = record (begin section_thread (λ i. 10)) { phase = waiting wait }

abbrev woken_once : ThreadState section_thread
woken_once = make_round (Shared section_thread) (thread_round section_thread) (
    update (Shared section_thread) (thread_round section_thread) asleep
      (called_in section_thread (requests 4 100 0)))

woken_once-Runs :
    Runs section_thread (begin section_thread (λ i. 10)) (requests 4 100 0 ∷ []) woken_once
unfolding new_state enter update notify
woken_once-Runs = steps (calls (steps begun (locks wait refl)) (requests 4 100 0)) (rounds refl)

-- The section is on.
started_log : woken_once.content.sys.log ≡ (10, set_state 4 true) ∷ (10, send 0 start) ∷ []
unfolding make_round update new_state handle round run_section
started_log = refl

Runs-Inv_example : Inv (asked (requested 4 100 0 ∷ [])) woken_once.content.sys
Runs-Inv_example = Runs-Inv (λ i. 10) (requests 4 100 0 ∷ []) woken_once woken_once-Runs

stop-Runs_example :
    (u : ThreadState section_thread) × Alone
      (Shared section_thread)
      (thread_round section_thread)
      (update
        (Shared section_thread)
        (thread_round section_thread)
        woken_once
        (called_in section_thread stops))
      u
    × (u.phase ≡ ended)
    × ((sec : ℕ) → lit sec false u.content.sys.log ≡ false)
unfolding make_round update new_state handle round run_section
stop-Runs_example =
    stop-Runs (λ i. 10) (requests 4 100 0 ∷ []) woken_once woken_once-Runs (λ h. cc h) (λ h. cc h)

-- The request has been started, and the thread waits for its end.
abbrev watering : ThreadState section_thread
watering = record woken_once { phase = waiting (at_most 100) }

watering-PromptRuns :
    PromptRuns section_thread (begin section_thread (λ i. 10)) (requests 4 100 0 ∷ []) watering
unfolding new_state enter update notify make_round handle round run_section
watering-PromptRuns =
    Prompt.steps
      (Prompt.steps
        (Prompt.calls (Prompt.steps Prompt.begun (locks wait refl)) tt (requests 4 100 0))
        (rounds refl))
      (locks (at_most 100) refl)

waits-WaitsFor_example :
    WaitsFor
      (at_most 100)
      watering.content.sys.now
      watering.content.sys.state
      watering.content.sys.current
waits-WaitsFor_example =
    waits-WaitsFor (λ i. 10) (requests 4 100 0 ∷ []) watering (at_most 100) watering-PromptRuns refl
