-- ===== src/SectionRunner/Examples.antt =====
-- Tests of the section runner, and its theorems at concrete events.
use rinklers.Prelude.{◌+◌, ◌*◌, ◌≡◌, refl, List, [], ◌∷◌, ◌++◌, true, false, length}
use rinklers.Util.WaitPeriod.{wait, no_wait}
use rinklers.SectionRunner.{SecRun, set_state, send, start, finish, interrupted, round}
use rinklers.SectionRunner.System.{Event, requested, stopped, woken, init, run, asked}
use rinklers.SectionRunner.Invariant.{Inv}
use rinklers.SectionRunner.Protocol.{run-init-Inv}
use rinklers.SectionRunner.Exclusion.{lit, waters, run_one_section}
use rinklers.SectionRunner.Draining.{serve, idle_at, back_to_back, total, serve-queue}

-- Two requests, a full run, and a stop in the second.
abbrev day_plan : List Event
day_plan =
    requested 4 100 0
    ∷ requested 5 200 1
    ∷ woken 10
    ∷ woken 100
    ∷ woken 0
    ∷ woken 50
    ∷ stopped
    ∷ woken 7
    ∷ []

day_log :
    (run init day_plan).log
    ≡ (10, set_state 4 true)
      ∷ (10, send 0 start)
      ∷ (110, set_state 4 false)
      ∷ (110, send 0 finish)
      ∷ (110, set_state 5 true)
      ∷ (110, send 1 start)
      ∷ (167, set_state 5 false)
      ∷ (167, send 1 interrupted)
      ∷ []
unfolding run round
day_log = refl

run-init-Inv_example : Inv (asked day_plan) (run init day_plan)
run-init-Inv_example = run-init-Inv day_plan

day_plan_exclusive : lit 4 false (run init day_plan).log ≡ waters 4 (run init day_plan).current
day_plan_exclusive = run_one_section day_plan 4

abbrev two_requests : List SecRun
two_requests =
    record { sec = 4; dur = 100; notification_sender = 0 }
    ∷ record { sec = 5; dur = 200; notification_sender = 1 }
    ∷ []

serve-queue_example :
    serve (2 * length two_requests + 1) (idle_at 10 two_requests no_wait [])
    ≡ idle_at (10 + total two_requests) [] wait ([] ++ back_to_back 10 two_requests)
serve-queue_example = serve-queue 10 two_requests []

-- A stop between two runs tells nobody.
silent_stop : (run init (requested 4 100 0 ∷ stopped ∷ woken 1 ∷ [])).log ≡ []
unfolding run round
silent_stop = refl
