-- ===== src/Program/Examples.antt =====
-- A program of two items, with the section runner.
use rinklers.Prelude.{
  ℕ, ◌+◌, ◌*◌, ◌≡◌, refl, none, some, List, [], ◌∷◌, ◌++◌, true, false, length, ltb, if◌then◌else◌,
}
use rinklers.Util.WaitPeriod.{wait, no_wait}
use rinklers.SectionRunner.System.{Event, requested, woken, init, run, asked}
use rinklers.SectionRunner.{start}
use rinklers.SectionRunner.Draining.{serve, idle_at, back_to_back}
use rinklers.Program.{
  ProgItem, Program, queue_run, execute, returned, blocked, run_sync, await_end, set_name,
  set_sequence, set_schedule, set_on_schedule_update,
}
use rinklers.Program.Sequence.{requests, messages, length_of, serve-execute}
use rinklers.Program.Returning.{run_sync-serve}
use rinklers.Program.Stopping.{run_sync_never_returns}

abbrev items : List ProgItem
items = record { section = 4; duration = 100 } ∷ record { section = 5; duration = 200 } ∷ []

-- the schedule is a number here
abbrev morning : Program ℕ
morning = record { name = "morning"; sequence = items; schedule = 3; on_schedule_update = none }

morning_served :
    serve
      (2 * length items + 1)
      (idle_at 10 (execute ℕ morning (record { quit = false; queue = [] }) 7).queue no_wait [])
    ≡ idle_at (10 + length_of items) [] wait ([] ++ back_to_back 10 (requests items 7))
morning_served = serve-execute morning 7 10 []

run_sync-serve_example :
    let queued = queue_run ℕ morning (record { quit = false; queue = [] }) 7 in
    run_sync queued.1 (λ ch. messages ch (serve 3 (idle_at 10 queued.0.queue no_wait [])).log) false
    ≡ (if ltb 3 (2 * length items) then blocked else returned)
run_sync-serve_example = run_sync-serve morning 7 10 [] 3 (λ ch le. refl)

-- nobody is told anything: `run_sync` waits for the second item
nothing_yet : run_sync (7 ∷ 8 ∷ []) (λ _. start ∷ []) false ≡ blocked
unfolding run_sync await_end
nothing_yet = refl

abbrev later : List Event
later = woken 1 ∷ requested 6 5 9 ∷ woken 1 ∷ []

run_sync_never_returns_example :
    let d = execute ℕ morning init.state 0 in
    let s' = run (record init { state = record d { quit = true } }) later in
    (s'.state.queue ≡ init.state.queue ++ requests items 0 ++ asked later)
    × (run_sync (queue_run ℕ morning init.state 0).1 (λ ch. messages ch s'.log) false ≡ blocked)
run_sync_never_returns_example =
    run_sync_never_returns morning init 0 later refl (λ e. cc e) (λ ch le. refl)

-- Setting the schedule calls the update function with the program as it then is.
update_called :
    let q = set_sequence ℕ (set_name ℕ morning "evening") [] in
    let r : Program ℕ = record {
      name = "evening";
      sequence = [];
      schedule = 8;
      on_schedule_update = some 2;
    } in
    (set_schedule ℕ (set_on_schedule_update ℕ q (some 2)) 8 ≡ (r, (2, r) ∷ []))
    × (set_schedule ℕ q 8 ≡ (record r { on_schedule_update = none }, []))
unfolding set_schedule set_on_schedule_update set_sequence set_name
update_called = (refl, refl)
