-- ===== src/Application/System/Watering.antt =====
-- From a configuration to the water: the start of src/main.rs, a round of the program runner, and the section
-- runner left to itself.
use rinklers.Prelude.{
  ℕ, zero, suc, ◌+◌, ◌*◌, ◌≡◌, refl, sym, ap, ◌∙◌, Option, none, some, List, [], map, false, length,
  done, panicked, subst, arith, All, ◌∷◌, ◌++◌, append-nil, append_assoc, Bool, true, Bool-cases,
  inl, inr,
}
use rinklers.Util.WaitPeriod.{wait, no_wait}
use rinklers.Util.Durations.Library.{CharTables, Chrono}
use rinklers.Schedule.Chrono.{Calendar}
use rinklers.Schedule.{Schedule}
use rinklers.SectionRunner
use rinklers.SectionRunner.{SecRun, RunnerData}
use rinklers.SectionRunner.Logging.{Printable, Ready, round_prints-Ready, round-Ready}
use rinklers.ScheduleRunner
use rinklers.ProgramRunner.{Prog}
use rinklers.ProgramRunner.Start.{execute_all-requests_of}
use rinklers.Application.System.Start.{boot-Begun}
use rinklers.SectionRunner.System
use rinklers.SectionRunner.System.{System, woken}
use rinklers.SectionRunner.Draining.{timeout, serve, back_to_back, total, idle_at, serve-queue}
use rinklers.ProgramRunner.Start.{due_programs, requests_of}
use rinklers.Config.{Config}
use rinklers.Config.Programs.{first_out_of}
use rinklers.MqttApi.{Payloads}
use rinklers.Application.{State, boot}
use rinklers.Application.Boot.{built, next_queue, Boots, boot-Boots}
use rinklers.Application.System.{
  App, program_round, program_queues, section_round, launched, handle, prints, round_of_sections,
}

-- the requests of the programs of the configuration that are due
abbrev pub planned : (c : Calendar) → (at now : ℕ → c.DateTime) → Config (Schedule c) → List SecRun
planned c at now config =
    requests_of c (due_programs c at now 0 (map (λ p. built c p) config.programs)) 0

planned-queue :
    (c : Calendar) (at now later : ℕ → c.DateTime) (config : Config (Schedule c)) (st : State c)
    → boot c at config ≡ done st
    → next_queue c now later wait 0 st ≡ record { quit = false; queue = planned c at now config }
planned-queue c at now later config st h =
    by_items (first_out_of (Schedule c) _ config.programs) (boot-Boots c at now later wait 0 config)
  where
    by_items :
        (o : Option ℕ)
        → Boots c at now later wait 0 config o (boot c at config)
        → next_queue c now later wait 0 st
          ≡ record { quit = false; queue = planned c at now config }
    by_items none (st', ran, _, _, _, queue) =
        let same : st' ≡ st = cc (ran, h) in
        subst
          (λ s.
            next_queue c now later wait 0 s
            ≡ record { quit = false; queue = planned c at now config })
          same queue
    by_items (some i) ran = let no_start : panicked ≡ done st = sym ran ∙ h in cc no_start

module _ (c : Calendar) (p : Payloads) (ch : CharTables) (k : Chrono) (prefix_len : ℕ) where
  -- at most `rounds` rounds of the section runner, as long as it waits with a timeout
  abbrev pub serve_sections : ℕ → App c p ch k prefix_len → App c p ch k prefix_len
  serve_sections zero app = app
  serve_sections (suc rounds) app = elim (timeout app.runner.period) [
    | none ↦ app
    | some d ↦ serve_sections rounds (handle c p ch k prefix_len app (section_round d))
  ]

  -- The section runner is notified: its wait is over.
  abbrev pub notified : App c p ch k prefix_len → App c p ch k prefix_len
  notified app = record app { runner = record (app.runner) { period = no_wait } }

  -- so many of the requests of the program runner's round
  abbrev pub queued : ℕ → App c p ch k prefix_len → App c p ch k prefix_len
  queued zero app = app
  queued (suc n) app = queued n (handle c p ch k prefix_len app program_queues)

  queued-all :
      (qs : List SecRun) (app : App c p ch k prefix_len)
      → queued (length qs) (record app { pending = qs; crashed = none }) ≡ record app {
        runner = record (app.runner) {
          state = record (app.runner.state) { queue = app.runner.state.queue ++ qs };
        };
        pending = [];
        crashed = none;
      }
  unfolding handle SectionRunner.run_section
  queued-all [] app =
      ap
        (λ q. record app {
          runner = record (app.runner) { state = record (app.runner.state) { queue = q } };
          pending = [];
          crashed = none;
        })
        (sym (append-nil app.runner.state.queue))
  queued-all (r ∷ qs) app =
      queued-all qs (record app {
        runner = record (app.runner) {
          state = record (app.runner.state) { queue = app.runner.state.queue ++ r ∷ [] };
        };
      })
      ∙ ap
          (λ q. record app {
            runner = record (app.runner) { state = record (app.runner.state) { queue = q } };
            pending = [];
            crashed = none;
          })
          (append_assoc app.runner.state.queue (r ∷ []) qs)

  prints-Ready :
      (app : App c p ch k prefix_len) (d : ℕ)
      → Ready app.runner.state
      → prints c p ch k prefix_len app d ≡ true
  prints-Ready app d v =
      let line =
        round_prints-Ready ch k (app.runner.now + d) app.runner.state app.runner.current v in
      elim (Bool-cases app.runner.returned) [ inl over ↦ rw over refl | inr on ↦ rw on line ]

  woken-Ready :
      (s : System) (d : ℕ) → Ready s.state → Ready (SectionRunner.System.handle s (woken d)).state
  unfolding SectionRunner.System.handle
  woken-Ready s d v = by_returned s.returned
    where
      by_returned : (b : Bool) → Ready (SectionRunner.System.wake b s (s.now + d)).state
      by_returned true = v
      by_returned false = round-Ready (s.now + d) s.state s.current s.period v

  serve_sections-serve :
      (rounds : ℕ) (app : App c p ch k prefix_len)
      → app.crashed ≡ none
      → Ready app.runner.state
      → (serve_sections rounds app).runner ≡ serve rounds app.runner
  unfolding serve handle
  serve_sections-serve zero app live v = refl
  serve_sections-serve (suc rounds) app live v = by_timeout (timeout app.runner.period) (λ d.
      let app' = round_of_sections c p ch k prefix_len app d in
      let same : handle c p ch k prefix_len app (section_round d) ≡ app' =
        rw (live, prints-Ready app d v) refl in
      ap (λ a. App.runner (serve_sections rounds a)) same
      ∙ serve_sections-serve rounds app' live (woken-Ready app.runner d v))
    where
      by_timeout :
          (o : Option ℕ)
          → ((d : ℕ)
              → (serve_sections rounds (handle c p ch k prefix_len app (section_round d))).runner
                ≡ serve rounds (SectionRunner.System.handle app.runner (woken d)))
          → (App.runner (elim o [
            | none ↦ app
            | some d ↦ serve_sections rounds (handle c p ch k prefix_len app (section_round d))
          ]))
            ≡ elim o [
              | none ↦ app.runner
              | some d ↦ serve rounds (SectionRunner.System.handle app.runner (woken d))
            ]
      by_timeout none h = refl
      by_timeout (some d) h = h d

  -- After a start that succeeds, a round of the program runner and all requests that it makes, the section
  -- runner, woken and then left to itself, turns on the sections of the programs that are due, in the order
  -- of the configuration and of each sequence, one at a time and back to back, each for exactly its configured
  -- duration. It turns on nothing else, and then waits with an empty queue. No duration is beyond what the log
  -- can print.
  pub boot-serve :
      (at now later : ℕ → c.DateTime) (config : Config (Schedule c)) (st : State c)
      → boot c at config ≡ done st
      → All Printable (planned c at now config)
      → let q = planned c at now config in
        let app = notified (
          queued (length q) (
            handle c p ch k prefix_len
              (launched c p ch k prefix_len st)
              (program_round now later))) in
        (serve_sections (2 * length q + 1) app).runner
        ≡ idle_at (total q) [] wait (back_to_back 0 q)
  unfolding handle
  boot-serve at now later config st h printable =
      let q = planned c at now config in
      let executed = (ScheduleRunner.round c (Prog c) now later st.program_data wait).executed in
      let qs = requests_of c executed 0 in
      let d = st.section_data in
      let state : record d { queue = d.queue ++ qs } ≡ record { quit = false; queue = q } =
        sym (execute_all-requests_of c executed d 0) ∙ planned-queue c at now later config st h in
      let same : qs ≡ q =
        sym (ap (λ (x : RunnerData). x.queue ++ qs) (boot-Begun c at config st h).idle)
        ∙ ap (λ (x : RunnerData). x.queue) state in
      let start =
        handle c p ch k prefix_len (launched c p ch k prefix_len st) (program_round now later) in
      let rounds = 2 * length q + 1 in
      subst
        (λ (l : List SecRun).
          (serve_sections rounds (notified (queued (length l) start))).runner
          ≡ idle_at (total q) [] wait (back_to_back 0 q))
        same
        (ap (λ a. App.runner (serve_sections rounds (notified a))) (queued-all qs start)
          ∙ serve_sections-serve rounds _ refl
              (subst Ready (sym state) (record { goes_on = refl; printable = printable }))
          ∙ ap
              (λ x.
                serve rounds (record (SectionRunner.System.init) { state = x; period = no_wait }))
              state
          ∙ serve-queue 0 q []
          ∙ ap (λ t. idle_at t [] wait (back_to_back 0 q)) (omega arith))
