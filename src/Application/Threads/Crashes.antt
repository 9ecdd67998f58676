-- ===== src/Application/Threads/Crashes.antt =====
-- What the requests of programs, the rounds of the section runner and the stops keep, panics included.
use rinklers.Prelude.{
  ℕ, arith, ◌≡◌, ◌<◌, length, refl, none, some, List, [], ◌∷◌, Option, Bool, true, false,
  if◌then◌else◌,
}
use rinklers.Util.Durations.Library.{CharTables, Chrono}
use rinklers.Schedule.Chrono.{Calendar}
use rinklers.SectionRunner
use rinklers.SectionRunner.{Run, SecRun, RunnerData, round}
use rinklers.SectionRunner.System
use rinklers.SectionRunner.System.{System, woken}
use rinklers.ScheduleRunner
use rinklers.ProgramRunner.{Prog}
use rinklers.MqttApi.{Payloads}
use rinklers.Application.System.{
  App, program_queues, section_round, section_runner_stopped, program_runner_stopped, handle,
  queue_next, prints, crash, round_of_sections, section_round_of,
}
use rinklers.Application.Threads.Quits.{
  woken-Ends, AppEnds, sections_quit, programs_quit, KeepsQuits,
}

module _ (c : Calendar) (p : Payloads) (ch : CharTables) (k : Chrono) (prefix_len : ℕ) where
  -- A request of a program leaves the flags, and may only panic the program runner's thread.
  pub program_queues-KeepsQuits :
      (app : App c p ch k prefix_len)
      → AppEnds c p ch k prefix_len app
      → let app' = handle c p ch k prefix_len app program_queues in
        KeepsQuits c p ch k prefix_len app app'
        × (app'.returned ≡ app.returned)
        × (app'.programs_crashed ≡ false → app.programs_crashed ≡ false)
        × (app.crashed ≡ none → app'.programs_crashed ≡ app.programs_crashed)
  unfolding handle SectionRunner.run_section
  program_queues-KeepsQuits app v = by_next app.pending app.crashed
    where
      by_next :
          (rs : List SecRun) (o : Option (List SecRun))
          → let app' = queue_next c p ch k prefix_len app rs o in
            KeepsQuits c p ch k prefix_len app app'
            × (app'.returned ≡ app.returned)
            × (app'.programs_crashed ≡ false → app.programs_crashed ≡ false)
            × (o ≡ none → app'.programs_crashed ≡ app.programs_crashed)
      by_next [] o = ((v, refl, refl, refl, refl), refl, λ h. h, λ h. refl)
      by_next (r ∷ rs) (some l) = (
        (record { sections = v.sections; programs = v.programs }, refl, refl, refl, refl),
        refl,
        λ h. cc h,
        λ h. cc h,
      )
      by_next (r ∷ rs) none = (
        (
          record {
            sections = record { told = v.sections.told; idle = v.sections.idle };
            programs = v.programs;
          },
          refl,
          refl,
          refl,
          refl,
        ),
        refl,
        λ h. h,
        λ h. refl,
      )

  -- What a round of the section runner's thread keeps, and that it ends the thread if it is told to quit.
  pub record RoundKeeps (later : ℕ) (app app' : App c p ch k prefix_len) : Type 0 where
    pub ends : AppEnds c p ch k prefix_len app'
    pub quit : sections_quit c p ch k prefix_len app' ≡ sections_quit c p ch k prefix_len app
    pub programs_same :
        programs_quit c p ch k prefix_len app' ≡ programs_quit c p ch k prefix_len app
    pub returned_same : app'.returned ≡ app.returned
    pub pending_same : app'.pending ≡ app.pending
    pub crashed_same : app'.programs_crashed ≡ app.programs_crashed
    pub earlier : app'.crashed ≡ none → app.crashed ≡ none
    pub printed :
        prints c p ch k prefix_len app later ≡ true → app.crashed ≡ none → app'.crashed ≡ none
    pub last :
        sections_quit c p ch k prefix_len app ≡ true
        → app'.crashed ≡ none
        → app'.runner.returned ≡ true

  pub section_round-RoundKeeps :
      (app : App c p ch k prefix_len) (later : ℕ)
      → AppEnds c p ch k prefix_len app
      → RoundKeeps later app (handle c p ch k prefix_len app (section_round later))
  unfolding handle
  section_round-RoundKeeps app later v = by_crash app.crashed v
    where
      kept :
          (a : App c p ch k prefix_len) (l : List SecRun)
          → AppEnds c p ch k prefix_len a
          → a.crashed ≡ some l
          → RoundKeeps later a a
      kept a l e h = record {
        ends = e;
        quit = refl;
        programs_same = refl;
        returned_same = refl;
        pending_same = refl;
        crashed_same = refl;
        earlier = λ i. i;
        printed = λ q i. i;
        last = λ q i. cc (h, i);
      }

      by_print :
          (b : Bool)
          → prints c p ch k prefix_len app later ≡ b
          → AppEnds c p ch k prefix_len (record app { crashed = none })
          → RoundKeeps later
              (record app { crashed = none })
              (if b
                then round_of_sections c p ch k prefix_len (record app { crashed = none }) later
                else crash c p ch k prefix_len (record app { crashed = none }))
      by_print true e w =
          let (sections, same, ends) = woken-Ends app.runner later w.sections in
          record {
            ends = record { sections = sections; programs = w.programs };
            quit = same;
            programs_same = refl;
            returned_same = refl;
            pending_same = refl;
            crashed_same = refl;
            earlier = λ i. i;
            printed = λ q i. i;
            last = λ q i. ends q;
          }
      by_print false e w = record {
        ends = record {
          sections = record { told = w.sections.told; idle = w.sections.idle };
          programs = w.programs;
        };
        quit = refl;
        programs_same = refl;
        returned_same = refl;
        pending_same = refl;
        crashed_same = refl;
        earlier = λ i. refl;
        printed = λ q i. cc (e, q);
        last = λ q i. cc i;
      }

      by_crash :
          (o : Option (List SecRun))
          → AppEnds c p ch k prefix_len (record app { crashed = o })
          → RoundKeeps later
              (record app { crashed = o })
              (section_round_of c p ch k prefix_len (record app { crashed = o }) later o)
      by_crash (some l) w = kept (record app { crashed = some l }) l w refl
      by_crash none w = by_print (prints c p ch k prefix_len app later) refl w

  -- the stops, when they do not panic
  pub stopped_app :
      (app : App c p ch k prefix_len)
      → app.crashed ≡ none
      → handle c p ch k prefix_len app section_runner_stopped ≡ record app {
        runner = record (app.runner) { state = record (app.runner.state) { quit = true } };
      }
  unfolding handle SectionRunner.System.handle SectionRunner.stop
  stopped_app app live = rw live refl

  pub dropped_app :
      (app : App c p ch k prefix_len)
      → app.pending ≡ []
      → app.programs_crashed ≡ false
      → handle c p ch k prefix_len app program_runner_stopped
        ≡ record app { programs = ScheduleRunner.drop c (Prog c) app.programs }
  unfolding handle
  dropped_app app none_left live = rw (none_left, live) refl

  -- a request of a program, when it does not panic
  pub queued_pending :
      (app : App c p ch k prefix_len) (r : SecRun) (rs : List SecRun)
      → app.pending ≡ r ∷ rs
      → app.crashed ≡ none
      → (handle c p ch k prefix_len app program_queues).pending ≡ rs
  unfolding handle
  queued_pending app r rs h live = rw (h, live) refl

  pub queued_shorter :
      (app : App c p ch k prefix_len) (r : SecRun) (rs : List SecRun)
      → app.pending ≡ r ∷ rs
      → length (handle c p ch k prefix_len app program_queues).pending < length app.pending
  unfolding handle
  queued_shorter app r rs h = rw h (by_crash app.crashed)
    where
      by_crash :
          (o : Option (List SecRun))
          → length (queue_next c p ch k prefix_len app (r ∷ rs) o).pending < length (r ∷ rs)
      by_crash none = omega arith
      by_crash (some l) = omega arith
