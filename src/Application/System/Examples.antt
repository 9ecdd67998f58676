-- ===== src/Application/System/Examples.antt =====
-- The garden of the other examples, from its start to its stop.
use rinklers.Prelude.{◌≡◌, refl, sym, ap, ◌∙◌, some, List, [], ◌∷◌, true, false, get_elem?, subst}
use rinklers.Prelude.{length, ◌+◌, ◌*◌, All, arith}
use rinklers.SectionRunner.Logging.{Printable, round_prints}
use rinklers.Util.WaitPeriod.{wait}
use rinklers.ScheduleRunner.{new_run}
use rinklers.Schedule.{
  next_weekday, next_run_after, over_weekdays, over_times, earlier, candidate_at, resolve_from,
  start_reference, start_bound,
}
use rinklers.SectionRunner.Draining.{idle_at, total, back_to_back}
use rinklers.Schedule.Plain.{plain}
use rinklers.Util.Durations.Examples.{ascii, lengths}
use rinklers.SectionRunner
use rinklers.SectionRunner.System
use rinklers.SectionRunner.{run_section}
use rinklers.Util.Durations.{duration_string, digits}
use rinklers.MqttApi.{names, text_eq, process_msg, request, run_section_for, read_digits, dispatch}
use rinklers.MqttApi.Changes.{IsQuiet}
use rinklers.MqttApi.Examples.{simple, to_beds}
use rinklers.Application.Examples.{garden, garden_state, garden_boots}
use rinklers.Application.System.{
  App, Event, message, program_round, program_queues, section_round, serving_ends,
  section_runner_stopped, program_runner_stopped, launched, handle, run, made,
}
use rinklers.Application.System.Soundness.{Sound}
use rinklers.Application.System.Start.{boot-run-Sound}
use rinklers.Application.System.Watering.{planned, notified, queued, serve_sections, boot-serve}
use rinklers.Application.System.Shown.{ShowsRun, boot-run-ShowsRun}

abbrev GardenEvent : Type 0
GardenEvent = Event plain simple ascii lengths 2

-- the program that is due, a request to run a section, rounds of the section runner, and the stops
abbrev day : List GardenEvent
day =
    program_round (λ i. 3510) (λ i. 3511)
    ∷ program_queues
    ∷ section_round 10
    ∷ program_queues
    ∷ message (to_beds "run_for" "90")
    ∷ section_round 100
    ∷ serving_ends
    ∷ section_runner_stopped
    ∷ section_round 50
    ∷ program_runner_stopped
    ∷ []

-- the same, with a section set by hand
abbrev day_by_hand : List GardenEvent
day_by_hand = message (to_beds "set_state" "true") ∷ day

run_for-IsQuiet : IsQuiet simple ascii lengths 2 (to_beds "run_for" "90")
unfolding names
run_for-IsQuiet topics request_type h at =
    let levels : topics ≡ "sections" ∷ "1" ∷ "run_for" ∷ [] = cc h in
    let asked : some request_type ≡ some "run_for" = sym at ∙ ap (λ ts. get_elem? ts 2) levels in
    let same : request_type ≡ "run_for" = cc asked in
    subst (λ r. text_eq r "set_state" ≡ false) (sym same) refl

boot-run-Sound_example :
    let app = launched plain simple ascii lengths 2 garden_state in
    Sound plain simple ascii lengths 2 garden.sections
      (made plain simple ascii lengths 2 app day_by_hand)
      (run plain simple ascii lengths 2 app day_by_hand)
boot-run-Sound_example =
    boot-run-Sound plain simple ascii lengths 2 (λ i. 700) garden garden_state day_by_hand
      garden_boots

boot-run-ShowsRun_example :
    ShowsRun plain simple ascii lengths 2
      (run plain simple ascii lengths 2 (launched plain simple ascii lengths 2 garden_state) day)
boot-run-ShowsRun_example =
    boot-run-ShowsRun plain simple ascii lengths 2 (λ i. 700) garden garden_state day garden_boots
      (tt, (tt, (tt, (tt, (run_for-IsQuiet, (tt, (tt, (tt, (tt, (tt, tt))))))))))

-- The weekly program is due.
planned_weekly :
    planned plain (λ i. 700) (λ i. 3510) garden
    ≡ record { sec = 1; dur = 100; notification_sender = 0 }
      ∷ record { sec = 0; dur = 200; notification_sender = 1 }
      ∷ []
unfolding new_run next_weekday next_run_after over_weekdays over_times earlier candidate_at
    resolve_from start_reference start_bound
planned_weekly = refl

boot-serve_example :
    let q = planned plain (λ i. 700) (λ i. 3510) garden in
    let app = notified plain simple ascii lengths 2 (
      queued plain simple ascii lengths 2 (length q) (
        handle plain simple ascii lengths 2
          (launched plain simple ascii lengths 2 garden_state)
          (program_round (λ i. 3510) (λ i. 3511)))) in
    (serve_sections plain simple ascii lengths 2 (2 * length q + 1) app).runner
    ≡ idle_at (total q) [] wait (back_to_back 0 q)
boot-serve_example =
    boot-serve plain simple ascii lengths 2 (λ i. 700) (λ i. 3510) (λ i. 3511) garden garden_state
      garden_boots
      (subst (λ q. All Printable q) (sym planned_weekly) (omega arith, (omega arith, tt)))

-- A run that is longer than chrono can print is on the queue: the thread panics with it in its hands, the
-- next request of a program panics the thread that makes it, and one over MQTT that of the MQTT API.
abbrev over_long : App plain simple ascii lengths 2
over_long = record (launched plain simple ascii lengths 2 garden_state) {
  runner = record (SectionRunner.System.init) {
    state = record {
      quit = false;
      queue =
          record { sec = 1; dur = 10000000000000000000000000; notification_sender = 0 }
          ∷ record { sec = 0; dur = 5; notification_sender = 1 }
          ∷ [];
    };
  };
  pending = record { sec = 0; dur = 5; notification_sender = 2 } ∷ [];
}

over_long_crashes :
    let app =
      run plain simple ascii lengths 2 over_long
        (section_round 10 ∷ program_queues ∷ message (to_beds "run_for" "90") ∷ []) in
    (app.crashed
      ≡ some (record { sec = 1; dur = 10000000000000000000000000; notification_sender = 0 } ∷ []))
    × (app.programs_crashed ≡ true)
    × (app.serving ≡ false)
unfolding run handle round_prints duration_string process_msg names request run_section_for
    read_digits dispatch run_section digits
over_long_crashes = (refl, refl, refl)
