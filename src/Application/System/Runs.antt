-- ===== src/Application/System/Runs.antt =====
-- The preservation of what holds in every run of the whole program, by all events.
use rinklers.Prelude.{
  Option, none, some, inl, inr, Bool-cases, ◌||◌, ℕ, refl, sym, ◌∙◌, List, [], ◌∷◌, ◌++◌, Bool,
  true, false, if◌then◌else◌, length, append_assoc, append-nil, subst,
}
use rinklers.Util.Durations.Library.{CharTables, Chrono}
use rinklers.Schedule.Chrono.{Calendar}
use rinklers.Section.{noop_section, log_section}
use rinklers.SectionRunner.{SecRun, run_section}
use rinklers.SectionRunner.Logging.{pop-append}
use rinklers.SectionRunner.Invariant.{Inv}
use rinklers.SectionRunner.System.{stopped, woken}
use rinklers.ScheduleRunner
use rinklers.ScheduleRunner.{drop}
use rinklers.ScheduleRunner.Items.{All-append, round-AllItems}
use rinklers.ProgramRunner.{Prog}
use rinklers.Config.{SectionConfig}
use rinklers.MqttApi.{Payloads, Incoming, process_msg}
use rinklers.MqttApi
use rinklers.MqttApi.Changes.{process_msg-Changes}
use rinklers.Application.System.{
  program_queues, refuse_message, stop_runner, queue_next, busy, prints, crash, section_round_of,
  take_message, round_of_programs, skip, App, Event, message, program_round, section_round,
  serving_ends, section_runner_stopped, program_runner_stopped, survives, effects_of, handle, run,
  added, made,
}
use rinklers.Application.System.Sections.{configs-apply_effects}
use rinklers.Application.System.Requests.{
  skip-append, skip-length, requests-Inv, event-Inv, InRange, ItemsInRange,
}
use rinklers.Application.System.Soundness.{
  Sound, live, message-configs, requests_of-InRange, Sound-same, message-Sound,
}

module _ (c : Calendar) (p : Payloads) (ch : CharTables) (k : Chrono) (prefix_len : ℕ) where
  program_round-Sound :
      (confs : List SectionConfig) (rs : List SecRun) (app : App c p ch k prefix_len)
      (now later : ℕ → c.DateTime)
      → Sound c p ch k prefix_len confs rs app
      → Sound c p ch k prefix_len confs rs (round_of_programs c p ch k prefix_len app now later)
  program_round-Sound confs rs app now later v =
      let r = ScheduleRunner.round c (Prog c) now later app.programs app.period in
      let (left, executed) =
        round-AllItems c (Prog c) (λ (q : Prog c). ItemsInRange (length confs) q.sequence) now later
          app.programs app.period v.items in
      record {
        served = v.served;
        known = v.known;
        asked = requests_of-InRange c p ch k prefix_len (length confs) r.executed app.chan executed;
        items = left;
        as_configured = v.as_configured;
      }

  -- the app with what a program has yet to request, and what a panic has lost
  abbrev with :
      App c p ch k prefix_len → List SecRun → Option (List SecRun) → App c p ch k prefix_len
  with app pending crashed = record app { pending = pending; crashed = crashed }

  queue_next-Sound :
      (confs : List SectionConfig) (rs : List SecRun) (app : App c p ch k prefix_len)
      (pending : List SecRun) (o : Option (List SecRun))
      → Sound c p ch k prefix_len confs rs (with app pending o)
      → let app' = queue_next c p ch k prefix_len (with app pending o) pending o in
        Sound c p ch k prefix_len confs
          (rs ++ skip (length app.runner.state.queue) app'.runner.state.queue)
          app'
  unfolding run_section
  queue_next-Sound confs rs app [] o v = rw (skip-length app.runner.state.queue, append-nil rs) v
  queue_next-Sound confs rs app (r ∷ qs) (some l) v =
      rw (skip-length app.runner.state.queue, append-nil rs)
        (record {
          served = v.served;
          known = v.known;
          asked = tt;
          items = v.items;
          as_configured = v.as_configured;
        })
  queue_next-Sound confs rs app (r ∷ qs) none v =
      rw (skip-append app.runner.state.queue (r ∷ [])) (record {
        served = requests-Inv rs (r ∷ []) app.runner v.served;
        known = All-append (InRange (length confs)) rs (r ∷ []) v.known (v.asked.0, tt);
        asked = v.asked.1;
        items = v.items;
        as_configured = v.as_configured;
      })

  crash-Sound :
      (confs : List SectionConfig) (rs : List SecRun) (app : App c p ch k prefix_len)
      → Sound c p ch k prefix_len confs rs (live c p ch k prefix_len app)
      → Sound c p ch k prefix_len confs rs (crash c p ch k prefix_len app)
  crash-Sound confs rs app v = record {
    served =
        subst
          (λ q. Inv rs (record (app.runner) { state = record (app.runner.state) { queue = q } }))
          (sym (pop-append app.runner.state app.runner.current)) v.served;
    known = v.known;
    asked = v.asked;
    items = v.items;
    as_configured = v.as_configured;
  }

  section_round-Sound :
      (confs : List SectionConfig) (rs : List SecRun) (app : App c p ch k prefix_len) (later : ℕ)
      (o : Option (List SecRun))
      → Sound c p ch k prefix_len confs rs (record app { crashed = o })
      → Sound c p ch k prefix_len confs rs
          (section_round_of c p ch k prefix_len (record app { crashed = o }) later o)
  section_round-Sound confs rs app later (some l) v = v
  section_round-Sound confs rs app later none v =
      elim (Bool-cases (prints c p ch k prefix_len app later)) [
        | inl printed ↦ rw printed (record {
          served = event-Inv rs app.runner (woken later) refl v.served;
          known = v.known;
          asked = v.asked;
          items = v.items;
          as_configured =
              configs-apply_effects (effects_of c p ch k prefix_len app.runner later) app.sections
              ∙ v.as_configured;
        })
        | inr unprinted ↦ rw unprinted (crash-Sound confs rs app v)
      ]

  messages-Sound :
      (confs : List SectionConfig) (rs : List SecRun) (app : App c p ch k prefix_len)
      (m : Incoming p) (b : Bool) (o : Option (List SecRun))
      → Sound c p ch k prefix_len confs rs (record app { crashed = o; serving = b })
      → let app0 = record app { crashed = o; serving = b } in
        let app' =
          if b
          then (elim o [
            | none ↦ take_message c p ch k prefix_len app0 m
            | some l ↦ refuse_message c p ch k prefix_len app0 m
          ])
          else app0 in
        Sound c p ch k prefix_len confs
          (rs ++ skip (length app.runner.state.queue) app'.runner.state.queue)
          app'
  messages-Sound confs rs app m false o v = rw (skip-length app.runner.state.queue, append-nil rs) v
  messages-Sound confs rs app m true none v =
      let st : MqttApi.State = record {
        sections = app.sections;
        section_runner = app.runner.state;
      } in
      let r = process_msg p ch k prefix_len st m app.chan in
      message-Sound c p ch k prefix_len confs rs (record app { serving = true }) _ r.1
        (survives c p ch k prefix_len r.0) v (process_msg-Changes p ch k prefix_len st m app.chan)
  messages-Sound confs rs app m true (some l) v =
      let st : MqttApi.State = record {
        sections = app.sections;
        section_runner = app.runner.state;
      } in
      Sound-same c p ch k prefix_len confs rs _ (record app { crashed = some l; serving = true }) _
        _ _ v
        (message-configs c p ch k prefix_len _ st _ app.chan
          (process_msg-Changes p ch k prefix_len st m app.chan))
        (skip-length app.runner.state.queue)

  stopped-Sound :
      (confs : List SectionConfig) (rs : List SecRun) (app : App c p ch k prefix_len)
      (o : Option (List SecRun))
      → Sound c p ch k prefix_len confs rs (record app { crashed = o })
      → Sound c p ch k prefix_len confs rs
          (stop_runner c p ch k prefix_len (record app { crashed = o }) o)
  stopped-Sound confs rs app (some l) v = v
  stopped-Sound confs rs app none v = record {
    served = event-Inv rs app.runner stopped refl v.served;
    known = v.known;
    asked = v.asked;
    items = v.items;
    as_configured = v.as_configured;
  }

  pub handle-Sound :
      (confs : List SectionConfig) (rs : List SecRun) (app : App c p ch k prefix_len)
      (e : Event c p ch k prefix_len)
      → Sound c p ch k prefix_len confs rs app
      → Sound c p ch k prefix_len confs
          (rs ++ added c p ch k prefix_len app e)
          (handle c p ch k prefix_len app e)
  unfolding handle drop
  handle-Sound confs rs app (message m) v = messages-Sound confs rs app m app.serving app.crashed v
  handle-Sound confs rs app (program_round now later) v =
      elim (Bool-cases
        (app.returned || busy c p ch k prefix_len app.pending app.programs_crashed)) [
          | inl no_round ↦ rw (append-nil rs, no_round) v
          | inr round ↦ rw (append-nil rs, round) (program_round-Sound confs rs app now later v)
        ]
  handle-Sound confs rs app program_queues v =
      queue_next-Sound confs rs app app.pending app.crashed v
  handle-Sound confs rs app (section_round later) v =
      rw (append-nil rs) (section_round-Sound confs rs app later app.crashed v)
  handle-Sound confs rs app serving_ends v =
      Sound-same c p ch k prefix_len confs rs [] app app.sections app.chan false v refl refl
  handle-Sound confs rs app section_runner_stopped v =
      rw (append-nil rs) (stopped-Sound confs rs app app.crashed v)
  handle-Sound confs rs app program_runner_stopped v =
      elim (Bool-cases (busy c p ch k prefix_len app.pending app.programs_crashed)) [
        | inl is_busy ↦ rw (append-nil rs, is_busy) v
        | inr free ↦
            rw (append-nil rs, free)
              (record {
                served = v.served;
                known = v.known;
                asked = v.asked;
                items = v.items;
                as_configured = v.as_configured;
              })
      ]

  pub run-Sound :
      (confs : List SectionConfig) (rs : List SecRun) (app : App c p ch k prefix_len)
      (es : List (Event c p ch k prefix_len))
      → Sound c p ch k prefix_len confs rs app
      → Sound c p ch k prefix_len confs
          (rs ++ made c p ch k prefix_len app es)
          (run c p ch k prefix_len app es)
  unfolding run
  run-Sound confs rs app [] v = rw (append-nil rs) v
  run-Sound confs rs app (e ∷ es) v =
      subst
        (λ l.
          Sound c p ch k prefix_len confs l
            (run c p ch k prefix_len (handle c p ch k prefix_len app e) es))
        (append_assoc rs (added c p ch k prefix_len app e) _)
        (run-Sound confs (rs ++ added c p ch k prefix_len app e) (handle c p ch k prefix_len app e)
          es (handle-Sound confs rs app e v))
