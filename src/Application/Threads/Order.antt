-- ===== src/Application/Threads/Order.antt =====
-- In which order the threads end.
use rinklers.Prelude.{◌≢◌, ℕ, ◌≡◌, refl, ap, ◌∙◌, sym, none, List, true, false, subst, done}
use rinklers.Util.RunnerState.{Phase, ended}
use rinklers.Util.Durations.Library.{CharTables, Chrono}
use rinklers.Schedule.Chrono.{Calendar}
use rinklers.SectionRunner.{RunnerData}
use rinklers.ScheduleRunner
use rinklers.MqttApi.{Payloads}
use rinklers.Application.System.{Event, message, program_queues, serving_ends, handle}
use rinklers.Application.Threads.{
  Main, awaiting, stopping, joining_sections, joining_programs, finished, died, Threads, handled,
  opened, Step, receives, sections_locks, sections_times_out, sections_rounds, programs_locks,
  programs_times_out, programs_rounds, programs_queues, queue_program, main_panics, notified,
  signalled, signal_fails, stops_sections, stops_programs, finishes, Reach, here, later,
  sections_spuriously, programs_spuriously, take, round_programs, round_sections, stop_sections,
  stop_programs,
}
use rinklers.Schedule.{Schedule}
use rinklers.Config.{Config}
use rinklers.Application.{State, boot}
use rinklers.Application.System.Start.{boot-Begun}
use rinklers.Application.Threads.Quits.{AppEnds, message-KeepsQuits, program_round-KeepsQuits}
use rinklers.Application.Threads.Crashes.{
  program_queues-KeepsQuits, section_round-RoundKeeps, stopped_app, dropped_app,
}
use rinklers.Application.Threads.Phases.{
  notified-ended, told-ended, ended-told, entered-running, behind-ended, behind_crash-ended,
  after_request-ended, ended-after_request,
}

module _ (c : Calendar) (p : Payloads) (ch : CharTables) (k : Chrono) (prefix_len : ℕ) where
  open c use {DateTime}

  -- what has come to pass where `main` stands
  abbrev pub Place : Main → Threads c p ch k prefix_len → Type 0
  Place awaiting t = (t.app.runner.state.quit ≡ false) × (t.app.programs.quit ≡ false)
  Place stopping t = (t.app.runner.state.quit ≡ false) × (t.app.programs.quit ≡ false)
  Place died t = Unit
  Place joining_sections t = (t.app.runner.state.quit ≡ true) × (t.app.programs.quit ≡ false)
  Place joining_programs t =
      (t.sections ≡ ended) × (t.app.programs.quit ≡ true) × (t.app.crashed ≡ none)
  Place finished t = (t.sections ≡ ended) × (t.programs ≡ ended) × (t.app.crashed ≡ none)

  pub record InOrder (t : Threads c p ch k prefix_len) : Type 0 where
    pub flags : AppEnds c p ch k prefix_len t.app
    pub sections_end : t.sections ≡ ended → t.app.crashed ≡ none → t.app.runner.returned ≡ true
    pub programs_end : t.programs ≡ ended → t.app.programs_crashed ≡ false → t.app.returned ≡ true
    pub place : Place t.main t

  Place-kept :
      (m : Main) (s t : Threads c p ch k prefix_len)
      → Place m s
      → t.app.runner.state.quit ≡ s.app.runner.state.quit
      → t.app.programs.quit ≡ s.app.programs.quit
      → (s.sections ≡ ended → t.sections ≡ ended)
      → (s.programs ≡ ended → t.programs ≡ ended)
      → (s.sections ≡ ended → s.app.crashed ≡ none → t.app.crashed ≡ none)
      → Place m t
  Place-kept awaiting s t h a b f g i = (a ∙ h.0, b ∙ h.1)
  Place-kept stopping s t h a b f g i = (a ∙ h.0, b ∙ h.1)
  Place-kept died s t h a b f g i = tt
  Place-kept joining_sections s t h a b f g i = (a ∙ h.0, b ∙ h.1)
  Place-kept joining_programs s t h a b f g i = (f h.0, b ∙ h.1, i h.0 h.2)
  Place-kept finished s t h a b f g i = (f h.0, g h.1, i h.0 h.2)

  -- The MQTT API's thread has ended.
  still_serving :
      (s : Threads c p ch k prefix_len) (m : Main)
      → InOrder s
      → Place m s
      → InOrder (record s { app = handled c p ch k prefix_len serving_ends s.app; main = m })
  unfolding handle
  still_serving s m v h = record {
    flags = record { sections = v.flags.sections; programs = v.flags.programs };
    sections_end = v.sections_end;
    programs_end = v.programs_end;
    place = Place-kept m s _ h refl refl (λ e. e) (λ e. e) (λ e f. f);
  }

  Step-InOrder :
      (s t : Threads c p ch k prefix_len) (fs : List (Event c p ch k prefix_len))
      → Step c p ch k prefix_len s fs t
      → InOrder s
      → InOrder t
  unfolding take round_programs queue_program round_sections stop_sections stop_programs
      ScheduleRunner.drop
  Step-InOrder s t fs (receives m a on) v =
      let ((flags, sq, pq, ret, same), ret', same') =
        message-KeepsQuits c p ch k prefix_len s.app m v.flags in
      let app = handled c p ch k prefix_len (message m) s.app in
      record {
        flags = flags;
        sections_end = λ h e.
            ret
            ∙ v.sections_end (told-ended s.app.runner.state app.runner.state s.sections h)
                (sym same ∙ e);
        programs_end = λ h e. ret' ∙ v.programs_end h (sym same' ∙ e);
        place =
            Place-kept s.main s t v.place sq pq
              (ended-told s.app.runner.state app.runner.state s.sections) (λ h. h)
              (λ h e. same ∙ e);
      }
  Step-InOrder s t fs (sections_locks w a) v = record {
    flags = v.flags;
    sections_end = λ h. absurd (entered-running w h);
    programs_end = v.programs_end;
    place = Place-kept s.main s t v.place refl refl (λ h. cc (a, h)) (λ h. h) (λ h e. e);
  }
  Step-InOrder s t fs (sections_times_out d a) v = record {
    flags = v.flags;
    sections_end = λ h. cc h;
    programs_end = v.programs_end;
    place = Place-kept s.main s t v.place refl refl (λ h. cc (a, h)) (λ h. h) (λ h e. e);
  }
  Step-InOrder s t fs (sections_rounds l a) v =
      let r = section_round-RoundKeeps c p ch k prefix_len s.app l v.flags in
      record {
        flags = r.ends;
        sections_end = λ h e. behind_crash-ended _ _ _ h e;
        programs_end = λ h e. r.returned_same ∙ v.programs_end h (sym r.crashed_same ∙ e);
        place =
            Place-kept s.main s t v.place r.quit r.programs_same (λ h. cc (a, h)) (λ h. h)
              (λ h e. cc (a, h));
      }
  Step-InOrder s t fs (programs_locks w a b) v = record {
    flags = v.flags;
    sections_end = v.sections_end;
    programs_end = λ h. absurd (entered-running w h);
    place = Place-kept s.main s t v.place refl refl (λ h. h) (λ h. cc (a, h)) (λ h e. e);
  }
  Step-InOrder s t fs (programs_times_out d a) v = record {
    flags = v.flags;
    sections_end = v.sections_end;
    programs_end = λ h. cc h;
    place = Place-kept s.main s t v.place refl refl (λ h. h) (λ h. cc (a, h)) (λ h e. e);
  }
  Step-InOrder s t fs (programs_rounds now l a) v =
      let ((flags, sq, pq, ret, same), _, _) =
        program_round-KeepsQuits c p ch k prefix_len s.app now l v.flags in
      record {
        flags = flags;
        sections_end = λ h e. ret ∙ v.sections_end h (sym same ∙ e);
        programs_end = λ h e. behind-ended _ _ h;
        place = Place-kept s.main s t v.place sq pq (λ h. h) (λ h. cc (a, h)) (λ h e. same ∙ e);
      }
  Step-InOrder s t fs (programs_queues r rs a) v =
      let ((flags, sq, pq, ret, same), ret', before, _) =
        program_queues-KeepsQuits c p ch k prefix_len s.app v.flags in
      let app = handled c p ch k prefix_len program_queues s.app in
      record {
        flags = flags;
        sections_end = λ h e.
            ret
            ∙ v.sections_end (told-ended s.app.runner.state app.runner.state s.sections h)
                (sym same ∙ e);
        programs_end = λ h e.
            ret'
            ∙ v.programs_end (after_request-ended app.programs_crashed s.programs h e) (before e);
        place =
            Place-kept s.main s t v.place sq pq
              (ended-told s.app.runner.state app.runner.state s.sections)
              (ended-after_request app.programs_crashed s.programs) (λ h e. same ∙ e);
      }
  Step-InOrder s t fs (signalled a) v =
      still_serving s stopping v (subst (λ m. Place m s) a v.place)
  Step-InOrder s t fs (signal_fails a) v = still_serving s died v tt
  Step-InOrder s t fs (stops_sections a live) v =
      let place : Place stopping s = subst (λ m. Place m s) a v.place in
      subst
        (λ app.
          InOrder (record s { app = app; sections = notified s.sections; main = joining_sections }))
        (sym (stopped_app c p ch k prefix_len s.app live))
        (record {
          flags = record {
            sections = record { told = λ h. refl; idle = v.flags.sections.idle };
            programs = v.flags.programs;
          };
          sections_end = λ h e. v.sections_end (notified-ended s.sections h) e;
          programs_end = v.programs_end;
          place = (refl, place.1);
        })
  Step-InOrder s t fs (stops_programs a b live none_left sound) v =
      subst
        (λ app.
          InOrder (record s { app = app; programs = notified s.programs; main = joining_programs }))
        (sym (dropped_app c p ch k prefix_len s.app none_left sound))
        (record {
          flags = record { sections = v.flags.sections; programs = λ h. refl };
          sections_end = v.sections_end;
          programs_end = λ h e. v.programs_end (notified-ended s.programs h) e;
          place = (b, refl, live);
        })
  Step-InOrder s t fs (finishes a b sound) v =
      let place : Place joining_programs s = subst (λ m. Place m s) a v.place in
      record {
        flags = v.flags;
        sections_end = v.sections_end;
        programs_end = v.programs_end;
        place = (place.0, b, place.2);
      }
  Step-InOrder s t fs (main_panics a) v = record {
    flags = v.flags;
    sections_end = v.sections_end;
    programs_end = v.programs_end;
    place = tt;
  }

  Reach-InOrder :
      (s t : Threads c p ch k prefix_len) (es : List (Event c p ch k prefix_len))
      → Reach c p ch k prefix_len s es t
      → InOrder s
      → InOrder t
  Reach-InOrder s t es here v = v
  Reach-InOrder s t es (later {es = es'} {fs = fs} {t = u} h step) v =
      Step-InOrder u t fs step (Reach-InOrder s u es' h v)
  Reach-InOrder s t es (sections_spuriously {t = u} w h at) v =
      let i = Reach-InOrder s u es h v in
      record {
        flags = i.flags;
        sections_end = λ e. cc e;
        programs_end = i.programs_end;
        place = Place-kept u.main u t i.place refl refl (λ e. cc (at, e)) (λ e. e) (λ e f. f);
      }
  Reach-InOrder s t es (programs_spuriously {t = u} w h at) v =
      let i = Reach-InOrder s u es h v in
      record {
        flags = i.flags;
        sections_end = i.sections_end;
        programs_end = λ e. cc e;
        place = Place-kept u.main u t i.place refl refl (λ e. e) (λ e. cc (at, e)) (λ e f. f);
      }

  -- From the start on, each thread ends only when it is told to or panics, and `main` joins them in order.
  pub boot-InOrder :
      (at : ℕ → DateTime) (config : Config (Schedule c)) (st : State c) (x y : Phase)
      (es : List (Event c p ch k prefix_len)) (t : Threads c p ch k prefix_len)
      → boot c at config ≡ done st
      → x ≢ ended
      → y ≢ ended
      → Reach c p ch k prefix_len (opened c p ch k prefix_len st x y) es t
      → InOrder t
  boot-InOrder at config st x y es t h some_sections some_programs reach =
      let b = boot-Begun c at config st h in
      Reach-InOrder _ t es reach (record {
        flags = record {
          sections = record { told = λ e. cc e; idle = λ e. refl };
          programs = λ e. cc e;
        };
        sections_end = λ e. absurd (some_sections e);
        programs_end = λ e. absurd (some_programs e);
        place = (ap (λ (d : RunnerData). d.quit) b.idle, b.running);
      })
