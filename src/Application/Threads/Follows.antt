-- ===== src/Application/Threads/Follows.antt =====
-- The threads do to the data what their events do.
use rinklers.Prelude.{ℕ, ◌≡◌, refl, ap, ◌∙◌, sym, List, [], ◌∷◌, ◌++◌}
use rinklers.Util.Durations.Library.{CharTables, Chrono}
use rinklers.Schedule.Chrono.{Calendar}
use rinklers.MqttApi.{Payloads}
use rinklers.Application.System.{App, Event, run}
use rinklers.Application.Threads.{
  Threads, Step, receives, sections_locks, sections_times_out, sections_rounds, programs_locks,
  programs_times_out, programs_rounds, programs_queues, main_panics, queue_program, signalled,
  signal_fails, stops_sections, stops_programs, finishes, Reach, here, later, sections_spuriously,
  programs_spuriously, take, round_programs, round_sections, stop_sections, stop_programs,
}

module _ (c : Calendar) (p : Payloads) (ch : CharTables) (k : Chrono) (prefix_len : ℕ) where
  run-append :
      (es : List (Event c p ch k prefix_len)) (a : App c p ch k prefix_len)
      (fs : List (Event c p ch k prefix_len))
      → run c p ch k prefix_len a (es ++ fs)
        ≡ run c p ch k prefix_len (run c p ch k prefix_len a es) fs
  unfolding run
  run-append [] a fs = refl
  run-append (e ∷ es) a fs = run-append es _ fs

  Step-run :
      (s t : Threads c p ch k prefix_len) (fs : List (Event c p ch k prefix_len))
      → Step c p ch k prefix_len s fs t
      → t.app ≡ run c p ch k prefix_len s.app fs
  unfolding run take queue_program round_programs round_sections stop_sections stop_programs
  Step-run s t fs (receives m a on) = refl
  Step-run s t fs (sections_locks w a) = refl
  Step-run s t fs (sections_times_out d a) = refl
  Step-run s t fs (sections_rounds l a) = refl
  Step-run s t fs (programs_locks w a b) = refl
  Step-run s t fs (programs_times_out d a) = refl
  Step-run s t fs (programs_rounds now l a) = refl
  Step-run s t fs (programs_queues r rs a) = refl
  Step-run s t fs (signalled a) = refl
  Step-run s t fs (signal_fails a) = refl
  Step-run s t fs (stops_sections a b) = refl
  Step-run s t fs (stops_programs a b d e f) = refl
  Step-run s t fs (finishes a b d) = refl
  Step-run s t fs (main_panics a) = refl

  -- Whatever the threads and `main` do, in any order, spurious wake-ups included: the data and the sections are
  -- those of the events.
  pub reach-run :
      (s t : Threads c p ch k prefix_len) (es : List (Event c p ch k prefix_len))
      → Reach c p ch k prefix_len s es t
      → t.app ≡ run c p ch k prefix_len s.app es
  unfolding run
  reach-run s t es here = refl
  reach-run s t es (later {es = es'} {fs = fs} {t = u} h step) =
      Step-run u t fs step
      ∙ ap (λ a. run c p ch k prefix_len a fs) (reach-run s u es' h)
      ∙ sym (run-append es' s.app fs)
  reach-run s t es (sections_spuriously {t = u} w h at) = reach-run s u es h
  reach-run s t es (programs_spuriously {t = u} w h at) = reach-run s u es h
