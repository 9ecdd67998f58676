-- ===== src/Application/Threads/Stopping.antt =====
-- How `main` comes to its end after a signal.
use rinklers.Prelude.{
  ℕ, ◌≡◌, ◌≢◌, refl, ap, sym, ◌∙◌, none, List, [], ◌∷◌, true, false, subst, done,
}
use rinklers.Util.WaitPeriod.{wait, at_most, no_wait}
use rinklers.Util.RunnerState.{Phase, entering, waiting, ready, ended, notify, enter}
use rinklers.Util.Durations.Library.{CharTables, Chrono}
use rinklers.Schedule.Chrono.{Calendar}
use rinklers.Schedule.{Schedule}
use rinklers.Config.{Config}
use rinklers.SectionRunner.{SecRun}
use rinklers.ScheduleRunner
use rinklers.MqttApi.{Payloads}
use rinklers.Application.{State, boot}
use rinklers.Application.System.{
  App, Event, program_round, program_queues, section_runner_stopped, prints,
}
use rinklers.Application.Threads.{
  stopping, joining_sections, joining_programs, finished, notified, behind, Threads, opened,
  handled, round_programs, round_sections, stop_sections, stop_programs, Step, sections_locks,
  sections_times_out, sections_rounds, programs_locks, programs_times_out, programs_rounds,
  programs_queues, queue_program, stops_sections, stops_programs, finishes, Steps, still, moves,
  Reach,
}
use rinklers.Application.Threads.Quits.{AppEnds, program_round-KeepsQuits}
use rinklers.Application.Threads.Crashes.{
  program_queues-KeepsQuits, section_round-RoundKeeps, stopped_app, dropped_app, queued_pending,
}
use rinklers.Application.Threads.Phases.{
  ended-told, ended-behind_crash, after_request-ended, after_request-entering,
}
use rinklers.Application.Threads.Order.{Place, boot-InOrder}

-- The thread comes to its next round without a notification.
abbrev pub IsPrompt : Phase → Type 0
IsPrompt (entering wait) = ⊥
IsPrompt (entering (at_most d)) = Unit
IsPrompt (entering no_wait) = Unit
IsPrompt (waiting wait) = ⊥
IsPrompt (waiting (at_most d)) = Unit
IsPrompt (waiting no_wait) = ⊥
IsPrompt ready = Unit
IsPrompt ended = ⊥

-- A notification makes it so, unless the thread has ended or has yet to wait without a limit.
notified-IsPrompt : (x : Phase) → x ≢ ended → x ≢ entering wait → IsPrompt (notified x)
unfolding notify
notified-IsPrompt (entering wait) h k = absurd (k refl)
notified-IsPrompt (entering (at_most d)) h k = tt
notified-IsPrompt (entering no_wait) h k = tt
notified-IsPrompt (waiting w) h k = tt
notified-IsPrompt ready h k = tt
notified-IsPrompt ended h k = absurd (h refl)

module _ (c : Calendar) (p : Payloads) (ch : CharTables) (k : Chrono) (prefix_len : ℕ) where
  open c use {DateTime}

  -- Some steps lead to the return of `main`.
  abbrev pub Finishes : Threads c p ch k prefix_len → Type 0
  Finishes s =
      (es : List (Event c p ch k prefix_len)) × (t : Threads c p ch k prefix_len) × Steps c p ch k
        prefix_len s es t
      × (t.main ≡ finished)

  Step-Finishes :
      (s t : Threads c p ch k prefix_len) (es : List (Event c p ch k prefix_len))
      → Step c p ch k prefix_len s es t
      → Finishes t
      → Finishes s
  Step-Finishes s t es step (fs, u, steps, over) = (_, u, moves step steps, over)

  wake_sections :
      (s : Threads c p ch k prefix_len)
      → IsPrompt s.sections
      → Finishes (record s { sections = ready })
      → Finishes s
  unfolding enter
  wake_sections s prompt f = by_phase s.sections refl prompt
    where
      by_phase : (x : Phase) → s.sections ≡ x → IsPrompt x → Finishes s
      by_phase (entering wait) e i = elim i [ ]
      by_phase (entering (at_most d)) e i =
          Step-Finishes s _ _ (sections_locks (at_most d) e)
            (Step-Finishes _ _ _ (sections_times_out d refl) f)
      by_phase (entering no_wait) e i = Step-Finishes s _ _ (sections_locks no_wait e) f
      by_phase (waiting wait) e i = elim i [ ]
      by_phase (waiting (at_most d)) e i = Step-Finishes s _ _ (sections_times_out d e) f
      by_phase (waiting no_wait) e i = elim i [ ]
      by_phase ready e i = subst (λ x. Finishes (record s { sections = x })) (sym e) f
      by_phase ended e i = elim i [ ]

  wake_programs :
      (s : Threads c p ch k prefix_len)
      → IsPrompt s.programs
      → s.app.pending ≡ []
      → Finishes (record s { programs = ready })
      → Finishes s
  unfolding enter
  wake_programs s prompt none_left f = by_phase s.programs refl prompt
    where
      by_phase : (x : Phase) → s.programs ≡ x → IsPrompt x → Finishes s
      by_phase (entering wait) e i = elim i [ ]
      by_phase (entering (at_most d)) e i =
          Step-Finishes s _ _ (programs_locks (at_most d) e none_left)
            (Step-Finishes _ _ _ (programs_times_out d refl) f)
      by_phase (entering no_wait) e i = Step-Finishes s _ _ (programs_locks no_wait e none_left) f
      by_phase (waiting wait) e i = elim i [ ]
      by_phase (waiting (at_most d)) e i = Step-Finishes s _ _ (programs_times_out d e) f
      by_phase (waiting no_wait) e i = elim i [ ]
      by_phase ready e i = subst (λ x. Finishes (record s { programs = x })) (sym e) f
      by_phase ended e i = elim i [ ]

  -- `main` waits for the program runner's thread, which makes its last round.
  last_programs :
      (at : ℕ → DateTime) (s : Threads c p ch k prefix_len)
      → s.main ≡ joining_programs
      → s.programs ≡ ready
      → s.app.programs.quit ≡ true
      → s.app.pending ≡ []
      → s.app.programs_crashed ≡ false
      → AppEnds c p ch k prefix_len s.app
      → Finishes s
  unfolding round_programs
  last_programs at s m e q none_left sound v =
      let (_, same, ends) = program_round-KeepsQuits c p ch k prefix_len s.app at at v in
      let t = round_programs c p ch k prefix_len s at at in
      let over : t.programs ≡ ended =
        ap (λ b. behind b (handled c p ch k prefix_len (program_round at at) s.app).period)
          (ends q none_left sound) in
      Step-Finishes s t _ (programs_rounds at at e) (
        Step-Finishes t (record t { main = finished }) _ (finishes m over (same ∙ sound))
          (_, _, still, refl))

  -- The section runner's thread has returned: `main` stops the program runner.
  then_programs :
      (at : ℕ → DateTime) (s : Threads c p ch k prefix_len)
      → s.main ≡ joining_sections
      → s.sections ≡ ended
      → s.programs ≢ ended
      → s.programs ≢ entering wait
      → s.app.crashed ≡ none
      → s.app.programs_crashed ≡ false
      → s.app.pending ≡ []
      → AppEnds c p ch k prefix_len s.app
      → Finishes s
  unfolding stop_programs ScheduleRunner.drop
  then_programs at s m over running not_before live sound none_left v =
      let u : App c p ch k prefix_len → Threads c p ch k prefix_len =
        λ app. record s { app = app; programs = notified s.programs; main = joining_programs } in
      Step-Finishes s (stop_programs c p ch k prefix_len s) _
        (stops_programs m over live none_left sound)
        (subst (λ app. Finishes (u app))
          (sym (dropped_app c p ch k prefix_len s.app none_left sound))
          (wake_programs (u _) (notified-IsPrompt s.programs running not_before) none_left (
            last_programs at (record (u _) { programs = ready }) refl refl refl none_left sound
              (record { sections = v.sections; programs = λ h. refl }))))

  -- The program runner's thread first makes the requests of its round.
  drain :
      (at : ℕ → DateTime) (qs : List SecRun) (s : Threads c p ch k prefix_len)
      → s.main ≡ joining_sections
      → s.sections ≡ ended
      → s.programs ≢ ended
      → s.programs ≢ entering wait
      → s.app.crashed ≡ none
      → s.app.programs_crashed ≡ false
      → s.app.pending ≡ qs
      → AppEnds c p ch k prefix_len s.app
      → Finishes s
  unfolding queue_program
  drain at [] s m over running not_before live sound left v =
      then_programs at s m over running not_before live sound left v
  drain at (r ∷ rs) s m over running not_before live sound left v =
      let app = handled c p ch k prefix_len program_queues s.app in
      let ((ends, _, _, _, same), _, _, sound_too) =
        program_queues-KeepsQuits c p ch k prefix_len s.app v in
      let sound' : app.programs_crashed ≡ false = sound_too live ∙ sound in
      Step-Finishes s (queue_program c p ch k prefix_len s) _ (programs_queues r rs left) (
        drain at rs (queue_program c p ch k prefix_len s) m
          (ended-told s.app.runner.state app.runner.state s.sections over)
          (λ h. running (after_request-ended app.programs_crashed s.programs h sound'))
          (λ h. not_before (after_request-entering app.programs_crashed wait s.programs h))
          (same ∙ live) sound' (queued_pending c p ch k prefix_len s.app r rs left live) ends)

  -- `main` waits for the section runner's thread, which makes its last round.
  last_sections :
      (at : ℕ → DateTime) (s : Threads c p ch k prefix_len)
      → s.main ≡ joining_sections
      → s.sections ≡ ready
      → s.app.runner.state.quit ≡ true
      → s.programs ≢ ended
      → s.programs ≢ entering wait
      → s.app.crashed ≡ none
      → s.app.programs_crashed ≡ false
      → prints c p ch k prefix_len s.app 0 ≡ true
      → AppEnds c p ch k prefix_len s.app
      → Finishes s
  unfolding round_sections
  last_sections at s m e q running not_before live sound printed v =
      let r = section_round-RoundKeeps c p ch k prefix_len s.app 0 v in
      let t = round_sections c p ch k prefix_len s 0 in
      Step-Finishes s t _ (sections_rounds 0 e) (
        drain at t.app.pending t m (ended-behind_crash _ _ _ (r.last q)) running not_before
          (r.printed printed live) (r.crashed_same ∙ sound) refl r.ends)

  -- After a signal has stopped the MQTT API, whatever has gone before, unless a thread of the runners has
  -- panicked, `main` can return, by its own steps and those of the threads, with no spurious wake-up, if
  -- no thread has left the mutex with the period `Wait` and does not wait yet, and if the line can be
  -- printed that the section runner logs of the run that it interrupts.
  pub stopping-Finishes :
      (at : ℕ → DateTime) (config : Config (Schedule c)) (st : State c) (x y : Phase)
      (es : List (Event c p ch k prefix_len)) (t : Threads c p ch k prefix_len)
      → boot c at config ≡ done st
      → x ≢ ended
      → y ≢ ended
      → Reach c p ch k prefix_len (opened c p ch k prefix_len st x y) es t
      → t.main ≡ stopping
      → t.sections ≢ entering wait
      → t.programs ≢ entering wait
      → t.app.crashed ≡ none
      → t.app.programs_crashed ≡ false
      → prints c p ch k prefix_len (handled c p ch k prefix_len section_runner_stopped t.app) 0
        ≡ true
      → Finishes t
  unfolding stop_sections
  stopping-Finishes at config st x y es t h i j reach m late_sections late_programs live sound
        printed =
      let v = boot-InOrder c p ch k prefix_len at config st x y es t h i j reach in
      let (sections_on, programs_on) = subst (λ m. Place c p ch k prefix_len m t) m v.place in
      let stopped = stopped_app c p ch k prefix_len t.app live in
      let u : App c p ch k prefix_len → Threads c p ch k prefix_len =
        λ app. record t { app = app; sections = notified t.sections; main = joining_sections } in
      let sections_run : t.sections ≢ ended =
        λ e. cc (sections_on, v.flags.sections.told (v.sections_end e live)) in
      let programs_run : t.programs ≢ ended =
        λ e. cc (programs_on, v.flags.programs (v.programs_end e sound)) in
      Step-Finishes t (stop_sections c p ch k prefix_len t) _ (stops_sections m live) (
        subst (λ app. Finishes (u app)) (sym stopped)
          (wake_sections (u _) (notified-IsPrompt t.sections sections_run late_sections) (
            last_sections at (record (u _) { sections = ready }) refl refl refl programs_run
              late_programs live sound
              (subst (λ app. prints c p ch k prefix_len app 0 ≡ true) stopped printed)
              (record {
                sections = record { told = λ e. refl; idle = v.flags.sections.idle };
                programs = v.flags.programs;
              }))))
