-- ===== src/Application/Threads/Stuck.antt =====
-- The lost wake-ups, for the whole program.
use rinklers.Prelude.{subst, ℕ, ◌≡◌, refl, List, [], ◌∷◌}
use rinklers.Util.WaitPeriod.{wait}
use rinklers.Util.RunnerState.{entering, waiting, notify, enter}
use rinklers.Util.Durations.Library.{CharTables, Chrono}
use rinklers.Schedule.Chrono.{Calendar}
use rinklers.MqttApi.{Payloads}
use rinklers.Application.{State}
use rinklers.Application.System.{Event, serving_ends, section_runner_stopped, handle}
use rinklers.Application.Threads.{
  stopping, joining_sections, Threads, opened, handled, stop_sections, Step, receives,
  sections_locks, sections_times_out, sections_rounds, programs_locks, programs_times_out,
  programs_rounds, programs_queues, main_panics, Panics, signalled, signal_fails, stops_sections,
  stops_programs, finishes, Steps, still, moves,
}

module _ (c : Calendar) (p : Payloads) (ch : CharTables) (k : Chrono) (prefix_len : ℕ) where
  -- From the start, if the signal comes before the section runner's thread waits for the first time, the
  -- threads and `main` can come to a state in which none of them can make a step, without a spurious
  -- wake-up: `main` waits for the section runner's thread, which waits for a notification, and the program
  -- runner's thread waits for one as well, with no round made for the programs that have been scheduled.
  pub opened_stuck :
      (st : State c)
      → (t : Threads c p ch k prefix_len) × Steps c p ch k prefix_len
          (opened c p ch k prefix_len st (entering wait) (entering wait))
          (serving_ends ∷ section_runner_stopped ∷ [])
          t
        × (t.main ≡ joining_sections)
        × (t.app.programs ≡ st.program_data)
        × ((es : List (Event c p ch k prefix_len)) (u : Threads c p ch k prefix_len)
            → ¬ Step c p ch k prefix_len t es u)
  unfolding stop_sections handle enter notify
  opened_stuck st =
      let s = opened c p ch k prefix_len st (entering wait) (entering wait) in
      let s1 = record s { programs = waiting wait } in
      let s2 = record s1 {
        app = handled c p ch k prefix_len serving_ends s.app;
        main = stopping;
      } in
      let s3 = stop_sections c p ch k prefix_len s2 in
      let t = record s3 { sections = waiting wait } in
      (
        t,
        moves (programs_locks wait refl refl) (
            moves (signalled refl)
              (moves (stops_sections refl refl) (moves (sections_locks wait refl) still))),
        refl,
        refl,
        no_step t refl refl refl refl,
      )
    where
      no_step :
          (t : Threads c p ch k prefix_len)
          → t.main ≡ joining_sections
          → t.sections ≡ waiting wait
          → t.programs ≡ waiting wait
          → t.app.pending ≡ []
          → (es : List (Event c p ch k prefix_len)) (u : Threads c p ch k prefix_len)
          → ¬ Step c p ch k prefix_len t es u
      no_step t a b d n es u (receives m e on) = cc (a, e)
      no_step t a b d n es u (sections_locks w e) = cc (b, e)
      no_step t a b d n es u (sections_times_out x e) = cc (b, e)
      no_step t a b d n es u (sections_rounds l e) = cc (b, e)
      no_step t a b d n es u (programs_locks w e e') = cc (d, e)
      no_step t a b d n es u (programs_times_out x e) = cc (d, e)
      no_step t a b d n es u (programs_rounds x l e) = cc (d, e)
      no_step t a b d n es u (signalled e) = cc (a, e)
      no_step t a b d n es u (signal_fails e) = cc (a, e)
      no_step t a b d n es u (stops_sections e e') = cc (a, e)
      no_step t a b d n es u (stops_programs e e' e1 e2 e3) = cc (b, e')
      no_step t a b d n es u (finishes e e' e1) = cc (a, e)
      no_step t a b d n es u (programs_queues r rs e) = cc (n, e)
      no_step t a b d n es u (main_panics e) =
          let over = (subst (λ m. Panics c p ch k prefix_len m t) a e).0 in cc (b, over)
