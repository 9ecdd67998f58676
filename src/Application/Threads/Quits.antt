-- ===== src/Application/Threads/Quits.antt =====
-- What the events do to the flags by which the threads of the runners end.
use rinklers.Prelude.{
  ℕ, ◌+◌, arith, ◌≡◌, refl, ap, ◌∙◌, sym, none, some, List, [], ◌||◌, Option, Bool, true, false,
  if◌then◌else◌,
}
use rinklers.Util.WaitPeriod.{WaitPeriod}
use rinklers.Util.Durations.Library.{CharTables, Chrono}
use rinklers.Schedule.Chrono.{Calendar}
use rinklers.SectionRunner
use rinklers.SectionRunner.{Run, SecRun, RunnerData, round}
use rinklers.SectionRunner.System
use rinklers.SectionRunner.System.{System, woken}
use rinklers.SectionRunner.Protocol.{round-returned}
use rinklers.ScheduleRunner
use rinklers.ProgramRunner.{Prog}
use rinklers.MqttApi.{Payloads, Incoming, process_msg}
use rinklers.MqttApi
use rinklers.MqttApi.Changes.{Changes, nothing, sets, queues, process_msg-Changes}
use rinklers.Application.System.{
  App, message, program_round, handle, take_message, refuse_message, round_of_programs, busy,
}

-- A section runner that has returned was told to, and no run is under way.
pub record Ends (s : System) : Type 0 where
  pub told : s.returned ≡ true → s.state.quit ≡ true
  pub idle : s.returned ≡ true → s.current ≡ none

round-quits :
    (now : ℕ) (d : RunnerData) (r : Option Run) (w : WaitPeriod)
    → ((round now d r w).state.quit ≡ d.quit)
      × ((round now d r w).returned ≡ true → (round now d r w).current_run ≡ none)
unfolding round
round-quits now d r w = (ground arith, ground arith)

wake-Ends :
    (b : Bool) (s : System) (now : ℕ)
    → s.returned ≡ b
    → Ends s
    → let s' = SectionRunner.System.wake b s now in
      Ends s' × (s'.state.quit ≡ s.state.quit) × (s.state.quit ≡ true → s'.returned ≡ true)
wake-Ends true s now at v = (record { told = v.told; idle = v.idle }, refl, λ q. at)
wake-Ends false s now at v =
    let (same, none_left) = round-quits now s.state s.current s.period in
    let by_flag = round-returned now s in
    (record { told = λ h. same ∙ sym by_flag ∙ h; idle = none_left }, same, λ q. by_flag ∙ q)

-- A round of the thread ends it if it is told to quit.
pub woken-Ends :
    (s : System) (later : ℕ)
    → Ends s
    → let s' = SectionRunner.System.handle s (woken later) in
      Ends s' × (s'.state.quit ≡ s.state.quit) × (s.state.quit ≡ true → s'.returned ≡ true)
unfolding SectionRunner.System.handle
woken-Ends s later v = wake-Ends s.returned s (s.now + later) refl v

module _ (c : Calendar) (p : Payloads) (ch : CharTables) (k : Chrono) (prefix_len : ℕ) where
  open c use {DateTime}

  -- What the events keep of the flags of both runners.
  pub record AppEnds (app : App c p ch k prefix_len) : Type 0 where
    pub sections : Ends app.runner
    pub programs : app.returned ≡ true → app.programs.quit ≡ true

  -- the flags
  abbrev pub sections_quit : App c p ch k prefix_len → Bool
  sections_quit app = app.runner.state.quit

  abbrev pub programs_quit : App c p ch k prefix_len → Bool
  programs_quit app = app.programs.quit

  message-quit :
      (A : Type 0) (st st' : MqttApi.State) (chan : ℕ)
      → Changes A st chan st'
      → st'.section_runner.quit ≡ st.section_runner.quit
  unfolding SectionRunner.run_section
  message-quit A st st' chan (nothing e) = ap (λ (x : MqttApi.State). x.section_runner.quit) e
  message-quit A st st' chan (sets a i sec b at e) =
      ap (λ (x : MqttApi.State). x.section_runner.quit) e
  message-quit A st st' chan (queues i sec dur at e) =
      ap (λ (x : MqttApi.State). x.section_runner.quit) e

  -- An event leaves the flags.
  abbrev pub KeepsQuits : (before after : App c p ch k prefix_len) → Type 0
  KeepsQuits before after =
      AppEnds after
      × (sections_quit after ≡ sections_quit before)
      × (programs_quit after ≡ programs_quit before)
      × (after.runner.returned ≡ before.runner.returned)
      × (after.crashed ≡ before.crashed)

  pub message-KeepsQuits :
      (app : App c p ch k prefix_len) (m : Incoming p)
      → AppEnds app
      → let app' = handle c p ch k prefix_len app (message m) in
        KeepsQuits app app'
        × (app'.returned ≡ app.returned)
        × (app'.programs_crashed ≡ app.programs_crashed)
  unfolding handle
  message-KeepsQuits app m v = by_serving app.serving app.crashed
    where
      st : MqttApi.State
      st = record { sections = app.sections; section_runner = app.runner.state }

      same :
          (process_msg p ch k prefix_len st m app.chan).1.section_runner.quit
          ≡ app.runner.state.quit
      same =
          message-quit _ st (process_msg p ch k prefix_len st m app.chan).1 app.chan
            (process_msg-Changes p ch k prefix_len st m app.chan)

      by_serving :
          (b : Bool) (o : Option (List SecRun))
          → let app' =
              if b
              then (elim o [
                | none ↦ take_message c p ch k prefix_len app m
                | some l ↦ refuse_message c p ch k prefix_len app m
              ])
              else app in
            KeepsQuits app app'
            × (app'.returned ≡ app.returned)
            × (app'.programs_crashed ≡ app.programs_crashed)
      by_serving true none = (
        (
          record {
            sections = record { told = λ h. same ∙ v.sections.told h; idle = v.sections.idle };
            programs = v.programs;
          },
          same,
          refl,
          refl,
          refl,
        ),
        refl,
        refl,
      )
      by_serving true (some l) = (
        (record { sections = v.sections; programs = v.programs }, refl, refl, refl, refl),
        refl,
        refl,
      )
      by_serving false o = ((v, refl, refl, refl, refl), refl, refl)

  schedule_round-quit :
      (now later : ℕ → DateTime) (d : ScheduleRunner.RunnerData c (Prog c)) (w : WaitPeriod)
      → let r = ScheduleRunner.round c (Prog c) now later d w in
        (r.state.quit ≡ d.quit) × (r.returned ≡ d.quit)
  unfolding ScheduleRunner.round ScheduleRunner.tend
  schedule_round-quit now later d w = (ground arith, ground arith)

  -- A round of the program runner's thread ends it if it is to quit.
  pub program_round-KeepsQuits :
      (app : App c p ch k prefix_len) (now later : ℕ → DateTime)
      → AppEnds app
      → let app' = handle c p ch k prefix_len app (program_round now later) in
        KeepsQuits app app'
        × (app'.programs_crashed ≡ app.programs_crashed)
        × (programs_quit app ≡ true
            → app.pending ≡ []
            → app.programs_crashed ≡ false
            → app'.returned ≡ true)
  unfolding handle
  program_round-KeepsQuits app now later v =
      by_returned app.returned (busy c p ch k prefix_len app.pending app.programs_crashed) refl
        (λ a b. rw (a, b) refl)
    where
      r : ScheduleRunner.Round c (Prog c)
      r = ScheduleRunner.round c (Prog c) now later app.programs app.period

      flags : (r.state.quit ≡ app.programs.quit) × (r.returned ≡ app.programs.quit)
      flags = schedule_round-quit now later app.programs app.period

      by_returned :
          (b b' : Bool)
          → app.returned ≡ b
          → (app.pending ≡ [] → app.programs_crashed ≡ false → b' ≡ false)
          → let app' =
              if b || b' then app else round_of_programs c p ch k prefix_len app now later in
            KeepsQuits app app'
            × (app'.programs_crashed ≡ app.programs_crashed)
            × (programs_quit app ≡ true
                → app.pending ≡ []
                → app.programs_crashed ≡ false
                → app'.returned ≡ true)
      by_returned true b' over free = ((v, refl, refl, refl, refl), refl, λ q n f. over)
      by_returned false true on free =
          ((v, refl, refl, refl, refl), refl, λ q n f. let no = free n f in cc no)
      by_returned false false on free = (
        (
          record { sections = v.sections; programs = λ h. flags.0 ∙ sym flags.1 ∙ h },
          refl,
          flags.0,
          refl,
          refl,
        ),
        refl,
        λ q n f. flags.1 ∙ q,
      )
