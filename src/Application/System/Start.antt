-- ===== src/Application/System/Start.antt =====
-- The state in which src/main.rs leaves the program when it has started it, for the runs from there.
use rinklers.Prelude.{
  ℕ, ◌+◌, ◌≡◌, refl, sym, ap, ◌∙◌, inl, Option, none, some, List, [], ◌∷◌, map, false, length,
  subst, lt-length, arith,
}
use rinklers.Util.Durations.Library.{CharTables, Chrono}
use rinklers.Schedule.Chrono.{Calendar}
use rinklers.Section.{noop_section, log_section}
use rinklers.SectionRunner
use rinklers.SectionRunner.{RunnerData, SecRun, Effect, set_state, send, run_section}
use rinklers.ScheduleRunner
use rinklers.ScheduleRunner.{drop}
use rinklers.ScheduleRunner.Items.{AllItems}
use rinklers.Program.{ProgItem}
use rinklers.ProgramRunner.{Prog}
use rinklers.MqttApi.{Payloads}
use rinklers.Application.System.{Event, run, made}
use rinklers.Application.System.Sections.{configs}
use rinklers.Application.System.Requests.{ItemsInRange}
use rinklers.Prelude.{
  indices_from, indices_from-get_elem?, length-indices_from, done, panicked, false, ◌>>=◌,
}
use rinklers.Schedule.{Schedule}
use rinklers.ProgramRunner.Start.{entries_of, held, schedule_programs-entries_of}
use rinklers.Config.{
  ProgItemConfig, ProgramConfig, Config, ConfigResult, to_programs, to_sections, to_section,
}
use rinklers.Config.Programs.{first_out_of, Built, BuiltAll, Decided, to_programs-Decided}
use rinklers.Application.{State, boot, started, initialize, with_programs, unwrapped, from_config}
use rinklers.Application.Boot.{initialized_sections, indices_from-map}
use rinklers.Application.System.{launched}
use rinklers.Application.System.Soundness.{Sound}
use rinklers.Application.System.Runs.{run-Sound}

Built-InRange :
    (S : Type 0) {A : Type 0} (xs : List A) (items : List ProgItemConfig) (ys : List ProgItem)
    → Built S (indices_from 0 xs) items ys
    → ItemsInRange (length xs) ys
Built-InRange S xs [] [] b = tt
Built-InRange S xs [] (y ∷ ys) b = elim b [ ]
Built-InRange S xs (i ∷ is) [] b = elim b [ ]
Built-InRange S xs (i ∷ is) (y ∷ ys) (at, long, b) = (
  omega (
    arith,
    indices_from-get_elem? 0 xs i.section y.section at,
    lt-length (indices_from 0 xs) i.section at,
    length-indices_from 0 xs,
  ),
  Built-InRange S xs is ys b,
)

module _ (c : Calendar) where
  open c use {DateTime}

  BuiltAll-items :
      {A : Type 0} (xs : List A) (at : ℕ → DateTime) (n : ℕ)
      (ps : List (ProgramConfig (Schedule c))) (qs : List (Prog c))
      → BuiltAll (Schedule c) (indices_from 0 xs) ps qs
      → AllItems (λ (q : Prog c). ItemsInRange (length xs) q.sequence) (entries_of c at n qs)
  unfolding ScheduleRunner.new_run
  BuiltAll-items xs at n [] [] b = tt
  BuiltAll-items xs at n [] (q ∷ qs) b = elim b [ ]
  BuiltAll-items xs at n (p ∷ ps) [] b = elim b [ ]
  BuiltAll-items xs at n (p ∷ ps) (q ∷ qs) (name, schedule, update, items, b) = (
    Built-InRange (Schedule c) xs p.sequence q.sequence items,
    BuiltAll-items xs at (n + 1) ps qs b,
  )

  -- A start that succeeds leaves the sections of the configuration, all off, nothing on the section runner's
  -- queue, a program runner that is not to quit, and programs that name only these sections.
  pub record Begun (config : Config (Schedule c)) (st : State c) : Type 0 where
    pub as_configured : configs st.sections ≡ config.sections
    pub off : map (λ s. log_section.state s) st.sections ≡ map (λ _. false) config.sections
    pub idle : st.section_data ≡ SectionRunner.new_data
    pub running : st.program_data.quit ≡ false
    pub items :
        AllItems
          (λ (q : Prog c). ItemsInRange (length config.sections) q.sequence)
          st.program_data.runs.entries

  boot_with-Begun :
      (at : ℕ → DateTime) (config : Config (Schedule c)) (o : Option ℕ)
      (r : ConfigResult (List (Prog c))) (st : State c)
      → Decided
          (Schedule c)
          (indices_from 0 config.sections)
          (BuiltAll (Schedule c) (indices_from 0 config.sections) config.programs)
          o
          r
      → (unwrapped c (with_programs c (to_sections config.sections) r) >>= initialize c at)
        ≡ done st
      → Begun config st
  unfolding initialize
  boot_with-Begun at config (some i) r st h e =
      let no : panicked ≡ done st =
        ap (λ q. unwrapped c (with_programs c (to_sections config.sections) q) >>= initialize c at)
          (sym h)
        ∙ e in
      cc no
  boot_with-Begun at config none r st (ps, h, b) e =
      let (off, states) = initialized_sections config.sections in
      let found : State c = record (started c (to_sections config.sections) ps) {
        sections = map (λ s. log_section.set_state s false) (to_sections config.sections);
        program_data = held c (entries_of c at 0 ps);
      } in
      let made : (unwrapped c (with_programs c (to_sections config.sections) r) >>= initialize c at)
          ≡ done found =
        rw (h, schedule_programs-entries_of c at [] 0 ps) refl in
      let same : found ≡ st = cc (made, e) in
      subst (λ s. Begun config s) same
        (record {
          as_configured = off;
          off = states;
          idle = refl;
          running = refl;
          items = BuiltAll-items config.sections at 0 config.programs ps b;
        })

  pub boot-Begun :
      (at : ℕ → DateTime) (config : Config (Schedule c)) (st : State c)
      → boot c at config ≡ done st
      → Begun config st
  unfolding boot from_config to_sections
  boot-Begun at config st h =
      boot_with-Begun at config
        (first_out_of (Schedule c) (indices_from 0 config.sections) config.programs)
        (to_programs (Schedule c) config (indices_from 0 (to_sections config.sections))) st
        (rw (indices_from-map to_section 0 config.sections)
          (to_programs-Decided (Schedule c) (indices_from 0 config.sections) config))
        h

module _ (c : Calendar) (p : Payloads) (ch : CharTables) (k : Chrono) (prefix_len : ℕ) where
  pub launched-Sound :
      (config : Config (Schedule c)) (st : State c)
      → Begun c config st
      → Sound c p ch k prefix_len config.sections [] (launched c p ch k prefix_len st)
  launched-Sound config st b = record {
    served =
        rw b.idle (inl (refl, record { served = []; order = refl; logged = refl; timed = tt }));
    known = tt;
    asked = tt;
    items = b.items;
    as_configured = b.as_configured;
  }

  -- After a start that succeeds, in any order of messages, rounds of both threads, requests of programs and
  -- stops: each request that has been put on the section runner's queue is for a section that there is; the
  -- section runner serves them by its protocol, until a line of its log panics it, if one does, and then the
  -- requests are lost that are left and the one just popped; the programs and their requests to come name
  -- only sections that there are, and the sections keep the configuration.
  pub boot-run-Sound :
      (at : ℕ → c.DateTime) (config : Config (Schedule c)) (st : State c)
      (es : List (Event c p ch k prefix_len))
      → boot c at config ≡ done st
      → let app = launched c p ch k prefix_len st in
        Sound c p ch k prefix_len config.sections
          (made c p ch k prefix_len app es)
          (run c p ch k prefix_len app es)
  boot-run-Sound at config st es h =
      run-Sound c p ch k prefix_len config.sections [] _ es
        (launched-Sound config st (boot-Begun c at config st h))
