-- ===== src/Application/Boot.antt =====
-- From a configuration to the requests on the section runner: the start of `main`, and the first round of
-- the program runner.
use rinklers.Prelude.{
  ℕ, ◌+◌, ◌≡◌, refl, sym, ap, ◌∙◌, Option, none, some, List, [], ◌∷◌, map, false, Outcome, done,
  panicked, ◌>>=◌, indices_from, indices_from-get_elem?, arith,
}
use rinklers.Util.WaitPeriod.{WaitPeriod}
use rinklers.Schedule.Chrono.{Calendar}
use rinklers.Schedule.{Schedule}
use rinklers.Section.{noop_section, log_section}
use rinklers.SectionRunner
use rinklers.ScheduleRunner.{round}
use rinklers.Program.{ProgItem}
use rinklers.ProgramRunner.{Prog, execute_all}
use rinklers.ProgramRunner.Start.{due_programs, requests_of, schedule_programs-execute_all}
use rinklers.Config.{
  SectionConfig, to_section, from_section, to_sections, ConfigResult, ok, ProgItemConfig,
  ProgramConfig, Config, to_programs,
}
use rinklers.Config.Programs.{first_out_of, Built, BuiltAll, Decided, to_programs-Decided}
use rinklers.Application.{State, started, with_programs, from_config, initialize, unwrapped, boot}

-- The specification: the item and the program that a configuration describes.
abbrev pub built_item : ProgItemConfig → ProgItem
built_item item = record { section = item.section; duration = item.duration }

-- The item holds the index of its section itself.
Built-built_item :
    (S : Type 0) {A : Type 0} (xs : List A) (items : List ProgItemConfig) (ys : List ProgItem)
    → Built S (indices_from 0 xs) items ys
    → ys ≡ map built_item items
Built-built_item S xs [] [] b = refl
Built-built_item S xs [] (y ∷ ys) b = elim b [ ]
Built-built_item S xs (i ∷ is) [] b = elim b [ ]
Built-built_item S xs (i ∷ is) (y ∷ ys) (at, long, b) =
    let here : y.section ≡ i.section =
      indices_from-get_elem? 0 xs i.section y.section at ∙ omega arith in
    let item : y ≡ built_item i = rw (sym here, sym long) refl in
    rw (item, Built-built_item S xs is ys b) refl

-- The same sections are as many.
pub indices_from-map :
    {A B : Type 0} (f : A → B) (i : ℕ) (xs : List A) → indices_from i (map f xs) ≡ indices_from i xs
indices_from-map f i [] = refl
indices_from-map f i (x ∷ xs) = ap (◌∷◌ i) (indices_from-map f (i + 1) xs)

-- The sections that have been made and then initialized are those of the configuration, all off.
pub initialized_sections :
    (confs : List SectionConfig)
    → let sections = map (λ s. log_section.set_state s false) (to_sections confs) in
      (map (λ s. from_section s) sections ≡ confs)
      × (map (λ s. log_section.state s) sections ≡ map (λ _. false) confs)
unfolding to_sections to_section from_section
initialized_sections [] = (refl, refl)
initialized_sections (x ∷ xs) =
    let (names, states) = initialized_sections xs in (ap (◌∷◌ x) names, ap (◌∷◌ false) states)

module _ (c : Calendar) where
  open c use {DateTime}

  abbrev pub built : ProgramConfig (Schedule c) → Prog c
  built p = record {
    name = p.name;
    sequence = map built_item p.sequence;
    schedule = p.schedule;
    on_schedule_update = none;
  }

  BuiltAll-built :
      {A : Type 0} (xs : List A) (ps : List (ProgramConfig (Schedule c))) (qs : List (Prog c))
      → BuiltAll (Schedule c) (indices_from 0 xs) ps qs
      → qs ≡ map built ps
  BuiltAll-built xs [] [] b = refl
  BuiltAll-built xs [] (q ∷ qs) b = elim b [ ]
  BuiltAll-built xs (p ∷ ps) [] b = elim b [ ]
  BuiltAll-built xs (p ∷ ps) (q ∷ qs) (name, schedule, update, items, b) =
      let sequence = Built-built_item (Schedule c) xs p.sequence q.sequence items in
      let program : q ≡ built p = rw (sym name, sym schedule, sym update, sym sequence) refl in
      rw (program, BuiltAll-built xs ps qs b) refl

  -- the requests on the queue of the section runner, after one round of the program runner
  abbrev pub next_queue :
      (now later : ℕ → DateTime) → WaitPeriod → (chan : ℕ) → State c → SectionRunner.RunnerData
  next_queue now later w chan st =
      execute_all c (round c (Prog c) now later st.program_data w).executed st.section_data chan

  -- The start succeeds, and the sections, the programs and the next requests are those of the configuration.
  abbrev pub Boots :
      (at now later : ℕ → DateTime)
      → WaitPeriod
      → (chan : ℕ) → Config (Schedule c)
      → Option ℕ
      → Outcome (State c)
      → Type 0
  Boots at now later w chan config none r =
      (st : State c) × (r ≡ done st)
      × (map (λ s. from_section s) st.sections ≡ config.sections)
      × (map (λ s. log_section.state s) st.sections ≡ map (λ _. false) config.sections)
      × (st.programs ≡ map built config.programs)
      × (next_queue now later w chan st ≡ record {
        quit = false;
        queue = requests_of c (due_programs c at now 0 (map built config.programs)) chan;
      })
  Boots at now later w chan config (some i) r = r ≡ panicked

  module _ (at now later : ℕ → DateTime) (w : WaitPeriod) (chan : ℕ)
      (config : Config (Schedule c)) where
    -- the start, from the programs on
    abbrev boot_with : ConfigResult (List (Prog c)) → Outcome (State c)
    boot_with programs =
        unwrapped c (with_programs c (to_sections config.sections) programs) >>= initialize c at

    boot_with-Boots :
        (o : Option ℕ) (r : ConfigResult (List (Prog c)))
        → Decided
            (Schedule c)
            (indices_from 0 config.sections)
            (BuiltAll (Schedule c) (indices_from 0 config.sections) config.programs)
            o
            r
        → Boots at now later w chan config o (boot_with r)
    unfolding initialize
    boot_with-Boots (some i) r h = rw h
    boot_with-Boots none r (ps, h, b) =
        let (off, states) = initialized_sections config.sections in
        let (d, run, requests) =
          schedule_programs-execute_all c at now later (map built config.programs)
            SectionRunner.new_data w chan in
        let same : r ≡ ok (map built config.programs) =
          h ∙ ap (λ qs. ok qs) (BuiltAll-built config.sections config.programs ps b) in
        (
          record (started c (to_sections config.sections) (map built config.programs)) {
            sections = map (λ s. log_section.set_state s false) (to_sections config.sections);
            program_data = d;
          },
          rw (same, run) refl,
          off,
          states,
          refl,
          requests,
        )

    -- If every item of every program names a section of the configuration, the start succeeds: the
    -- sections are those of the configuration, all off, the programs are those of the configuration, all
    -- scheduled, and after the next round of the program runner the queue of the section runner
    -- holds the requests of the programs that are due, in order, and nothing else. If not, the start panics.
    pub boot-Boots :
        Boots at now later w chan config
          (first_out_of (Schedule c) (indices_from 0 config.sections) config.programs)
          (boot c at config)
    unfolding boot from_config to_sections
    boot-Boots =
        boot_with-Boots _
          (to_programs (Schedule c) config (indices_from 0 (to_sections config.sections)))
          (rw (indices_from-map to_section 0 config.sections)
            (to_programs-Decided (Schedule c) (indices_from 0 config.sections) config))
