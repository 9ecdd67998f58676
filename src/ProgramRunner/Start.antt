-- ===== src/ProgramRunner/Start.antt =====
-- From the programs at the start to the requests on the section runner.
use rinklers.Prelude.{
  ℕ, ◌+◌, ◌≡◌, refl, sym, ap, ◌∙◌, none, List, [], ◌∷◌, ◌++◌, false, if◌then◌else◌, done, length,
  append_assoc, append-nil,
}
use rinklers.Util.WaitPeriod.{WaitPeriod}
use rinklers.Schedule.Chrono.{Calendar}
use rinklers.SectionRunner
use rinklers.SectionRunner.{SecRun}
use rinklers.IndexMap.{Entry, element, insert}
use rinklers.IndexMap.Iteration.{present}
use rinklers.ScheduleRunner
use rinklers.ScheduleRunner.{is_due, new_run, new_data, schedule, round}
use rinklers.ScheduleRunner.Rounds.{due, executed-due}
use rinklers.Program.Sequence.{requests, execute-requests}
use rinklers.ProgramRunner.{Prog, schedule_program, schedule_programs, execute_all}

module _ (c : Calendar) where
  open c use {DateTime}

  -- the entries of the programs, scheduled at the times given
  abbrev pub entries_of :
      (at : ℕ → DateTime) → ℕ → List (Prog c) → List (Entry (ScheduleRunner.SchedRun c (Prog c)))
  entries_of at i [] = []
  entries_of at i (p ∷ ps) =
      element (new_run c (Prog c) p.schedule p (at i)) ∷ entries_of at (i + 1) ps

  -- a map without empty entries
  abbrev pub held :
      List (Entry (ScheduleRunner.SchedRun c (Prog c))) → ScheduleRunner.RunnerData c (Prog c)
  held es = record { quit = false; runs = record { entries = es; next_empty = none } }

  schedule_program-held :
      (es : List (Entry (ScheduleRunner.SchedRun c (Prog c)))) (p : Prog c) (t : DateTime)
      → schedule_program c (held es) p t
        ≡ done (length es, held (es ++ element (new_run c (Prog c) p.schedule p t) ∷ []))
  unfolding schedule_program schedule insert
  schedule_program-held es p t = refl

  pub schedule_programs-entries_of :
      (at : ℕ → DateTime) (es : List (Entry (ScheduleRunner.SchedRun c (Prog c)))) (i : ℕ)
      (ps : List (Prog c))
      → schedule_programs c at (held es) i ps ≡ done (held (es ++ entries_of at i ps))
  unfolding schedule_programs
  schedule_programs-entries_of at es i [] = ap (λ x. done (held x)) (sym (append-nil es))
  schedule_programs-entries_of at es i (p ∷ ps) =
      let e = element (new_run c (Prog c) p.schedule p (at i)) in
      rw (schedule_program-held es p (at i)) (
        schedule_programs-entries_of at (es ++ e ∷ []) (i + 1) ps
        ∙ ap (λ x. done (held x)) (append_assoc es (e ∷ []) (entries_of at (i + 1) ps)))

  -- the programs that are due, of those scheduled at the times `at`
  abbrev pub due_programs : (at now : ℕ → DateTime) → ℕ → List (Prog c) → List (Prog c)
  due_programs at now i [] = []
  due_programs at now i (p ∷ ps) =
      (if is_due c (Prog c) (now i) (new_run c (Prog c) p.schedule p (at i)) then p ∷ [] else [])
      ++ due_programs at now (i + 1) ps

  due-entries_of :
      (at now : ℕ → DateTime) (i : ℕ) (ps : List (Prog c))
      → due c (Prog c) now (present i (entries_of at i ps)) ≡ due_programs at now i ps
  unfolding new_run
  due-entries_of at now i [] = refl
  due-entries_of at now i (p ∷ ps) =
      let first =
        if is_due c (Prog c) (now i) (new_run c (Prog c) p.schedule p (at i)) then p ∷ [] else [] in
      ap (λ t. first ++ t) (due-entries_of at now (i + 1) ps)

  abbrev pub requests_of : List (Prog c) → (chan : ℕ) → List SecRun
  requests_of [] chan = []
  requests_of (p ∷ ps) chan = requests p.sequence chan ++ requests_of ps (chan + length p.sequence)

  pub execute_all-requests_of :
      (ps : List (Prog c)) (d : SectionRunner.RunnerData) (chan : ℕ)
      → execute_all c ps d chan ≡ record d { queue = d.queue ++ requests_of ps chan }
  unfolding execute_all
  execute_all-requests_of [] d chan = ap (λ q. record d { queue = q }) (sym (append-nil d.queue))
  execute_all-requests_of (p ∷ ps) d chan =
      ap (λ x. execute_all c ps x (chan + length p.sequence)) (execute-requests p d chan)
      ∙ execute_all-requests_of ps (record d { queue = d.queue ++ requests p.sequence chan })
          (chan + length p.sequence)
      ∙ ap (λ q. record d { queue = q })
          (append_assoc d.queue (requests p.sequence chan)
            (requests_of ps (chan + length p.sequence)))

  -- The programs of a configuration are scheduled one after the other, which never panics. What the next
  -- round of the program runner executes puts on the section runner's queue the requests of the programs
  -- that are due, and no others, in the order of the configuration and of each sequence.
  pub schedule_programs-execute_all :
      (at now later : ℕ → DateTime) (ps : List (Prog c)) (sections : SectionRunner.RunnerData)
      (w : WaitPeriod) (chan : ℕ)
      → (d : ScheduleRunner.RunnerData c (Prog c)) × (schedule_programs c at
            (new_data c (Prog c))
            0
            ps
          ≡ done d)
        × (execute_all c (round c (Prog c) now later d w).executed sections chan ≡ record sections {
          queue = sections.queue ++ requests_of (due_programs at now 0 ps) chan;
        })
  schedule_programs-execute_all at now later ps sections w chan =
      let d = held (entries_of at 0 ps) in
      (
        d,
        schedule_programs-entries_of at [] 0 ps,
        ap (λ x. execute_all c x sections chan)
              (executed-due c (Prog c) now later d w refl ∙ due-entries_of at now 0 ps)
            ∙ execute_all-requests_of (due_programs at now 0 ps) sections chan,
      )
