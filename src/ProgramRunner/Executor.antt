-- ===== src/ProgramRunner/Executor.antt =====
-- src/program_runner.rs: `ProgramExecutor`. It changes the section runner's data, and the next channel that is
-- new.
use rinklers.Prelude.{ℕ, ◌+◌, ◌≡◌, ◌≤◌, refl, sym, ap, ◌∙◌, List, [], ◌∷◌, false, length}
use rinklers.Util.WaitPeriod.{WaitPeriod, wait}
use rinklers.Schedule.Chrono.{Calendar}
use rinklers.Schedule.{Schedule}
use rinklers.SectionRunner
use rinklers.IndexMap.Iterators.{iter_mut, for_mut}
use rinklers.ScheduleRunner
use rinklers.ScheduleRunner.{tend, round}
use rinklers.ScheduleRunner.Executor.{Executor, execute_each}
use rinklers.ScheduleRunner.Loop.{loop_body, for_mut-tend}
use rinklers.ScheduleRunner.Rounds.{round-tend}
use rinklers.Program.{execute}
use rinklers.ProgramRunner.{Prog, execute_all}

module _ (c : Calendar) where
  abbrev pub program_executor : Executor (Prog c) (SectionRunner.RunnerData × ℕ)
  program_executor = record {
    execute = λ program w. (execute (Schedule c) program w.0 w.1, w.1 + length program.sequence);
  }

  execute_each-execute_all :
      (ps : List (Prog c)) (d : SectionRunner.RunnerData) (chan : ℕ)
      → (execute_each program_executor ps (d, chan)).0 ≡ execute_all c ps d chan
  unfolding execute_all
  execute_each-execute_all [] d chan = refl
  execute_each-execute_all (p ∷ ps) d chan =
      execute_each-execute_all ps (execute (Schedule c) p d chan) (chan + length p.sequence)

  -- What the loop of the thread, with the executor of programs, does to the section runner's data is to
  -- execute the programs that a round lists.
  pub for_mut-execute_all :
      (now later : ℕ → c.DateTime) (calls : ℕ) (d : ScheduleRunner.RunnerData c (Prog c))
      (w : WaitPeriod) (sections : SectionRunner.RunnerData) (chan : ℕ)
      → length d.runs.entries ≤ calls
      → d.quit ≡ false
      → (for_mut
          (loop_body c (Prog c) _ program_executor now later)
          calls
          (iter_mut d.runs)
          (wait, (sections, chan))).1.1.0
        ≡ execute_all c (round c (Prog c) now later d w).executed sections chan
  for_mut-execute_all now later calls d w sections chan le on =
      ap (λ r. r.1.1.0)
        (for_mut-tend c (Prog c) _ program_executor now later calls d (sections, chan) le)
      ∙ execute_each-execute_all (tend c (Prog c) now later d).executed sections chan
      ∙ ap (λ r. execute_all c r.executed sections chan)
          (sym (round-tend c (Prog c) now later d w on))
