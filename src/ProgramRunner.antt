-- ===== src/ProgramRunner.antt =====
-- src/program_runner.rs, and what src/main.rs does with the programs at its start. The program runner is
-- the schedule runner with programs as its data; what a round of it executes goes to the section runner.
pub mod Executor
pub mod Start
pub mod Examples
use rinklers.Prelude.{ℕ, ◌+◌, List, [], ◌∷◌, Outcome, done, panicked, ◌>>=◌, length}
use rinklers.Schedule.Chrono.{Calendar}
use rinklers.Schedule.{Schedule}
use rinklers.SectionRunner
use rinklers.ScheduleRunner
use rinklers.Program.{Program, execute}

module _ (c : Calendar) where
  open c use {DateTime}

  abbrev pub Prog : Type 0
  Prog = Program (Schedule c)

  -- `ProgramRunner::start_new`
  abbrev pub start_new : ScheduleRunner.RunnerData c Prog
  start_new = ScheduleRunner.new_data c Prog

  -- `ProgramRunner::stop`
  abbrev pub stop : ScheduleRunner.RunnerData c Prog → ScheduleRunner.RunnerData c Prog
  stop d = ScheduleRunner.stop c Prog d

  -- `ProgramRunner::schedule_program`: the index goes into the guard
  unfoldable pub schedule_program :
      ScheduleRunner.RunnerData c Prog
      → Prog
      → (now : DateTime) → Outcome (ℕ × ScheduleRunner.RunnerData c Prog)
  schedule_program d program now = ScheduleRunner.schedule c Prog d program.schedule program now

  -- `ProgramGuard::stop`
  unfoldable pub stop_program :
      ScheduleRunner.RunnerData c Prog → ℕ → Outcome (ScheduleRunner.RunnerData c Prog)
  stop_program d index = do (_, d') ← ScheduleRunner.guard_stop c Prog d index; done d'

  -- the loop of `main` over the programs; the clock is read for each
  unfoldable pub schedule_programs :
      (now : ℕ → DateTime)
      → ScheduleRunner.RunnerData c Prog
      → (i : ℕ) → List Prog
      → Outcome (ScheduleRunner.RunnerData c Prog)
  schedule_programs now d i [] = done d
  schedule_programs now d i (program ∷ programs) = do
    (_, d') ← schedule_program d program (now i)
    schedule_programs now d' (i + 1) programs

  -- the programs that a round executes, one after the other, on channels from `chan` on
  unfoldable pub execute_all :
      List Prog → SectionRunner.RunnerData → (chan : ℕ) → SectionRunner.RunnerData
  execute_all [] d chan = d
  execute_all (program ∷ programs) d chan =
      execute_all programs (execute (Schedule c) program d chan) (chan + length program.sequence)
