-- ===== src/Program.antt =====
-- src/program.rs and src/program_runner.rs. A `SectionRef` and the channel of a `RunNotifier` are
-- numbers, as in the section runner; `chan` is the first channel that is new. That the update function
-- of a program is called is recorded. `debug!` is left out.
pub mod Sequence
pub mod Returning
pub mod Stopping
pub mod Examples
use Prim.Native.String.{String}
use rinklers.Prelude.{ℕ, ◌+◌, Option, none, some, List, [], ◌∷◌, map, Bool, true, false}
use rinklers.SectionRunner
use rinklers.SectionRunner.{
  RunnerData, RunNotification, start, finish, interrupted, Effect, set_state, send,
}

pub record ProgItem : Type 0 where
  pub section : ℕ
  pub duration : ℕ

module _ (Schedule : Type 0) where
  -- `on_schedule_update` names the update function.
  pub record Program : Type 0 where
    pub name : String
    pub sequence : List ProgItem
    pub schedule : Schedule
    pub on_schedule_update : Option ℕ

  -- `Program::new`
  unfoldable pub new_program : String → List ProgItem → Schedule → Program
  new_program name sequence schedule = record {
    name = name;
    sequence = sequence;
    schedule = schedule;
    on_schedule_update = none;
  }

  unfoldable pub set_name : Program → String → Program
  set_name p new_name = record p { name = new_name }

  unfoldable pub set_sequence : Program → List ProgItem → Program
  set_sequence p new_sequence = record p { sequence = new_sequence }

  -- The private method `on_schedule_update`: the calls it makes, with the program passed to them.
  unfoldable pub notify_update : Program → List (ℕ × Program)
  notify_update p = elim p.on_schedule_update [ none ↦ [] | some update_fn ↦ (update_fn, p) ∷ [] ]

  unfoldable pub set_schedule : Program → Schedule → Program × List (ℕ × Program)
  unfolding notify_update
  set_schedule p new_schedule =
      let p' = record p { schedule = new_schedule } in (p', notify_update p')

  unfoldable pub set_on_schedule_update : Program → Option ℕ → Program
  set_on_schedule_update p f = record p { on_schedule_update = f }

-- The loop of `queue_run` over the sequence: the runner's data, and the notifiers.
unfoldable pub queue_items : List ProgItem → RunnerData → (chan : ℕ) → RunnerData × List ℕ
queue_items [] d chan = (d, [])
queue_items (item ∷ items) d chan =
    let (d', notifiers) =
      queue_items items (SectionRunner.run_section d item.section item.duration chan) (chan + 1) in
    (d', chan ∷ notifiers)

unfoldable pub queue_run :
    (Schedule : Type 0) → Program Schedule → RunnerData → (chan : ℕ) → RunnerData × List ℕ
unfolding queue_items
queue_run Schedule p d chan = queue_items p.sequence d chan

-- `ProgramExecutor::execute` drops the notifiers.
unfoldable pub execute :
    (Schedule : Type 0) → Program Schedule → RunnerData → (chan : ℕ) → RunnerData
unfolding queue_run
execute Schedule p d chan = (queue_run Schedule p d chan).0

pub data Waiting : Type 0 where
  returned blocked : Waiting

-- The loop of `run_sync` over what the channel has delivered; `hung_up` says whether its sender is gone.
unfoldable pub await_end : List RunNotification → (hung_up : Bool) → Waiting
await_end [] true = returned
await_end [] false = blocked
await_end (start ∷ ns) hung_up = await_end ns hung_up
await_end (finish ∷ ns) hung_up = returned
await_end (interrupted ∷ ns) hung_up = returned

-- `notifiers.last()`
abbrev pub last : List ℕ → Option ℕ
last [] = none
last (x ∷ []) = some x
last (x ∷ y ∷ ys) = last (y ∷ ys)

-- `run_sync` behind `queue_run`; `delivered` is what each channel delivers.
unfoldable pub run_sync :
    (notifiers : List ℕ) → (delivered : ℕ → List RunNotification) → (hung_up : Bool) → Waiting
unfolding await_end
run_sync notifiers delivered hung_up = elim (last notifiers) [
  | none ↦ returned
  | some chan ↦ await_end (delivered chan) hung_up
]
