-- ===== src/ScheduleRunner/Executor.antt =====
-- src/schedule_runner.rs: the trait `Executor` and its two implementations there. What an execution
-- changes is the type `W`; `data_string`, which only the log reads, is left out.
use rinklers.Prelude.{◌≡◌, refl, List, [], ◌∷◌, ◌++◌}

pub record Executor (D W : Type 0) : Type 0 where
  pub execute : D → W → W

abbrev pub noop_executor : (W : Type 0) → Executor (Unit {0}) W
noop_executor W = record { execute = λ data' w. w }

-- The data are the closures, as what calling them changes.
abbrev pub fn_executor : (W : Type 0) → Executor (W → W) W
fn_executor W = record { execute = λ f w. f w }

-- items executed one after the other
abbrev pub execute_each : {D W : Type 0} → Executor D W → List D → W → W
execute_each ex [] w = w
execute_each ex (x ∷ xs) w = execute_each ex xs (ex.execute x w)

pub execute_each-append :
    {D W : Type 0} (ex : Executor D W) (xs ys : List D) (w : W)
    → execute_each ex (xs ++ ys) w ≡ execute_each ex ys (execute_each ex xs w)
execute_each-append ex [] ys w = refl
execute_each-append ex (x ∷ xs) ys w = execute_each-append ex xs ys (ex.execute x w)
