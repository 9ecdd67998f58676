-- ===== src/SectionRunner/Logging.antt =====
-- src/section_runner.rs: the `debug!` lines of `run`, which print a duration with `duration_string`. `init_log` in
-- src/main.rs turns the level Debug on, so that the text is made, and the thread panics if it cannot be.
use rinklers.Prelude.{
  ℕ, ◌-◌, ◌≤◌, ◌≡◌, refl, Option, none, some, List, [], ◌∷◌, ◌++◌, Bool, true, false, if◌then◌else◌,
  done, panicked, Bool-cases, inl, inr, All, sym, ap, subst, leb,
}
use rinklers.Util.Durations.Library.{CharTables, Chrono, max_size}
use rinklers.Util.Durations.{duration_string}
use rinklers.Util.WaitPeriod.{WaitPeriod}
use rinklers.SectionRunner.{RunnerData, SecRun, Run, round, running_round}

-- Popping the front of the queue, when a round does it: what is popped, and what is left.
abbrev pub popped : List SecRun → List SecRun × List SecRun
popped [] = ([], [])
popped (run ∷ rest) = (run ∷ [], rest)

abbrev pub pop : RunnerData → Option Run → List SecRun × List SecRun
pop d none = if d.quit then ([], d.queue) else popped d.queue
pop d (some run) = ([], d.queue)

popped-append : (q : List SecRun) → (popped q).0 ++ (popped q).1 ≡ q
popped-append [] = refl
popped-append (run ∷ rest) = refl

-- Nothing is lost from the queue but what is popped.
pub pop-append :
    (d : RunnerData) (current : Option Run) → (pop d current).0 ++ (pop d current).1 ≡ d.queue
pop-append d none = elim (Bool-cases d.quit) [
  | inl quits ↦ rw quits refl
  | inr goes_on ↦ rw goes_on (popped-append d.queue)
]
pop-append d (some run) = refl

module _ (ch : CharTables) (k : Chrono) where
  abbrev pub prints : ℕ → Bool
  prints dur = elim (duration_string ch k dur) [ done text ↦ true | panicked ↦ false ]

  -- Whether the round's `debug!` line can be printed: that of an interrupted run has the time since its start,
  -- and that of a new one its duration. Other rounds have none.
  abbrev pub front_prints : List SecRun → Bool
  front_prints [] = true
  front_prints (run ∷ rest) = prints run.dur

  unfoldable pub round_prints : (now : ℕ) → RunnerData → Option Run → Bool
  round_prints now d none = if d.quit then true else front_prints d.queue
  round_prints now d (some run) = if d.quit then prints (now - run.start_time) else true

  pub prints_lem : (dur : ℕ) → dur ≤ max_size → prints dur ≡ true
  unfolding duration_string
  prints_lem dur le = let (d, e, _, _) = k.from_std_lem dur le in rw (prints, e) refl

-- The line that is logged for a request can be printed.
abbrev pub Printable : SecRun → Type 0
Printable r = r.dur ≤ max_size

-- The thread is not to quit, and can print the lines for its whole queue.
pub record Ready (d : RunnerData) : Type 0 where
  pub goes_on : d.quit ≡ false
  pub printable : All Printable d.queue

module _ (ch : CharTables) (k : Chrono) where
  pub round_prints-Ready :
      (now : ℕ) (d : RunnerData) (current : Option Run)
      → Ready d
      → round_prints ch k now d current ≡ true
  unfolding round_prints
  round_prints-Ready now d none v = rw v.goes_on (by_queue d.queue v.printable)
    where
      by_queue : (q : List SecRun) → All Printable q → front_prints ch k q ≡ true
      by_queue [] h = refl
      by_queue (run ∷ rest) h = prints_lem ch k run.dur h.0
  round_prints-Ready now d (some run) v = rw v.goes_on refl

pub round-Ready :
    (now : ℕ) (d : RunnerData) (current : Option Run) (w : WaitPeriod)
    → Ready d
    → Ready (round now d current w).state
unfolding round
round-Ready now d current w v =
    subst (λ x. Ready (round now x current w).state)
      (ap (λ b. record { quit = b; queue = d.queue }) (sym v.goes_on))
      (by_parts d.queue current v.printable)
  where
    running :
        (run : Run) (q : List SecRun)
        → All Printable q
        → Ready (running_round now (record { quit = false; queue = q }) run).state
    running run q h = elim (Bool-cases (leb run.dur (now - run.start_time))) [
      | inl over ↦ rw (running_round, over) (record { goes_on = refl; printable = h })
      | inr not_yet ↦ rw (running_round, not_yet) (record { goes_on = refl; printable = h })
    ]

    by_parts :
        (q : List SecRun) (r : Option Run)
        → All Printable q
        → Ready (round now (record { quit = false; queue = q }) r w).state
    by_parts [] none h = record { goes_on = refl; printable = h }
    by_parts (run ∷ rest) none h = record { goes_on = refl; printable = h.1 }
    by_parts q (some run) h = running run q h
