-- ===== src/ScheduleRunner/Rounds.antt =====
-- One round of the thread: which items run, and how long it then sleeps.
use rinklers.Prelude.{
  ℕ, zero, suc, ◌+◌, ◌-◌, ◌≡◌, refl, sym, ap, ◌∙◌, inl, inr, Option, none, some, List, [], ◌∷◌,
  ◌++◌, false, leb, if◌then◌else◌, Bool-cases, get_elem?, length, arith,
}
use rinklers.Util.WaitPeriod.{
  WaitPeriod, wait, at_most, no_wait, min, Within, min-Within, Within-refl, Within-trans,
}
use rinklers.Schedule.Chrono.{Calendar}
use rinklers.IndexMap.{Entry, element, empty, iter, collect}
use rinklers.IndexMap.Invariant.{element?, link, view, IsValid, Chain-cong}
use rinklers.IndexMap.Iteration.{present, collect_all}
use rinklers.ScheduleRunner.{
  SchedRun, RunnerData, is_due, update_next_run, visit_at, visit, visit_from, round, tend,
}

module _ (c : Calendar) (D : Type 0) where
  open c use {DateTime, stamp}

  -- the items that are due, in the order of the list
  abbrev pub due : (now : ℕ → DateTime) → List (ℕ × SchedRun c D) → List D
  due now [] = []
  due now ((i, r) ∷ xs) = (if is_due c D (now i) r then r.item ∷ [] else []) ++ due now xs

  -- what becomes of the item at an index
  abbrev pub visited : (now later : DateTime) → Option (SchedRun c D) → Option (SchedRun c D)
  visited now later none = none
  visited now later (some r) = some (if is_due c D now r then update_next_run c D r later else r)

  -- The sleep is over when the item is due, or before.
  abbrev pub WakesFor : WaitPeriod → (now : DateTime) → SchedRun c D → Type 0
  WakesFor w now r =
      (at : DateTime) → r.next_run ≡ some at → Within w (at_most (stamp at - stamp now))

  visit-executed :
      (now later : DateTime) (r : SchedRun c D) (w : WaitPeriod)
      → (visit c D now later r w).executed ≡ (if is_due c D now r then r.item ∷ [] else [])
  unfolding visit
  visit-executed now later r w = ground arith

  visit-run :
      (now later : DateTime) (r : SchedRun c D) (w : WaitPeriod)
      → some (visit c D now later r w).run ≡ visited now later (some r)
  unfolding visit update_next_run
  visit-run now later r w = ground arith

  no_wait-Within : (w : WaitPeriod) → Within no_wait w
  no_wait-Within wait = tt
  no_wait-Within (at_most d) = tt
  no_wait-Within no_wait = tt

  visit_at-Within :
      (now later : DateTime) (r : SchedRun c D) (w : WaitPeriod) (next : Option DateTime)
      → Within (visit_at c D now later r w next).wait_period w
        × ((at : DateTime)
            → next ≡ some at
            → Within (visit_at c D now later r w next).wait_period (at_most (stamp at - stamp now)))
  unfolding visit_at
  visit_at-Within now later r w none = (Within-refl w, λ at e. absurd (cc e))
  visit_at-Within now later r w (some at) = elim (Bool-cases (leb (stamp at) (stamp now))) [
    | inl past ↦ rw past (no_wait-Within w, λ at' e. tt)
    | inr ahead ↦
        let (le_w, le_at, _) = min-Within w (at_most (stamp at - stamp now)) in
        rw ahead (
          le_w,
          λ at' e.
              Within-trans (min w (at_most (stamp at - stamp now))) (at_most (stamp at - stamp now))
                (at_most (stamp at' - stamp now)) le_at (ground arith),
        )
  ]

  -- A visit never lengthens the wait, and the wait ends in time for its item.
  visit-Within :
      (now later : DateTime) (r : SchedRun c D) (w : WaitPeriod)
      → Within (visit c D now later r w).wait_period w
        × WakesFor (visit c D now later r w).wait_period now r
  unfolding visit
  visit-Within now later r w = visit_at-Within now later r w r.next_run

  visit_from-executed :
      (now later : ℕ → DateTime) (i : ℕ) (es : List (Entry (SchedRun c D))) (w : WaitPeriod)
      → (visit_from c D now later i es w).executed ≡ due now (present i es)
  unfolding visit_from
  visit_from-executed now later i [] w = refl
  visit_from-executed now later i (empty n ∷ es) w = visit_from-executed now later (i + 1) es w
  visit_from-executed now later i (element r ∷ es) w = rw (
    visit-executed (now i) (later i) r w,
    visit_from-executed now later (i + 1) es (visit c D (now i) (later i) r w).wait_period,
  )

  visit_from-view :
      (now later : ℕ → DateTime) (i j : ℕ) (es : List (Entry (SchedRun c D))) (w : WaitPeriod)
      → element? (get_elem? (visit_from c D now later i es w).entries j)
        ≡ visited (now (i + j)) (later (i + j)) (element? (get_elem? es j))
  unfolding visit_from
  visit_from-view now later i j [] w = refl
  visit_from-view now later i zero (empty n ∷ es) w = refl
  visit_from-view now later i (suc j) (empty n ∷ es) w =
      let next : i + suc j ≡ i + 1 + j = omega arith in
      rw next (visit_from-view now later (i + 1) j es w)
  visit_from-view now later i zero (element r ∷ es) w =
      let here : i + 0 ≡ i = omega arith in rw here (visit-run (now i) (later i) r w)
  visit_from-view now later i (suc j) (element r ∷ es) w =
      let next : i + suc j ≡ i + 1 + j = omega arith in
      rw next (visit_from-view now later (i + 1) j es (visit c D (now i) (later i) r w).wait_period)

  -- The loop leaves the empty entries alone.
  visit_from-link :
      (now later : ℕ → DateTime) (i j : ℕ) (es : List (Entry (SchedRun c D))) (w : WaitPeriod)
      → link (visit_from c D now later i es w).entries j ≡ link es j
  unfolding visit_from
  visit_from-link now later i j [] w = refl
  visit_from-link now later i zero (empty n ∷ es) w = refl
  visit_from-link now later i (suc j) (empty n ∷ es) w = visit_from-link now later (i + 1) j es w
  visit_from-link now later i zero (element r ∷ es) w = refl
  visit_from-link now later i (suc j) (element r ∷ es) w =
      visit_from-link now later (i + 1) j es (visit c D (now i) (later i) r w).wait_period

  abbrev WakesForAll : WaitPeriod → (ℕ → DateTime) → ℕ → List (Entry (SchedRun c D)) → Type 0
  WakesForAll w now i es =
      (j : ℕ) (r : SchedRun c D) → element? (get_elem? es j) ≡ some r → WakesFor w (now (i + j)) r

  wakes-empty :
      (w : WaitPeriod) (now : ℕ → DateTime) (i : ℕ) (n : Option ℕ)
      (es : List (Entry (SchedRun c D)))
      → WakesForAll w now (i + 1) es
      → WakesForAll w now i (empty n ∷ es)
  wakes-empty w now i n es h zero r e = absurd (cc e)
  wakes-empty w now i n es h (suc j) r e =
      let next : i + suc j ≡ i + 1 + j = omega arith in rw next (h j r e)

  wakes-element :
      (w : WaitPeriod) (now : ℕ → DateTime) (i : ℕ) (x : SchedRun c D)
      (es : List (Entry (SchedRun c D)))
      → WakesFor w (now i) x
      → WakesForAll w now (i + 1) es
      → WakesForAll w now i (element x ∷ es)
  wakes-element w now i x es first h zero r e =
      let here : i + 0 ≡ i = omega arith in
      let same : x ≡ r = ground arith in rw (here, ← same) first
  wakes-element w now i x es first h (suc j) r e =
      let next : i + suc j ≡ i + 1 + j = omega arith in rw next (h j r e)

  -- The wait that the loop returns is within the one it starts with, and ends in time for each item.
  pub visit_from-Within :
      (now later : ℕ → DateTime) (i : ℕ) (es : List (Entry (SchedRun c D))) (w : WaitPeriod)
      → Within (visit_from c D now later i es w).wait_period w
        × WakesForAll (visit_from c D now later i es w).wait_period now i es
  unfolding visit_from
  visit_from-Within now later i [] w = (Within-refl w, λ j r e. absurd (cc e))
  visit_from-Within now later i (empty n ∷ es) w =
      let (le_w, all) = visit_from-Within now later (i + 1) es w in
      (le_w, wakes-empty _ now i n es all)
  visit_from-Within now later i (element x ∷ es) w =
      let v = visit c D (now i) (later i) x w in
      let (le_w, wakes) = visit-Within (now i) (later i) x w in
      let (le_v, all) = visit_from-Within now later (i + 1) es v.wait_period in
      (
        Within-trans _ v.wait_period w le_v le_w,
        wakes-element _ now i x es
            (λ at e.
              Within-trans _ v.wait_period (at_most (stamp at - stamp (now i))) le_v (wakes at e))
            all,
      )

  pub round-tend :
      (now later : ℕ → DateTime) (d : RunnerData c D) (w : WaitPeriod)
      → d.quit ≡ false
      → round c D now later d w ≡ tend c D now later d
  unfolding round
  round-tend now later d w h = ground arith

  pub executed-due :
      (now later : ℕ → DateTime) (d : RunnerData c D) (w : WaitPeriod)
      → d.quit ≡ false
      → (round c D now later d w).executed ≡ due now (present 0 d.runs.entries)
  unfolding tend
  executed-due now later d w on =
      ap (λ r. r.executed) (round-tend now later d w on)
      ∙ visit_from-executed now later 0 d.runs.entries wait

  tend-view :
      (now later : ℕ → DateTime) (d : RunnerData c D) (j : ℕ)
      → view (tend c D now later d).state.runs j ≡ visited (now j) (later j) (view d.runs j)
  unfolding tend
  tend-view now later d j =
      let start : 0 + j ≡ j = omega arith in
      rw start at (visit_from-view now later 0 j d.runs.entries wait)

  tend-IsValid :
      (now later : ℕ → DateTime) (d : RunnerData c D)
      → IsValid d.runs
      → IsValid (tend c D now later d).state.runs
  unfolding tend
  tend-IsValid now later d v = record {
    free = v.free;
    chain =
        Chain-cong (link d.runs.entries) _ d.runs.next_empty v.free
          (λ j h. visit_from-link now later 0 j d.runs.entries wait) v.chain;
    distinct = v.distinct;
    covers = λ j n h. v.covers j n (sym (visit_from-link now later 0 j d.runs.entries wait) ∙ h);
  }

  -- A round of a runner that is not to quit executes exactly the items that are due, in the order of
  -- their indices. Each of these gets its next run anew, the other items stay as they are, and the map
  -- stays valid.
  pub round-executed :
      (now later : ℕ → DateTime) (d : RunnerData c D) (w : WaitPeriod)
      → d.quit ≡ false
      → IsValid d.runs
      → let r = round c D now later d w in
        (r.executed ≡ due now (collect (length d.runs.entries) (iter d.runs)))
        × ((j : ℕ) → view r.state.runs j ≡ visited (now j) (later j) (view d.runs j))
        × IsValid r.state.runs
  unfolding tend
  round-executed now later d w on v = rw (round-tend now later d w on) (
    visit_from-executed now later 0 d.runs.entries wait
        ∙ ap (due now) (sym (collect_all d.runs (length d.runs.entries) (omega arith))),
    tend-view now later d,
    tend-IsValid now later d v,
  )

  -- The thread never oversleeps: the wait that a round asks for ends by the next run of each item that
  -- the round found in the map. It is without a limit only if no item had a next run.
  pub round-WakesFor :
      (now later : ℕ → DateTime) (d : RunnerData c D) (w : WaitPeriod) (j : ℕ) (run : SchedRun c D)
      → d.quit ≡ false
      → view d.runs j ≡ some run
      → WakesFor (round c D now later d w).wait_period (now j) run
  unfolding tend
  round-WakesFor now later d w j run on e = rw (round-tend now later d w on) (
      let start : 0 + j ≡ j = omega arith in
      rw start at ((visit_from-Within now later 0 d.runs.entries wait).1 j run e))
