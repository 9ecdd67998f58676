-- ===== src/ScheduleRunner/Waits.antt =====
-- Why the thread sleeps as long as it does.
use rinklers.Prelude.{
  ℕ, suc, ◌+◌, ◌-◌, ◌<◌, ◌≡◌, ◌⊎◌, refl, ◌∙◌, inl, inr, Option, none, some, List, [], ◌∷◌, true,
  false, leb, leb-false, get_elem?, arith, Bool-cases,
}
use rinklers.Util.WaitPeriod.{WaitPeriod, wait, at_most, no_wait, min-Within}
use rinklers.Schedule.Chrono.{Calendar}
use rinklers.IndexMap.{Entry, element, empty}
use rinklers.IndexMap.Invariant.{element?, view}
use rinklers.ScheduleRunner.{SchedRun, RunnerData, is_due, visit_at, visit, visit_from, tend, round}
use rinklers.ScheduleRunner.Rounds.{round-tend}

module _ (c : Calendar) (D : Type 0) where
  open c use {DateTime, stamp}

  -- One item accounts for the wait: it is due, or it has exactly this long left.
  abbrev pub AccountsFor : WaitPeriod → (now : DateTime) → SchedRun c D → Type 0
  AccountsFor wait now r = ⊥
  AccountsFor (at_most d) now r =
      (at : DateTime) × (r.next_run ≡ some at) × (stamp now < stamp at) × (d ≡ stamp at - stamp now)
  AccountsFor no_wait now r = is_due c D now r ≡ true

  visit_at-AccountsFor :
      (now later : DateTime) (r : SchedRun c D) (w : WaitPeriod) (next : Option DateTime)
      → r.next_run ≡ next
      → let w' = (visit_at c D now later r w next).wait_period in (w' ≡ w) ⊎ AccountsFor w' now r
  unfolding visit_at
  visit_at-AccountsFor now later r w none e = inl refl
  visit_at-AccountsFor now later r w (some at) e = elim (Bool-cases (leb (stamp at) (stamp now))) [
    | inl past ↦ rw past (inr (rw (is_due, e) past))
    | inr ahead ↦
        let (_, _, one) = min-Within w (at_most (stamp at - stamp now)) in
        rw ahead (elim one [
          | inl same ↦ inl same
          | inr left ↦ inr (rw left (at, e, leb-false (stamp at) (stamp now) ahead, refl))
        ])
  ]

  -- An item of the list accounts for the wait.
  abbrev SomeAccounts : WaitPeriod → (now : ℕ → DateTime) → ℕ → List (Entry (SchedRun c D)) → Type 0
  SomeAccounts w now i es =
      (j : ℕ) × (r : SchedRun c D) × (element? (get_elem? es j) ≡ some r)
      × AccountsFor w (now (i + j)) r

  SomeAccounts-cons :
      (w : WaitPeriod) (now : ℕ → DateTime) (i : ℕ) (x : Entry (SchedRun c D))
      (es : List (Entry (SchedRun c D)))
      → SomeAccounts w now (i + 1) es
      → SomeAccounts w now i (x ∷ es)
  SomeAccounts-cons w now i x es (j, r, e, a) =
      let next : i + suc j ≡ i + 1 + j = omega arith in (suc j, r, e, rw next a)

  visit_from-SomeAccounts :
      (now later : ℕ → DateTime) (i : ℕ) (es : List (Entry (SchedRun c D))) (w : WaitPeriod)
      → let w' = (visit_from c D now later i es w).wait_period in
        (w' ≡ w) ⊎ SomeAccounts w' now i es
  unfolding visit_from visit
  visit_from-SomeAccounts now later i [] w = inl refl
  visit_from-SomeAccounts now later i (empty n ∷ es) w =
      elim (visit_from-SomeAccounts now later (i + 1) es w) [
        | inl same ↦ inl same
        | inr a ↦ inr (SomeAccounts-cons _ now i (empty n) es a)
      ]
  visit_from-SomeAccounts now later i (element x ∷ es) w =
      let v = visit c D (now i) (later i) x w in
      elim (visit_from-SomeAccounts now later (i + 1) es v.wait_period) [
        | inl same ↦ elim (visit_at-AccountsFor (now i) (later i) x w x.next_run refl) [
          | inl same' ↦ inl (same ∙ same')
          | inr a ↦ let here : i + 0 ≡ i = omega arith in inr (0, x, refl, rw (here, same) a)
        ]
        | inr a ↦ inr (SomeAccounts-cons _ now i (element x) es a)
      ]

  -- The thread does not wake for nothing: a round of a runner that is not to quit either asks for a
  -- wait without a limit, or there is an item in the map that accounts for the wait. For no wait at
  -- all, this item was due; for a time limit, its next run is ahead by exactly this time.
  pub round-AccountsFor :
      (now later : ℕ → DateTime) (d : RunnerData c D) (w : WaitPeriod)
      → d.quit ≡ false
      → let w' = (round c D now later d w).wait_period in
        (w' ≡ wait)
        ⊎ ((j : ℕ) × (r : SchedRun c D) × (view d.runs j ≡ some r) × AccountsFor w' (now j) r)
  unfolding tend
  round-AccountsFor now later d w on =
      rw (round-tend c D now later d w on)
        (elim (visit_from-SomeAccounts now later 0 d.runs.entries wait) [
          | inl same ↦ inl same
          | inr (j, r, e, a) ↦ let start : 0 + j ≡ j = omega arith in inr (j, r, e, rw start at a)
        ])
