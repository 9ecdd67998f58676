-- ===== src/Schedule/Weekdays.antt =====
-- `every_day` and `next_weekday`.
use rinklers.Prelude.{
  ℕ, zero, suc, ◌+◌, ◌-◌, ◌%◌, ◌≤◌, ◌<◌, ◌≡◌, refl, inl, inr, List, [], ◌∷◌, map, done, ◌==◌,
  ==_iff, Bool-cases, arith,
}
use rinklers.Schedule.{search_weekday, next_weekday, every_day, weekdays_from}
use rinklers.Schedule.Chrono.{Calendar}

module _ (c : Calendar) where
  open c use {
    Date, Weekday, weekday, number, succ, day, number_lt, number_injective, from_u32_number,
    day-succ, weekday-succ,
  }

  -- the days from the weekday `v` to the next `w`, none if they are the same
  abbrev pub days_until : Weekday → Weekday → ℕ
  days_until v w = (number w + 7 - number v) % 7

  days_until-succ :
      (d : Date) (w : Weekday)
      → (number (weekday d) ≡ number w → ⊥)
      → days_until (weekday (succ d)) w + 1 ≡ days_until (weekday d) w
  days_until-succ d w h = omega (arith, weekday-succ d, number_lt w, number_lt (weekday d))

  search_weekday_lem :
      (rounds : ℕ) (d : Date) (w : Weekday)
      → days_until (weekday d) w < rounds
      → (weekday (search_weekday c rounds d w) ≡ w)
        × (day (search_weekday c rounds d w) ≡ day d + days_until (weekday d) w)
  unfolding search_weekday
  search_weekday_lem zero d w h = absurd (omega arith)
  search_weekday_lem (suc rounds) d w h = elim (Bool-cases (number (weekday d) == number w)) [
    | inl hit ↦
        let same : number (weekday d) ≡ number w = (==_iff _ _).0 hit in
        rw (hit, search_weekday) (number_injective _ _ same, omega (arith, number_lt w))
    | inr miss ↦
        let step = days_until-succ d w (λ e. ground arith) in
        let (found, at) = search_weekday_lem rounds (succ d) w (omega (arith, step)) in
        rw (miss, search_weekday) (found, omega (arith, at, step, day-succ d))
  ]

  -- The loop of `next_weekday` ends in seven rounds, at the first date from `d` on, `d` itself
  -- included, that has the weekday.
  pub next_weekday_lem :
      (d : Date) (w : Weekday)
      → (weekday (next_weekday c d w) ≡ w)
        × (day (next_weekday c d w) ≡ day d + days_until (weekday d) w)
  unfolding next_weekday
  next_weekday_lem d w = search_weekday_lem 7 d w (omega arith)

  -- the numbers from `i` on, so many
  abbrev pub count_up : ℕ → ℕ → List ℕ
  count_up zero i = []
  count_up (suc n) i = i ∷ count_up n (i + 1)

  weekdays_from_lem :
      (n i : ℕ)
      → i + n ≤ 7
      → (ws : List Weekday) × (weekdays_from c n i ≡ done ws) × (map number ws ≡ count_up n i)
  unfolding weekdays_from
  weekdays_from_lem zero i h = ([], refl, refl)
  weekdays_from_lem (suc n) i h =
      let (w, e, k) = from_u32_number i (omega arith) in
      let (ws, f, l) = weekdays_from_lem n (i + 1) (omega arith) in
      (w ∷ ws, rw (weekdays_from, e, f), ground (arith, k, l))

  -- `every_day` does not panic, and gives each of the seven weekdays once.
  pub every_day_lem :
      (ws : List Weekday) × (every_day c ≡ done ws)
      × (map number ws ≡ 0 ∷ 1 ∷ 2 ∷ 3 ∷ 4 ∷ 5 ∷ 6 ∷ [])
  unfolding every_day
  every_day_lem = weekdays_from_lem 7 0 (omega arith)
