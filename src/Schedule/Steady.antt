-- ===== src/Schedule/Steady.antt =====
-- Where every day has every time and a week later is the same time, as in a time zone without
-- daylight saving, `next_run_after` finds the earliest occurrence of the schedule.
use rinklers.Prelude.{
  ℕ, zero, suc, ◌+◌, ◌-◌, ◌%◌, ◌/◌, ◌*◌, ◌≤◌, ◌<◌, ◌≡◌, refl, ap, ◌∙◌, inl, inr, Option, none, some,
  ltb, Bool-cases, arith, if◌then◌else◌,
}
use native.Mathlib.Decide.{dec_lt}
use rinklers.Schedule.{
  Schedule, resolve_from, next_weekday, within, not_before, candidate_at, search_start,
  next_run_after,
}
use rinklers.Schedule.Chrono.{Calendar}
use rinklers.Schedule.Weekdays.{next_weekday_lem}
use rinklers.Schedule.Earliest.{In, Earliest, Considered, next_run_after-Earliest}
use rinklers.Schedule.Window.{InWindow, within-some, Considered-InWindow}

module _ (c : Calendar) where
  open c use {
    DateTime, Date, NaiveTime, Weekday, stamp, date, day, weekday, number, succ, add_week, and_time,
    number_lt, number_injective, day_injective, day-succ, weekday-succ, stamp-day, date-and_time,
    stamp-add_week,
  }

  pub record IsSteady : Type 0 where
    pub and_time_total : (d : Date) (t : NaiveTime) → (x : DateTime) × (and_time d t ≡ some x)
    pub and_time_week :
        (d e : Date) (t : NaiveTime) (x : DateTime)
        → day e ≡ day d + 7
        → and_time d t ≡ some x
        → and_time e t ≡ some (add_week x)

  -- The schedule asks for a run at `x`: on one of its weekdays, at one of its times.
  abbrev pub Occurs : Schedule c → DateTime → Type 0
  Occurs s x =
      In (weekday (date x)) s.weekdays
      × (t : NaiveTime) × In t s.times
      × (and_time (date x) t ≡ some x)

  -- The weekdays go round in seven days.
  weekday_ahead :
      (k : ℕ) (d e : Date) → day e ≡ day d + k → number (weekday e) ≡ (number (weekday d) + k) % 7
  weekday_ahead zero d e h =
      let same : e ≡ d = day_injective e d (omega arith) in
      rw same (omega (arith, number_lt (weekday d)))
  weekday_ahead (suc k) d e h =
      omega (arith, weekday-succ d, weekday_ahead k (succ d) e (omega (arith, day-succ d)))

  week_after : Date → Date
  week_after d = succ (succ (succ (succ (succ (succ (succ d))))))

  day-week_after : (d : Date) → day (week_after d) ≡ day d + 7
  unfolding week_after
  day-week_after d = omega (arith, day-succ)

  weekday-week_after : (d : Date) → weekday (week_after d) ≡ weekday d
  weekday-week_after d =
      number_injective _ _
        (omega (arith, weekday_ahead 7 d (week_after d) (day-week_after d), number_lt (weekday d)))

  -- A time on a date of the weekday `w`.
  on_date :
      (d : Date) (w : Weekday) (t : NaiveTime) (y : DateTime)
      → weekday d ≡ w
      → and_time d t ≡ some y
      → (weekday (date y) ≡ w) × (and_time (date y) t ≡ some y)
  on_date d w t y k e = rw (date-and_time d t y e) (k, e)

  within_bound :
      (d : DateTime) (to : Option DateTime)
      → ((t : DateTime) → to ≡ some t → stamp d ≤ stamp t)
      → within c (some d) to ≡ some d
  within_bound d none h = refl
  within_bound d (some t) h = ground (arith, h t refl)

  -- What is the first of the smaller collection is the first of the larger, if each of the larger has one of
  -- the smaller before it.
  Earliest-dominated :
      (P Q : DateTime → Type 0) (a : Option DateTime)
      → ((y : DateTime) → P y → Q y)
      → ((y : DateTime) → Q y → (z : DateTime) × P z × (stamp z ≤ stamp y))
      → Earliest c P a
      → Earliest c Q a
  Earliest-dominated P Q none to back h = λ y q. let (z, p, _) = back y q in h z p
  Earliest-dominated P Q (some r) to back h =
      (to r h.0, λ y q. let (z, p, le) = back y q in omega (arith, h.1 z p))

  -- The search starts on the first date of the weekday, as many days ahead as the occurrence modulo 7.
  day-next_weekday :
      (k : ℕ) (d e : Date) → day e ≡ day d + k → day (next_weekday c d (weekday e)) ≡ day d + k % 7
  day-next_weekday k d e h =
      omega
        (arith, (next_weekday_lem c d (weekday e)).1, weekday_ahead k d e h, number_lt (weekday d))

  date-le :
      (reference x : DateTime) → stamp reference ≤ stamp x → day (date reference) ≤ day (date x)
  date-le reference x h = elim (dec_lt (day (date x)) (day (date reference))) [
    | yes before ↦ absurd (omega (arith, stamp-day x reference before))
    | no later ↦ omega arith
  ]

  module _ (steady : IsSteady) where
    open steady use {and_time_total, and_time_week}

    -- A date of the search, or the one a week later, is on the weekday at the time.
    candidate_at-Occurs :
        (reference : DateTime) (to : Option DateTime) (w : Weekday) (t : NaiveTime) (y : DateTime)
        → candidate_at c reference to w t ≡ some y
        → (weekday (date y) ≡ w) × (and_time (date y) t ≡ some y)
    unfolding candidate_at
    candidate_at-Occurs reference to w t y h =
        let (x, e) = and_time_total nw t in
        let (q, _) = within-some c (not_before c reference (some x)) to y (rw e at h) in
        elim (Bool-cases (ltb (stamp x) (stamp reference))) [
          | inl past ↦
              on_date (week_after nw) w t y (weekday-week_after nw ∙ found)
                (and_time_week nw (week_after nw) t x (day-week_after nw) e ∙ (rw past at q))
          | inr later ↦ on_date nw w t y found (e ∙ (rw later at q))
        ]
      where
        nw : Date
        nw = next_weekday c (date reference) w

        found : weekday nw ≡ w
        found = (next_weekday_lem c (date reference) w).0

    -- The candidate a week later is not past an occurrence that is at least a week later.
    add_week-le :
        (d : Date) (t : NaiveTime) (x0 x : DateTime)
        → and_time d t ≡ some x0
        → and_time (date x) t ≡ some x
        → day d + 7 ≤ day (date x)
        → stamp (add_week x0) ≤ stamp x
    add_week-le d t x0 x e at far = elim (dec_lt (day d + 7) (day (date x))) [
      | yes further ↦
          let on =
            date-and_time (week_after d) t (add_week x0)
              (and_time_week d (week_after d) t x0 (day-week_after d) e) in
          omega (arith, stamp-day (add_week x0) x (omega (arith, ap day on, day-week_after d)))
      | no same ↦
          let e' : and_time (date x) t ≡ some (add_week x0) =
            and_time_week d (date x) t x0 (omega arith) e in
          ground arith
    ]

    Considered-Occurs :
        (s : Schedule c) (reference y : DateTime) → Considered c s reference y → Occurs s y
    Considered-Occurs s reference y (w, i, (t, j, e)) =
        let (day_ok, time_ok) = candidate_at-Occurs _ _ w t y e in (rw day_ok i, t, j, time_ok)

    -- An occurrence in the window is not before the candidate for its weekday and time.
    candidate-before :
        (reference : DateTime) (to : Option DateTime) (x : DateTime) (t : NaiveTime)
        → InWindow c reference to x
        → and_time (date x) t ≡ some x
        → (y : DateTime) × (candidate_at c reference to (weekday (date x)) t ≡ some y)
          × (stamp y ≤ stamp x)
    unfolding candidate_at
    candidate-before reference to x t inside at = elim (dec_lt (day nw) (day (date x))) [
      | yes far ↦ later_week far
      | no near ↦
          let same : date x ≡ nw = day_injective (date x) nw (omega (arith, ahead)) in
          (x, made_from x x (rw same at at) not_past inside.1, omega arith)
    ]
      where
        nw : Date
        nw = next_weekday c (date reference) (weekday (date x))

        k : ℕ
        k = day (date x) - day (date reference)

        ahead : day nw + 7 * (k / 7) ≡ day (date x)
        ahead = omega (
          arith,
          date-le reference x inside.0,
          day-next_weekday k (date reference) (date x)
              (omega (arith, date-le reference x inside.0)),
        )

        not_past : not_before c reference (some x) ≡ some x
        not_past = ground (arith, inside.0)

        made_from :
            (x0 y : DateTime)
            → and_time nw t ≡ some x0
            → not_before c reference (some x0) ≡ some y
            → ((b : DateTime) → to ≡ some b → stamp y ≤ stamp b)
            → candidate_at c reference to (weekday (date x)) t ≡ some y
        made_from x0 y e q bound = rw e (ap (λ o. within c o to) q ∙ within_bound y to bound)

        later_week :
            day nw < day (date x)
            → (y : DateTime) × (candidate_at c reference to (weekday (date x)) t ≡ some y)
              × (stamp y ≤ stamp x)
        later_week far =
            let (x0, e) = and_time_total nw t in
            let y : DateTime = if ltb (stamp x0) (stamp reference) then add_week x0 else x0 in
            let first : stamp y ≤ stamp x =
              ground
                (arith, stamp-add_week x0, add_week-le nw t x0 x e at (omega (arith, ahead))) in
            (y, made_from x0 y e refl (λ b h. omega (arith, first, inside.1 b h)), first)

    -- In a steady calendar `next_run_after` is the earliest occurrence of the schedule from the start
    -- of the search on and up to the bound `to`; it is `none` exactly if there is none.
    pub next_run_after-Occurs :
        (s : Schedule c) (reference : DateTime)
        → Earliest c
            (λ x.
              Occurs s x
              × InWindow c (search_start c s reference) (resolve_from c s.to reference) x)
            (next_run_after c s reference)
    next_run_after-Occurs s reference =
        Earliest-dominated (Considered c s reference) _ (next_run_after c s reference)
          (λ y m. (Considered-Occurs s reference y m, Considered-InWindow c s reference y m))
          (λ x (o, inside).
            let (i, t, j, at) = o in
            let (y, e, le) = candidate-before _ _ x t inside at in
            (y, (weekday (date x), i, (t, j, e)), le))
          (next_run_after-Earliest c s reference)
