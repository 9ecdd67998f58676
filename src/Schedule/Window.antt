-- ===== src/Schedule/Window.antt =====
-- The bounds of `next_run_after`, and the order in which the sets are iterated.
use rinklers.Prelude.{
  ◌+◌, ◌≤◌, ◌<◌, ◌≡◌, sym, ap, ◌↔◌, inl, inr, Option, none, some, ltb→lt, lt→ltb, Option-cases,
  arith,
}
use native.Mathlib.Decide.{dec_lt}
use rinklers.Schedule.{
  Schedule, yearly, resolve_from, next_weekday, within, not_before, candidate_at, search_start,
  start_bound, start_reference, next_run_after,
}
use rinklers.Schedule.Chrono.{Calendar}
use rinklers.Schedule.Weekdays.{next_weekday_lem}
use rinklers.Schedule.Earliest.{In, Earliest, Considered, Earliest-unique, next_run_after-Earliest}

module _ (c : Calendar) where
  open c use {
    DateTime, Date, NaiveTime, Weekday, stamp, date, day, year, weekday, add_week, and_time,
    with_year, week, stamp-day, stamp_same_day, stamp-add_week, date-and_time, stamp-year,
    year-with_year,
  }

  -- not before the start, and not after the bound `to`, if there is one
  abbrev pub InWindow : DateTime → Option DateTime → DateTime → Type 0
  InWindow begin to y = (stamp begin ≤ stamp y) × ((t : DateTime) → to ≡ some t → stamp y ≤ stamp t)

  pub within-some :
      (a to : Option DateTime) (y : DateTime)
      → within c a to ≡ some y
      → (a ≡ some y) × ((t : DateTime) → to ≡ some t → stamp y ≤ stamp t)
  within-some none none y h = cc
  within-some none (some t) y h = cc
  within-some (some d) none y h = (h, λ t e. cc)
  within-some (some d) (some t) y h = (ground arith, λ u e. ground arith)

  -- A time on a date of the search, a week later if it is past, is not before the start.
  shifted :
      (reference : DateTime) (d : Date) (t : NaiveTime) (x : DateTime)
      → day (date reference) ≤ day d
      → and_time d t ≡ some x
      → stamp x < stamp reference
      → stamp reference ≤ stamp (add_week x)
  shifted reference d t x later e past =
      let on : date x ≡ d = date-and_time d t x e in
      let at : day (date x) ≡ day d = ap day on in
      elim (dec_lt (day (date reference)) (day (date x))) [
        | yes before ↦ omega (arith, stamp-day reference x before)
        | no same ↦
            omega (arith, stamp-add_week x, stamp_same_day reference x (omega (arith, at, same)))
      ]

  candidate_at-InWindow :
      (reference : DateTime) (to : Option DateTime) (w : Weekday) (t : NaiveTime) (y : DateTime)
      → candidate_at c reference to w t ≡ some y
      → InWindow reference to y
  unfolding candidate_at
  candidate_at-InWindow reference to w t y h =
      elim (Option-cases (and_time (next_weekday c (date reference) w) t)) [
        | inl e ↦ absurd (cc ((within-some none to y (rw e at h)).0))
        | inr (x, e) ↦ let (q, up) = within-some _ to y (rw e at h) in (at_or_after x e q, up)
      ]
    where
      at_or_after :
          (x : DateTime)
          → and_time (next_weekday c (date reference) w) t ≡ some x
          → not_before c reference (some x) ≡ some y
          → stamp reference ≤ stamp y
      at_or_after x e q = ground (
        arith,
        (next_weekday_lem c (date reference) w).1,
        shifted reference (next_weekday c (date reference) w) t x,
        ltb→lt (stamp x) (stamp reference),
      )

  -- A date considered lies between the start of the search and the upper bound.
  pub Considered-InWindow :
      (s : Schedule c) (reference y : DateTime)
      → Considered c s reference y
      → InWindow (search_start c s reference) (resolve_from c s.to reference) y
  Considered-InWindow s reference y (w, i, (t, j, e)) = candidate_at-InWindow _ _ w t y e

  search_start-le :
      (s : Schedule c) (reference : DateTime) → stamp reference ≤ stamp (search_start c s reference)
  unfolding search_start start_reference
  search_start-le s reference = ground arith

  pub next_run_after-InWindow :
      (s : Schedule c) (reference r : DateTime)
      → next_run_after c s reference ≡ some r
      → InWindow (search_start c s reference) (resolve_from c s.to reference) r
        × (stamp reference ≤ stamp r)
  next_run_after-InWindow s reference r h =
      let first : Earliest c (Considered c s reference) (some r) =
        rw h at (next_run_after-Earliest c s reference) in
      let inside = Considered-InWindow s reference r first.0 in
      (inside, omega (arith, inside.0, search_start-le s reference))

  -- The order in which the sets are iterated, and repetitions, do not matter: schedules with the same bounds and the same
  -- members have the same next run.
  pub next_run_after-set :
      (s s' : Schedule c) (reference : DateTime)
      → s.from ≡ s'.from
      → s.to ≡ s'.to
      → ((w : Weekday) → In w s.weekdays ↔ In w s'.weekdays)
      → ((t : NaiveTime) → In t s.times ↔ In t s'.times)
      → next_run_after c s reference ≡ next_run_after c s' reference
  unfolding search_start
  next_run_after-set s s' reference from to ws ts =
      Earliest-unique c _ _ _ _ (carry s s' from to (λ w. (ws w).0) (λ t. (ts t).0))
        (carry s' s (sym from) (sym to) (λ w. (ws w).1) (λ t. (ts t).1))
        (next_run_after-Earliest c s reference) (next_run_after-Earliest c s' reference)
    where
      carry :
          (a b : Schedule c)
          → a.from ≡ b.from
          → a.to ≡ b.to
          → ((w : Weekday) → In w a.weekdays → In w b.weekdays)
          → ((t : NaiveTime) → In t a.times → In t b.times)
          → (y : DateTime) → Considered c a reference y
          → Considered c b reference y
      carry a b from to ws ts y (w, i, (t, j, e)) = (w, ws w i, (t, ts t j, rw (← from, ← to) e))

  le-start_reference :
      (from reference : DateTime) → stamp from ≤ stamp (start_reference c (some from) reference)
  unfolding start_reference
  le-start_reference from reference = ground arith

  -- With both bounds yearly and `from` before `to`, the search starts in the year after that of `to`.
  to-lt-search_start :
      (s : Schedule c) (reference from_date from to moved : DateTime)
      → s.from ≡ yearly from_date
      → with_year from_date (year reference) ≡ some from
      → resolve_from c s.to reference ≡ some to
      → year to ≡ year reference
      → stamp from < stamp to
      → with_year from (year from + 1) ≡ some moved
      → stamp to < stamp (search_start c s reference)
  unfolding search_start start_bound resolve_from
  to-lt-search_start s reference from_date from to moved f at_from at_to same order at_moved =
      rw (f, resolve_from, at_from, at_to, lt→ltb _ _ order, at_moved)
        (omega (
          arith,
          le-start_reference moved reference,
          year-with_year from (year from + 1) moved at_moved,
          year-with_year from_date (year reference) from at_from,
          stamp-year to moved,
        ))

  -- If the year that the bound `from` is moved to has its date, a schedule with two yearly bounds of
  -- which `from` comes first in the year of the reference has no next run, whatever its times and
  -- weekdays.
  pub yearly_bounds_never_run :
      (s : Schedule c) (reference from_date to_date from to moved : DateTime)
      → s.from ≡ yearly from_date
      → s.to ≡ yearly to_date
      → with_year from_date (year reference) ≡ some from
      → with_year to_date (year reference) ≡ some to
      → stamp from < stamp to
      → with_year from (year from + 1) ≡ some moved
      → next_run_after c s reference ≡ none
  unfolding resolve_from
  yearly_bounds_never_run s reference from_date to_date from to moved f t at_from at_to order
        at_moved =
      elim (Option-cases (next_run_after c s reference)) [
        | inl never ↦ never
        | inr (r, runs) ↦
            let bound : resolve_from c s.to reference ≡ some to = rw (t, resolve_from) at_to in
            let ((begin, end), _) = next_run_after-InWindow s reference r runs in
            absurd (
              omega (
                arith,
                begin,
                end to bound,
                to-lt-search_start s reference from_date from to moved f at_from bound
                    (year-with_year to_date (year reference) to at_to) order at_moved,
              ))
      ]
