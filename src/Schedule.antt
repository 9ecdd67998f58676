-- ===== src/Schedule.antt =====
-- src/schedule.rs. Dates and times are those of the crate chrono, taken as the parameter `Calendar`.
-- A `TimeSet` or `WeekdaySet` is the list of its elements in the order in which it is iterated, which
-- for the hash set of weekdays is any order.
pub mod Chrono
pub mod Weekdays
pub mod Earliest
pub mod Window
pub mod Steady
pub mod Sets
pub mod Plain
pub mod Gregorian
pub mod Examples
use rinklers.Prelude.{
  ℕ, zero, suc, ◌+◌, Option, none, some, List, [], ◌∷◌, Bool, true, false, ltb, leb, ◌==◌,
  if◌then◌else◌, Outcome, done, panicked, ◌>>=◌,
}
use Chrono.{Calendar}

module _ (c : Calendar) where
  open c use {
    DateTime, Date, NaiveTime, Weekday, stamp, date, weekday, number, year, succ, and_time,
    add_week, with_year, from_u32,
  }

  pub data DateTimeBound : Type 0 where
    no_bound : DateTimeBound
    yearly : DateTime → DateTimeBound
    definite : DateTime → DateTimeBound

  -- `DateTimeBound::default`
  abbrev pub default_bound : DateTimeBound
  default_bound = no_bound

  -- `date` is the source's name of the reference.
  unfoldable pub resolve_from : DateTimeBound → DateTime → Option DateTime
  resolve_from no_bound date' = none
  resolve_from (yearly date_time) date' = with_year date_time (year date')
  resolve_from (definite date_time) date' = some date_time

  -- The current time is an argument.
  abbrev pub resolve : DateTimeBound → (now : DateTime) → Option DateTime
  resolve bound now = resolve_from bound now

  pub record Schedule : Type 0 where
    pub times : List NaiveTime
    pub weekdays : List Weekday
    pub from : DateTimeBound
    pub to : DateTimeBound

  -- `Schedule::default`
  abbrev pub default_schedule : Schedule
  default_schedule = record { times = []; weekdays = []; from = default_bound; to = default_bound }

  unfoldable pub new_schedule :
      List NaiveTime → List Weekday → DateTimeBound → DateTimeBound → Schedule
  new_schedule times weekdays from to = record {
    times = times;
    weekdays = weekdays;
    from = from;
    to = to;
  }

  -- the loop of `every_day`, from `i` on, for so many numbers
  weekdays_from : ℕ → ℕ → Outcome (List Weekday)
  weekdays_from zero i = done []
  weekdays_from (suc n) i = elim (from_u32 i) [
    | none ↦ panicked
    | some w ↦ weekdays_from n (i + 1) >>= λ ws. done (w ∷ ws)
  ]

  unfoldable pub every_day : Outcome (List Weekday)
  unfolding weekdays_from
  every_day = weekdays_from 7 0

  -- the loop of `next_weekday`, with a bound on its rounds
  unfoldable pub search_weekday : ℕ → Date → Weekday → Date
  search_weekday zero d w = d
  search_weekday (suc rounds) d w = elim (number (weekday d) == number w) [
    | true ↦ d
    | false ↦ search_weekday rounds (succ d) w
  ]

  unfoldable pub next_weekday : Date → Weekday → Date
  unfolding search_weekday
  next_weekday d w = search_weekday 7 d w

  -- the first `match` of `next_run_after`, on the resolved bounds
  unfoldable pub start_bound : Option DateTime → Option DateTime → Option DateTime
  start_bound (some from) (some to) =
      if ltb (stamp from) (stamp to) then with_year from (year from + 1) else some from
  start_bound (some from) none = some from
  start_bound none to = none

  -- the second: where the search starts
  unfoldable pub start_reference : Option DateTime → DateTime → DateTime
  start_reference (some from) reference =
      if ltb (stamp reference) (stamp from) then from else reference
  start_reference none reference = reference

  -- a date after the upper bound is dropped
  abbrev within : Option DateTime → Option DateTime → Option DateTime
  within (some d) (some to) = if ltb (stamp to) (stamp d) then none else some d
  within (some d) none = some d
  within none to = none

  abbrev not_before : DateTime → Option DateTime → Option DateTime
  not_before reference none = none
  not_before reference (some d) = some (if ltb (stamp d) (stamp reference) then add_week d else d)

  -- `date` in the body of the two loops
  unfoldable pub candidate_at : DateTime → Option DateTime → Weekday → NaiveTime → Option DateTime
  candidate_at reference to w t =
      within (not_before reference (and_time (next_weekday (date reference) w) t)) to

  -- the earlier of the candidate so far and the new date
  unfoldable pub earlier : Option DateTime → Option DateTime → Option DateTime
  earlier (some d1) (some d2) = some (if leb (stamp d1) (stamp d2) then d1 else d2)
  earlier (some d1) none = some d1
  earlier none d2 = d2

  -- the inner loop and the outer loop
  unfoldable pub over_times :
      DateTime → Option DateTime → Weekday → List NaiveTime → Option DateTime → Option DateTime
  over_times reference to w [] candidate = candidate
  over_times reference to w (t ∷ ts) candidate =
      over_times reference to w ts (earlier candidate (candidate_at reference to w t))

  unfoldable pub over_weekdays :
      DateTime → Option DateTime → List Weekday → List NaiveTime → Option DateTime → Option DateTime
  over_weekdays reference to [] ts candidate = candidate
  over_weekdays reference to (w ∷ ws) ts candidate =
      over_weekdays reference to ws ts (over_times reference to w ts candidate)

  -- where the search of `next_run_after` starts
  unfoldable pub search_start : Schedule → DateTime → DateTime
  search_start s reference =
      start_reference (start_bound (resolve_from s.from reference) (resolve_from s.to reference))
        reference

  unfoldable pub next_run_after : Schedule → DateTime → Option DateTime
  unfolding search_start
  next_run_after s reference =
      over_weekdays (search_start s reference) (resolve_from s.to reference) s.weekdays s.times none

  abbrev pub next_run : Schedule → (now : DateTime) → Option DateTime
  next_run s now = next_run_after s now
