-- ===== src/SourceTests/Schedules.antt =====
-- The tests of src/schedule.rs on the model, in UTC.
use rinklers.Prelude.{
  ℕ, ◌+◌, ◌-◌, ◌*◌, ◌/◌, ◌≡◌, refl, Option, none, some, List, [], ◌∷◌, Bool, true, ◌==◌, ltb, ◌&&◌,
  if◌then◌else◌,
}
use rinklers.Schedule.{
  DateTimeBound, no_bound, yearly, definite, resolve_from, Schedule, new_schedule, next_weekday,
  search_weekday, next_run_after, over_weekdays, over_times, earlier, candidate_at, start_reference,
  start_bound, search_start,
}
use rinklers.Schedule.Plain.{Day, mon, tue, wed, thu, fri, sat, sun}
use rinklers.Schedule.Gregorian.{
  utc, is_leap, days_before, years_before, day_length, same_date, on_year, with_year_after,
  utc_with_year,
}
use rinklers.SourceTests.{same_option}

-- `Local.ymd(y, m, d)`: the days of the months before `m` are (367 m - 362) / 12, as if February had
-- 30 days.
abbrev pub ymd : ℕ → ℕ → ℕ → ℕ
ymd y m d =
    let missing = if ltb m 3 then 0 else if is_leap y then 1 else 2 in
    days_before (y - 1) + (367 * m - 362) / 12 + d - 1 - missing

-- `NaiveTime::from_hms` and `and_hms`
abbrev pub from_hms : ℕ → ℕ → ℕ → ℕ
from_hms h m s = (h * 3600 + m * 60 + s) * 1000

abbrev pub and_hms : ℕ → ℕ → ℕ → ℕ → ℕ
and_hms d h m s = d * day_length + from_hms h m s

-- The cases of `test_date_time_bound`, with what is expected.
abbrev bound_cases : List (DateTimeBound utc × Option ℕ)
bound_cases =
    (no_bound, none)
    ∷ (definite (and_hms (ymd 2016 11 16) 10 30 0), some (and_hms (ymd 2016 11 16) 10 30 0))
    ∷ (yearly (and_hms (ymd 2016 11 16) 10 30 0), some (and_hms (ymd 2018 11 16) 10 30 0))
    ∷ (yearly (and_hms (ymd 2016 1 1) 0 0 0), some (and_hms (ymd 2018 1 1) 0 0 0))
    ∷ (yearly (and_hms (ymd 2016 12 31) 23 59 59), some (and_hms (ymd 2018 12 31) 23 59 59))
    ∷ (yearly (and_hms (ymd 2012 2 29) 0 0 0), none)
    ∷ []

abbrev test_date_time_bound : List (DateTimeBound utc × Option ℕ) → Bool
test_date_time_bound [] = true
test_date_time_bound ((bound, expected) ∷ cases) =
    same_option (resolve_from utc bound (and_hms (ymd 2018 1 1) 0 0 0)) expected
    && test_date_time_bound cases

date_time_bound_passes : test_date_time_bound bound_cases ≡ true
unfolding resolve_from utc_with_year with_year_after on_year same_date days_before years_before
date_time_bound_passes = refl

-- The cases of `test_next_weekday`: a date, a weekday, and the date expected.
abbrev weekday_cases : List (ℕ × Day × ℕ)
weekday_cases =
    (ymd 2016 11 16, wed, ymd 2016 11 16)
    ∷ (ymd 2016 11 16, fri, ymd 2016 11 18)
    ∷ (ymd 2016 11 16, tue, ymd 2016 11 22)
    ∷ (ymd 2016 12 30, tue, ymd 2017 1 3)
    ∷ (ymd 2016 11 16, tue, ymd 2016 11 22)
    ∷ []

abbrev test_next_weekday : List (ℕ × Day × ℕ) → Bool
test_next_weekday [] = true
test_next_weekday ((date, weekday, expected) ∷ cases) =
    (next_weekday utc date weekday == expected) && test_next_weekday cases

next_weekday_passes : test_next_weekday weekday_cases ≡ true
unfolding next_weekday search_weekday days_before
next_weekday_passes = refl

-- the schedule of `test_schedule`, and its cases
abbrev tested_schedule : Schedule utc
unfolding new_schedule
tested_schedule = new_schedule utc (from_hms 10 30 0 ∷ []) (wed ∷ []) no_bound no_bound

abbrev schedule_cases : List (ℕ × Option ℕ)
schedule_cases =
    (and_hms (ymd 2016 11 14) 10 30 0, some (and_hms (ymd 2016 11 16) 10 30 0))
    ∷ (and_hms (ymd 2016 11 16) 10 20 0, some (and_hms (ymd 2016 11 16) 10 30 0))
    ∷ (and_hms (ymd 2016 11 16) 10 40 0, some (and_hms (ymd 2016 11 23) 10 30 0))
    ∷ []

abbrev test_schedule : List (ℕ × Option ℕ) → Bool
test_schedule [] = true
test_schedule ((reference, expected) ∷ cases) =
    same_option (next_run_after utc tested_schedule reference) expected && test_schedule cases

schedule_passes : test_schedule schedule_cases ≡ true
unfolding new_schedule next_run_after next_weekday search_weekday over_weekdays over_times earlier
    candidate_at resolve_from start_reference start_bound search_start days_before
schedule_passes = refl

-- every day at 06:00, in each year from 29 February on
abbrev from_leap_day : Schedule utc
from_leap_day = record {
  times = from_hms 6 0 0 ∷ [];
  weekdays = mon ∷ tue ∷ wed ∷ thu ∷ fri ∷ sat ∷ sun ∷ [];
  from = yearly (and_hms (ymd 2016 2 29) 0 0 0);
  to = no_bound;
}

-- In January of a leap year its next run is on 29 February, but in a year without this date it is on
-- the same day: the bound is lost.
leap_day_bound_is_lost :
    (next_run_after utc from_leap_day (and_hms (ymd 2020 1 10) 5 0 0)
      ≡ some (and_hms (ymd 2020 2 29) 6 0 0))
    × (next_run_after utc from_leap_day (and_hms (ymd 2019 1 10) 5 0 0)
        ≡ some (and_hms (ymd 2019 1 10) 6 0 0))
unfolding next_run_after next_weekday search_weekday over_weekdays over_times earlier candidate_at
    resolve_from start_reference start_bound search_start utc_with_year with_year_after on_year
    same_date days_before years_before
leap_day_bound_is_lost = (refl, refl)
