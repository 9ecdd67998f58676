-- ===== src/Schedule/Examples.antt =====
-- The theorems about schedules in a concrete calendar.
use mathlib.Core.Quot
use rinklers.Prelude.{ℕ, ◌+◌, ◌*◌, ◌%◌, ◌≡◌, refl, inl, inr, none, some, List, [], ◌∷◌, arith}
use rinklers.Schedule.{
  Schedule, no_bound, yearly, resolve_from, next_weekday, next_run_after, search_start,
  over_weekdays, over_times, earlier, candidate_at, start_reference, start_bound,
}
use rinklers.Schedule.Weekdays.{next_weekday_lem, days_until}
use rinklers.Schedule.Earliest.{In, Earliest}
use rinklers.Schedule.Sets.{next_run, with_time, with_weekday, NoLater, next_run-sets}
use rinklers.Schedule.Window.{InWindow, next_run_after-set, yearly_bounds_never_run}
use rinklers.Schedule.Steady.{Occurs, next_run_after-Occurs}
use rinklers.Schedule.Plain.{Day, mon, wed, fri, nth_day, plain}
use rinklers.Schedule.Gregorian.{utc, utc-IsSteady, days_before, day_length}

next_weekday_lem_example :
    (nth_day (next_weekday plain 9 mon % 7) ≡ mon)
    × (next_weekday plain 9 mon ≡ 9 + days_until plain (nth_day (9 % 7)) mon)
next_weekday_lem_example = next_weekday_lem plain 9 mon

-- every Wednesday at 10:30
abbrev pub wednesdays : Schedule plain
wednesdays = record { times = 630 ∷ []; weekdays = wed ∷ []; from = no_bound; to = no_bound }

-- `test_schedule`: from Monday, and from Wednesday before and after the time; and at the time itself
wednesday_runs :
    (next_run_after plain wednesdays 630 ≡ some (2 * 1440 + 630))
    × (next_run_after plain wednesdays (2 * 1440 + 620) ≡ some (2 * 1440 + 630))
    × (next_run_after plain wednesdays (2 * 1440 + 640) ≡ some (9 * 1440 + 630))
    × (next_run_after plain wednesdays (2 * 1440 + 630) ≡ some (2 * 1440 + 630))
unfolding next_run_after next_weekday over_weekdays over_times earlier candidate_at resolve_from
    start_reference start_bound
wednesday_runs = (refl, refl, refl, refl)

abbrev twice_a_week : List Day → List ℕ → Schedule plain
twice_a_week ds ts = record { times = ts; weekdays = ds; from = no_bound; to = no_bound }

swap_In : {A : Type 0} (a b x : A) → In x (a ∷ b ∷ []) → In x (b ∷ a ∷ [])
swap_In a b x (inl e) = inr (inl e)
swap_In a b x (inr (inl e)) = inl e
swap_In a b x (inr (inr h)) = inr (inr h)

twice_a_week_set :
    next_run_after plain (twice_a_week (mon ∷ fri ∷ []) (60 ∷ 30 ∷ [])) 2000
    ≡ next_run_after plain (twice_a_week (fri ∷ mon ∷ []) (30 ∷ 60 ∷ [])) 2000
twice_a_week_set =
    next_run_after-set plain (twice_a_week (mon ∷ fri ∷ []) (60 ∷ 30 ∷ []))
      (twice_a_week (fri ∷ mon ∷ []) (30 ∷ 60 ∷ [])) 2000 refl refl
      (λ w. (swap_In mon fri w, swap_In fri mon w)) (λ t. (swap_In 60 30 t, swap_In 30 60 t))

-- every Wednesday and Friday at 10:30 UTC, from 1 March of each year, which is its 60th day or its 61st
abbrev pub from_march : Schedule utc
from_march = record {
  times = 37800000 ∷ [];
  weekdays = wed ∷ fri ∷ [];
  from = yearly ((days_before 2015 + 60) * day_length);
  to = no_bound;
}

-- in January of 2018
abbrev january : ℕ
january = (days_before 2017 + 14) * day_length

next_run_after-Occurs_example :
    Earliest utc
      (λ x.
        Occurs utc from_march x
        × InWindow utc (search_start utc from_march january) (resolve_from utc no_bound january) x)
      (next_run_after utc from_march january)
next_run_after-Occurs_example = next_run_after-Occurs utc utc-IsSteady from_march january

-- every Wednesday, from the 61st to the 301st day of each year
abbrev summer : Schedule plain
summer = record {
  times = 630 ∷ [];
  weekdays = wed ∷ [];
  from = yearly (60 * 1440);
  to = yearly (300 * 1440);
}

yearly_bounds_never_run_example : next_run_after plain summer (100 * 1440) ≡ none
yearly_bounds_never_run_example =
    yearly_bounds_never_run plain summer (100 * 1440) (60 * 1440) (300 * 1440) (60 * 1440)
      (300 * 1440) (425 * 1440) refl refl refl refl (omega arith) refl

-- the Wednesdays of the summer, with a second time and with the Fridays as well
next_run-sets_example :
    NoLater plain
      (next_run plain 700 (with_time plain 30 (Quot.mk summer)))
      (next_run plain 700 (Quot.mk summer))
    × NoLater plain
        (next_run plain 700 (with_weekday plain fri (Quot.mk summer)))
        (next_run plain 700 (Quot.mk summer))
next_run-sets_example = (next_run-sets plain).3 700 30 fri (Quot.mk summer)
