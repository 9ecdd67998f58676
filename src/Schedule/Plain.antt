-- ===== src/Schedule/Plain.antt =====
-- A calendar for which the assumptions about chrono hold, for the tests.
use rinklers.Prelude.{ℕ, zero, suc, ◌+◌, ◌*◌, ◌/◌, ◌%◌, ◌<◌, ◌≡◌, refl, Option, some, arith}
use rinklers.Schedule.Chrono.{Calendar}
use rinklers.Schedule.Steady.{IsSteady}

pub data Day : Type 0 where
  mon tue wed thu fri sat sun : Day

abbrev pub day_number : Day → ℕ
day_number mon = 0
day_number tue = 1
day_number wed = 2
day_number thu = 3
day_number fri = 4
day_number sat = 5
day_number sun = 6

abbrev pub nth_day : ℕ → Day
nth_day zero = mon
nth_day (suc zero) = tue
nth_day (suc (suc zero)) = wed
nth_day (suc (suc (suc zero))) = thu
nth_day (suc (suc (suc (suc zero)))) = fri
nth_day (suc (suc (suc (suc (suc zero))))) = sat
nth_day _ = sun

pub day_number-nth_day : (n : ℕ) → n < 7 → day_number (nth_day n) ≡ n
day_number-nth_day zero h = refl
day_number-nth_day (suc zero) h = refl
day_number-nth_day (suc (suc zero)) h = refl
day_number-nth_day (suc (suc (suc zero))) h = refl
day_number-nth_day (suc (suc (suc (suc zero)))) h = refl
day_number-nth_day (suc (suc (suc (suc (suc zero))))) h = refl
day_number-nth_day (suc (suc (suc (suc (suc (suc n)))))) h = omega arith

pub day_number_lt : (d : Day) → day_number d < 7
day_number_lt d = ground arith

pub day_number_injective : (a b : Day) → day_number a ≡ day_number b → a ≡ b
day_number_injective a b h = ground arith

-- Days of 1440 minutes and years of 365 days, both counted from 0; day 0 is a Monday.
abbrev pub year_minutes : ℕ
year_minutes = 365 * 1440

pub plain_date :
    (d t x : ℕ) → ◌≡◌ {A = Option ℕ} (some (d * 1440 + t % 1440)) (some x) → x / 1440 ≡ d
plain_date d t x h = ground arith

pub plain_year :
    (a y b : ℕ)
    → ◌≡◌ {A = Option ℕ} (some (y * year_minutes + a % year_minutes)) (some b)
    → b / year_minutes ≡ y
plain_year a y b h = ground arith

abbrev pub plain : Calendar
plain = record {
  DateTime = ℕ;
  Date = ℕ;
  NaiveTime = ℕ;
  Weekday = Day;
  stamp = λ x. x;
  date = λ x. x / 1440;
  day = λ d. d;
  year = λ x. x / year_minutes;
  weekday = λ d. nth_day (d % 7);
  number = day_number;
  from_u32 = λ i. some (nth_day i);
  succ = λ d. suc d;
  and_time = λ d t. some (d * 1440 + t % 1440);
  add_week = λ x. x + 10080;
  with_year = λ x y. some (y * year_minutes + x % year_minutes);
  week = 10080;
  stamp_injective = λ a b h. h;
  day_injective = λ a b h. h;
  number_lt = day_number_lt;
  number_injective = day_number_injective;
  from_u32_number = λ i h. (nth_day i, refl, day_number-nth_day i h);
  day-succ = λ d. refl;
  weekday-succ = λ d. omega (
    arith,
    day_number-nth_day (d % 7) (omega arith),
    day_number-nth_day (suc d % 7) (omega arith),
  );
  date-and_time = plain_date;
  stamp-day = λ a b h. omega arith;
  stamp_same_day = λ a b h. omega arith;
  stamp-add_week = λ a. refl;
  stamp-year = λ a b h. omega arith;
  year-with_year = plain_year;
}

pub plain-IsSteady : IsSteady plain
plain-IsSteady = record {
  and_time_total = λ d t. (_, refl);
  and_time_week = λ d e t x h k. ground arith;
}
