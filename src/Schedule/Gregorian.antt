-- ===== src/Schedule/Gregorian.antt =====
-- UTC with Gregorian years, in milliseconds from the start of the year 1: a calendar for which the
-- assumptions about chrono hold, for the tests.
use rinklers.Prelude.{
  ℕ, zero, suc, ◌+◌, ◌-◌, ◌*◌, ◌/◌, ◌%◌, ◌≤◌, ◌<◌, ◌≡◌, refl, Option, none, some, Bool, true, false,
  ltb, leb, ◌==◌, if◌then◌else◌, arith,
}
use native.Mathlib.Decide.{dec_lt}
use rinklers.Schedule.Chrono.{Calendar}
use rinklers.Schedule.Steady.{IsSteady}
use rinklers.Schedule.Plain.{Day, nth_day, day_number, day_number_lt, day_number_injective, plain}

-- the days before the year after `p`, from the start of the year 1
unfoldable pub days_before : ℕ → ℕ
days_before p = p * 365 + p / 4 + p / 400 - p / 100

-- the years completed before the day `d`
unfoldable pub years_before : ℕ → ℕ
unfolding days_before
years_before d =
    let e = d * 400 / 146097 in
    if ltb d (days_before e) then e - 1 else if leb (days_before (e + 1)) d then e + 1 else e

days_before_mono : (p q : ℕ) → p ≤ q → days_before p ≤ days_before q
unfolding days_before
days_before_mono p q h = omega arith

-- A day lies in the year after the years completed before it.
in_year : (d : ℕ) → (days_before (years_before d) ≤ d) × (d < days_before (suc (years_before d)))
unfolding years_before days_before
in_year d = (ground arith, ground arith)

-- A year that has begun by a day is not after a year that has not ended by it.
began-le : (d p q : ℕ) → days_before p ≤ d → d < days_before (suc q) → p ≤ q
began-le d p q le lt = elim (dec_lt q p) [
  | yes after ↦ absurd (omega (arith, days_before_mono (suc q) p after))
  | no h ↦ omega arith
]

years_before_mono : (a b : ℕ) → a ≤ b → years_before a ≤ years_before b
years_before_mono a b h =
    began-le b (years_before a) (years_before b) (omega (arith, (in_year a).0)) (in_year b).1

years_before_unique : (d p : ℕ) → days_before p ≤ d → d < days_before (suc p) → years_before d ≡ p
years_before_unique d p le lt =
    let (from, to) = in_year d in
    omega (arith, began-le d p (years_before d) le to, began-le d (years_before d) p from lt)

abbrev pub is_leap : ℕ → Bool
is_leap y = if y % 400 == 0 then true else if y % 100 == 0 then false else y % 4 == 0

-- The length of the year after `p`.
year_length : (p : ℕ) → days_before (suc p) ≡ days_before p + (if is_leap (suc p) then 366 else 365)
unfolding days_before
year_length p = ground arith

-- the same month and day, as a day of a year with or without 29 February
unfoldable pub same_date : (from to : Bool) → ℕ → Option ℕ
same_date true true n = some n
same_date false false n = some n
same_date true false n = if n == 59 then none else some (if ltb n 59 then n else n - 1)
same_date false true n = some (if ltb n 59 then n else n + 1)

same_date_lt :
    (from to : Bool) (n m : ℕ)
    → n < (if from then 366 else 365)
    → same_date from to n ≡ some m
    → m < (if to then 366 else 365)
unfolding same_date
same_date_lt true true n m h e = ground arith
same_date_lt false false n m h e = ground arith
same_date_lt true false n m h e = ground arith
same_date_lt false true n m h e = ground arith

abbrev pub day_length : ℕ
day_length = 86400000

unfoldable pub on_year : Option ℕ → ℕ → ℕ → Option ℕ
on_year none p t = none
on_year (some n) p t = some ((days_before p + n) * day_length + t)

-- the same month, day and time in the year after `p`
unfoldable pub with_year_after : ℕ → ℕ → Option ℕ
unfolding on_year same_date
with_year_after x p =
    let q = years_before (x / day_length) in
    on_year (same_date (is_leap (suc q)) (is_leap (suc p)) (x / day_length - days_before q)) p
      (x % day_length)

unfoldable pub utc_with_year : ℕ → ℕ → Option ℕ
unfolding with_year_after
utc_with_year x zero = none
utc_with_year x (suc p) = with_year_after x p

on_year-year :
    (o : Option ℕ) (p t b : ℕ)
    → ((n : ℕ) → o ≡ some n → n < (if is_leap (suc p) then 366 else 365))
    → t < day_length
    → on_year o p t ≡ some b
    → years_before (b / day_length) ≡ p
unfolding on_year
on_year-year none p t b h le e = ground arith
on_year-year (some n) p t b h le e =
    let day : b / day_length ≡ days_before p + n = ground arith in
    years_before_unique (b / day_length) p (omega arith) (omega (arith, h n refl, year_length p))

-- `with_year` gives the year asked for.
pub year-with_year :
    (x y b : ℕ) → utc_with_year x y ≡ some b → years_before (b / day_length) + 1 ≡ y
unfolding utc_with_year with_year_after same_date
year-with_year x zero b e = ground arith
year-with_year x (suc p) b e =
    let q = years_before (x / day_length) in
    let inside = in_year (x / day_length) in
    let same =
      on_year-year _ p (x % day_length) b
        (λ n k.
          same_date_lt (is_leap (suc q)) (is_leap (suc p)) (x / day_length - days_before q) n
            (omega (arith, inside, year_length q)) k)
        (omega arith) e in
    omega (arith, same)

-- Years advance with time.
pub stamp-year :
    (a b : ℕ) → years_before (a / day_length) + 1 < years_before (b / day_length) + 1 → a < b
stamp-year a b h = elim (dec_lt a b) [
  | yes lt ↦ lt
  | no ge ↦
      absurd (omega (arith, years_before_mono (b / day_length) (a / day_length) (omega arith)))
]

pub date-and_time_utc :
    (d t x : ℕ)
    → ◌≡◌ {A = Option ℕ} (some (d * day_length + t % day_length)) (some x)
    → x / day_length ≡ d
date-and_time_utc d t x h = ground arith

-- A time of day is a number of milliseconds, below a day's.
abbrev pub utc : Calendar
utc = record {
  DateTime = ℕ;
  Date = ℕ;
  NaiveTime = ℕ;
  Weekday = Day;
  stamp = λ x. x;
  date = λ x. x / day_length;
  day = λ d. d;
  year = λ x. years_before (x / day_length) + 1;
  weekday = λ d. nth_day (d % 7);
  number = day_number;
  from_u32 = λ i. some (nth_day i);
  succ = λ d. suc d;
  and_time = λ d t. some (d * day_length + t % day_length);
  add_week = λ x. x + 7 * day_length;
  with_year = utc_with_year;
  week = 7 * day_length;
  stamp_injective = λ a b h. h;
  day_injective = λ a b h. h;
  number_lt = day_number_lt;
  number_injective = day_number_injective;
  from_u32_number = plain.from_u32_number;
  day-succ = λ d. refl;
  weekday-succ = plain.weekday-succ;
  date-and_time = date-and_time_utc;
  stamp-day = λ a b h. omega arith;
  stamp_same_day = λ a b h. omega arith;
  stamp-add_week = λ a. refl;
  stamp-year = stamp-year;
  year-with_year = year-with_year;
}

pub utc-IsSteady : IsSteady utc
utc-IsSteady = record {
  and_time_total = λ d t. (_, refl);
  and_time_week = λ d e t x h k. ground arith;
}
