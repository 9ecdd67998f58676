-- ===== src/Schedule/Chrono.antt =====
-- What the code uses of the crate chrono, and what it relies on. `stamp` is the instant of a
-- `DateTime<Local>`, by which date-times are compared; `day` numbers the dates; `number` is
-- `num_days_from_monday`, by which the weekdays are told apart. The end of the calendar, where `succ`
-- and sums panic, is left out.
use rinklers.Prelude.{ℕ, suc, ◌+◌, ◌%◌, ◌<◌, ◌≡◌, Option, some}

pub record Calendar : Type 1 where
  pub DateTime : Type 0
  pub Date : Type 0
  pub NaiveTime : Type 0
  pub Weekday : Type 0
  pub stamp : DateTime → ℕ
  pub date : DateTime → Date
  pub day : Date → ℕ
  pub year : DateTime → ℕ
  pub weekday : Date → Weekday
  pub number : Weekday → ℕ
  pub from_u32 : ℕ → Option Weekday
  pub succ : Date → Date
  pub and_time : Date → NaiveTime → Option DateTime
  pub add_week : DateTime → DateTime
  pub with_year : DateTime → ℕ → Option DateTime
  -- the length of a week, in the unit of `stamp`
  pub week : ℕ
  -- An instant is one date-time, a day number one date, a number one weekday.
  pub stamp_injective : (a b : DateTime) → stamp a ≡ stamp b → a ≡ b
  pub day_injective : (a b : Date) → day a ≡ day b → a ≡ b
  pub number_lt : (w : Weekday) → number w < 7
  pub number_injective : (v w : Weekday) → number v ≡ number w → v ≡ w
  pub from_u32_number : (i : ℕ) → i < 7 → (w : Weekday) × (from_u32 i ≡ some w) × (number w ≡ i)
  -- `succ` is the next day.
  pub day-succ : (d : Date) → day (succ d) ≡ suc (day d)
  pub weekday-succ : (d : Date) → number (weekday (succ d)) ≡ (number (weekday d) + 1) % 7
  -- `and_time` stays on its date, and local dates advance with time.
  pub date-and_time : (d : Date) (t : NaiveTime) (x : DateTime) → and_time d t ≡ some x → date x ≡ d
  pub stamp-day : (a b : DateTime) → day (date a) < day (date b) → stamp a < stamp b
  -- A day is shorter than a week, and a week has one length.
  pub stamp_same_day : (a b : DateTime) → day (date a) ≡ day (date b) → stamp a < stamp b + week
  pub stamp-add_week : (a : DateTime) → stamp (add_week a) ≡ stamp a + week
  -- Years advance with time, and `with_year` gives the year asked for.
  pub stamp-year : (a b : DateTime) → year a < year b → stamp a < stamp b
  pub year-with_year : (a : DateTime) (y : ℕ) (b : DateTime) → with_year a y ≡ some b → year b ≡ y
