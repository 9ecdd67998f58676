-- ===== src/Util/Durations.antt =====
-- src/util.rs: durations as text. A text is the list of its code points. The arithmetic on the number
-- read panics on overflow, as in a debug build. A `std::time::Duration` is a number of nanoseconds.
pub mod Library
pub mod Digits
pub mod Parts
pub mod Sums
pub mod RoundTrip
mod Deserialize
pub mod Examples
use rinklers.Prelude.{
  ℕ, zero, suc, ◌+◌, ◌*◌, ◌-◌, ◌/◌, ◌%◌, Option, none, some, List, [], ◌∷◌, ◌++◌, Bool, true, false,
  ltb, leb, ◌==◌, ◌&&◌, if◌then◌else◌, Outcome, done,
}
use rinklers.Prelude
use rinklers.Util.Durations.Library.{
  Scale, week, day, hour, minute, second, milli, micro, nano, bound, CharTables, Chrono,
}

-- decimal digits, as `to_string` gives them, most significant first; `rounds` bounds their number
unfoldable pub digits : (rounds : ℕ) → ℕ → List ℕ
digits zero n = (48 + n % 10) ∷ []
digits (suc rounds) n =
    let front = digits rounds (n / 10) in
    if ltb n 10 then (48 + n) ∷ [] else front ++ (48 + n % 10) ∷ []

abbrev pub to_string : ℕ → List ℕ
to_string n = digits n n

abbrev pub suffix : Scale → List ℕ
suffix week = 119 ∷ []
suffix day = 100 ∷ []
suffix hour = 104 ∷ []
suffix minute = 109 ∷ []
suffix second = 115 ∷ []
suffix milli = 109 ∷ 115 ∷ []
suffix micro = 117 ∷ 115 ∷ []
suffix nano = 110 ∷ 115 ∷ []

-- what is pushed for one scale
unfoldable pub part : ℕ → Scale → List ℕ
part n u = if ltb 0 n then to_string n ++ suffix u else []

abbrev pub checked_part : Option ℕ → Scale → List ℕ
checked_part none u = []
checked_part (some n) u = part (n % 1000) u

-- `to_digit(10)`
abbrev pub to_digit : ℕ → Option ℕ
to_digit c = if leb 48 c && leb c 57 then some (c - 48) else none

abbrev pub peek : List ℕ → Option ℕ
peek [] = none
peek (c ∷ cs) = some c

-- the last `match` of `chrono_duration_from_str`: the scale of a letter and the next character
unfoldable pub scale_at : ℕ → Option ℕ → Option Scale
scale_at c next =
    if c == 119
    then some week
    else if c == 100
    then some day
    else if c == 104
    then some hour
    else if c == 115
    then some second
    else if c == 109
    then elim next [ none ↦ some minute | some s ↦ if s == 115 then some milli else some minute ]
    else if c == 117
    then elim next [ none ↦ none | some s ↦ if s == 115 then some micro else none ]
    else if c == 110
    then elim next [ none ↦ none | some s ↦ if s == 115 then some nano else none ]
    else none

-- `Result<chrono::Duration, DurationFromStrError>` or `Result<Duration, _>`, and a panic
pub data Parsed {ℓ} (A : Type ℓ) : Type ℓ where
  ok : A → Parsed A
  unexpected_char : ℕ → Parsed A
  duration_to_std : Parsed A
  panicked : Parsed A

module _ (ch : CharTables) (k : Chrono) where
  open ch use {to_lowercase, is_whitespace}
  open k use {
    Duration, is_negative, is_zero, zero_duration, negated, of, add, num, num_microseconds,
    num_nanoseconds, from_std, to_std,
  }

  -- the text behind the sign, of a duration that is not negative
  unfoldable pub unsigned_string : Duration → List ℕ
  unsigned_string dur =
      part (num week dur) week
      ++ (part (num day dur % 7) day
          ++ (part (num hour dur % 24) hour
              ++ (part (num minute dur % 60) minute
                  ++ (part (num second dur % 60) second
                      ++ (part (num milli dur % 1000) milli
                          ++ (checked_part (num_microseconds dur) micro
                              ++ checked_part (num_nanoseconds dur) nano))))))

  unfoldable pub chrono_duration_string : Duration → List ℕ
  unfolding unsigned_string
  chrono_duration_string dur =
      if is_zero dur
      then 48 ∷ []
      else (if is_negative dur then 45 ∷ unsigned_string (negated dur) else unsigned_string dur)

  -- one round of the `while let`: it goes on with `dur` and `num`, or ends
  pub data Verdict : Type 0 where
    goes_on : Duration → ℕ → Verdict
    ends : Parsed Duration → Verdict

  -- `dur = dur + of(num)`
  abbrev pub added : Duration → Outcome Duration → Verdict
  added dur (done d) = elim (add dur d) [
    | done sum ↦ goes_on sum 0
    | Prelude.panicked ↦ ends panicked
  ]
  added dur Prelude.panicked = ends panicked

  abbrev pub unit_step : ℕ → Option ℕ → Duration → ℕ → Verdict
  unit_step c next dur n = elim (scale_at c next) [
    | none ↦ ends (unexpected_char c)
    | some u ↦ added dur (of u n)
  ]

  abbrev pub digit_step : Option ℕ → Verdict → Duration → ℕ → Verdict
  digit_step none other dur n = other
  digit_step (some digit) other dur n =
      if ltb (n * 10 + digit) bound then goes_on dur (n * 10 + digit) else ends panicked

  unfoldable pub char_step : ℕ → Option ℕ → Duration → ℕ → Verdict
  unfolding scale_at
  char_step c next dur n =
      if is_whitespace c
      then goes_on dur n
      else digit_step (to_digit c) (unit_step c next dur n) dur n

  -- the loop, over the lower case characters
  unfoldable pub parse : List ℕ → Duration → ℕ → Parsed Duration
  parse [] dur n = ok dur
  parse (c ∷ cs) dur n = elim (char_step c (peek cs) dur n) [
    | goes_on dur' n' ↦ parse cs dur' n'
    | ends r ↦ r
  ]

  unfoldable pub lowered : List ℕ → List ℕ
  lowered [] = []
  lowered (c ∷ cs) = to_lowercase c ++ lowered cs

  unfoldable pub chrono_duration_from_str : List ℕ → Parsed Duration
  unfolding parse lowered
  chrono_duration_from_str s = parse (lowered s) zero_duration 0

  abbrev pub as_std : Parsed Duration → Parsed ℕ
  as_std (ok d) = elim (to_std d) [ some n ↦ ok n | none ↦ duration_to_std ]
  as_std (unexpected_char c) = unexpected_char c
  as_std duration_to_std = duration_to_std
  as_std panicked = panicked

  unfoldable pub duration_from_str : List ℕ → Parsed ℕ
  unfolding chrono_duration_from_str
  duration_from_str s = as_std (chrono_duration_from_str s)

  unfoldable pub duration_string : ℕ → Outcome (List ℕ)
  unfolding chrono_duration_string
  duration_string n = elim (from_std n) [
    | some d ↦ done (chrono_duration_string d)
    | none ↦ Prelude.panicked
  ]
