-- ===== src/Util/Durations/Examples.antt =====
-- Durations as numbers with a sign, and the characters of ASCII.
use rinklers.Prelude.{
  ℕ, ◌+◌, ◌*◌, ◌/◌, ◌<◌, ◌≤◌, ◌≡◌, ◌⊎◌, refl, Option, none, some, List, [], ◌∷◌, Bool, true, false,
  leb, ltb, ◌==◌, ◌&&◌, ◌||◌, if◌then◌else◌, Outcome, done, panicked, arith,
}
use rinklers.Util.Durations.Library.{span, bound, max_size, CharTables, Chrono}
use rinklers.Util.Durations.{
  ok, unexpected_char, chrono_duration_string, chrono_duration_from_str, duration_string,
  duration_from_str, part, digits, char_step,
}
use rinklers.Util.Durations.RoundTrip.{
  from_str-string, duration_from_str-duration_string, from_str-negative,
}

abbrev pub ascii_lower : ℕ → List ℕ
ascii_lower c = (if leb 65 c && leb c 90 then c + 32 else c) ∷ []

abbrev pub ascii_blank : ℕ → Bool
ascii_blank c = (leb 9 c && leb c 13) || (c == 32)

pub ascii_printing : (c : ℕ) → 33 ≤ c → c ≤ 126 → ascii_blank c ≡ false
ascii_printing c low high = ground arith

pub ascii_lowercase : (c : ℕ) → 33 ≤ c → c ≤ 126 → (c < 65) ⊎ (90 < c) → ascii_lower c ≡ c ∷ []
ascii_lowercase c low high h = ground arith

abbrev pub ascii : CharTables
ascii = record {
  to_lowercase = ascii_lower;
  is_whitespace = ascii_blank;
  printing = ascii_printing;
  lowercase = ascii_lowercase;
}

abbrev pub Length : Type 0
Length = Bool × ℕ

abbrev pub limited : ℕ → Outcome Length
limited n = if leb n max_size then done (false, n) else panicked

pub limited_lem :
    (n : ℕ) → n ≤ max_size → (d : Length) × (limited n ≡ done d) × (d.0 ≡ false) × (d.1 ≡ n)
limited_lem n h =
    let fits : leb n max_size ≡ true = ground (arith, h) in ((false, n), rw fits refl, refl, refl)

abbrev pub bounded : ℕ → Option ℕ
bounded n = if ltb n bound then some n else none

pub bounded_lem : (n : ℕ) → n < bound → bounded n ≡ some n
bounded_lem n h = let fits : ltb n bound ≡ true = ground (arith, h) in rw fits refl

abbrev pub made_of : ℕ → Option Length
made_of n = if leb n max_size then some (false, n) else none

pub made_of_lem :
    (n : ℕ) → n ≤ max_size → (d : Length) × (made_of n ≡ some d) × (d.0 ≡ false) × (d.1 ≡ n)
made_of_lem n h =
    let fits : leb n max_size ≡ true = ground (arith, h) in ((false, n), rw fits refl, refl, refl)

pub made_of-none : (n : ℕ) → max_size < n → made_of n ≡ none
made_of-none n h = let long : leb n max_size ≡ false = ground (arith, h) in rw long refl

abbrev pub lengths : Chrono
lengths = record {
  Duration = Length;
  size = λ d. d.1;
  is_negative = λ d. d.0;
  is_zero = λ d. d.1 == 0;
  zero_duration = (false, 0);
  negated = λ d. (false, d.1);
  of = λ u n. limited (n * span u);
  add = λ a b. limited (a.1 + b.1);
  num = λ u d. d.1 / span u;
  num_microseconds = λ d. bounded (d.1 / 1000);
  num_nanoseconds = λ d. bounded (d.1);
  from_std = made_of;
  to_std = λ d. if d.0 then none else some (d.1);
  is_zero_lem = λ d. refl;
  zero_lem = (refl, refl);
  negated_lem = λ d h. (refl, refl);
  of_lem = λ u n h. limited_lem (n * span u) h;
  add_lem = λ a b ha hb h. limited_lem (a.1 + b.1) h;
  num_lem = λ u d h. refl;
  num_microseconds_lem = λ d p h. bounded_lem (d.1 / 1000) h;
  num_nanoseconds_lem = λ d p h. bounded_lem (d.1) h;
  from_std_lem = made_of_lem;
  from_std_none = made_of-none;
  to_std_lem = λ d h. rw h refl;
}

from_str-string_example :
    (d : Length) × (chrono_duration_from_str ascii lengths
        (chrono_duration_string ascii lengths (false, 150000000007))
      ≡ ok d)
    × (d.0 ≡ false)
    × (d.1 ≡ 150000000007)
from_str-string_example = from_str-string ascii lengths (false, 150000000007) refl (omega arith)

duration_from_str-duration_string_example :
    (s : List ℕ) × (duration_string ascii lengths 90000000000 ≡ done s)
    × (duration_from_str ascii lengths s ≡ ok 90000000000)
duration_from_str-duration_string_example =
    duration_from_str-duration_string ascii lengths 90000000000 (omega arith)

minus_second_rejected :
    chrono_duration_from_str ascii lengths (chrono_duration_string ascii lengths (true, 1000000000))
    ≡ unexpected_char 45
minus_second_rejected = from_str-negative ascii lengths (true, 1000000000) refl refl

-- 2m30s, as in the test of the source, and with capital letters and a space
two_and_a_half :
    chrono_duration_string ascii lengths (false, 150000000000) ≡ 50 ∷ 109 ∷ 51 ∷ 48 ∷ 115 ∷ []
unfolding chrono_duration_string part digits
two_and_a_half = refl

capitals :
    chrono_duration_from_str ascii lengths (50 ∷ 77 ∷ 32 ∷ 51 ∷ 48 ∷ 83 ∷ [])
    ≡ ok (false, 150000000000)
unfolding chrono_duration_from_str char_step
capitals = refl
