-- ===== src/Util/Durations/Sums.antt =====
-- A text as a list of parts, its time and its characters.
use rinklers.Prelude.{
  ℕ, zero, suc, ◌+◌, ◌*◌, ◌/◌, ◌%◌, ◌≤◌, ◌<◌, ◌≡◌, ◌⊎◌, inl, inr, List, [], ◌∷◌, ◌++◌, ltb,
  append_assoc, arith, Bool-cases,
}
use rinklers.Util.Durations.Library.{
  Scale, week, day, hour, minute, second, milli, micro, nano, span, bound,
}
use rinklers.Util.Durations.{digits, to_string, suffix, part}
use rinklers.Util.Durations.Parts.{IsClear}

-- The parts one after the other, and the time that they stand for.
abbrev pub parts : List (ℕ × Scale) → List ℕ
parts [] = []
parts ((n, u) ∷ l) = part n u ++ parts l

abbrev pub time_of : List (ℕ × Scale) → ℕ
time_of [] = 0
time_of ((n, u) ∷ l) = n * span u + time_of l

abbrev pub AllSmall : List (ℕ × Scale) → Type 0
AllSmall [] = Unit
AllSmall ((n, u) ∷ l) = (n < bound) × AllSmall l

-- A text that begins with a number does not begin with an `s`.
digit-IsClear : (c : ℕ) (rest : List ℕ) → c < 58 → IsClear (c ∷ rest)
digit-IsClear c rest lt = λ h. ground (arith, lt, h)

digits-IsClear : (rounds n : ℕ) (rest : List ℕ) → IsClear (digits rounds n ++ rest)
unfolding digits
digits-IsClear zero n rest = digit-IsClear (48 + n % 10) rest (omega arith)
digits-IsClear (suc rounds) n rest = elim (Bool-cases (ltb n 10)) [
  | inl small ↦ rw small (digit-IsClear (48 + n) rest (ground arith))
  | inr large ↦ rw large (
      rw (append_assoc (digits rounds (n / 10)) ((48 + n % 10) ∷ []) rest)
        (digits-IsClear rounds (n / 10) ((48 + n % 10) ∷ rest)))
]

part-IsClear : (n : ℕ) (u : Scale) (rest : List ℕ) → IsClear rest → IsClear (part n u ++ rest)
unfolding part
part-IsClear n u rest clear = elim (Bool-cases (ltb 0 n)) [
  | inl some_part ↦
      rw (some_part, append_assoc (to_string n) (suffix u) rest)
        (digits-IsClear n n (suffix u ++ rest))
  | inr no_part ↦ rw no_part clear
]

pub parts-IsClear : (l : List (ℕ × Scale)) → IsClear (parts l)
parts-IsClear [] = λ h. cc h
parts-IsClear ((n, u) ∷ l) = part-IsClear n u (parts l) (parts-IsClear l)

-- The characters that texts of durations are made of: the reader leaves them as they are.
abbrev pub Plain : ℕ → Type 0
Plain c = (33 ≤ c) × (c ≤ 126) × ((c < 65) ⊎ (90 < c))

abbrev pub AllPlain : List ℕ → Type 0
AllPlain [] = Unit
AllPlain (c ∷ cs) = Plain c × AllPlain cs

AllPlain-append : (s t : List ℕ) → AllPlain s → AllPlain t → AllPlain (s ++ t)
AllPlain-append [] t h k = k
AllPlain-append (c ∷ s) t (p, h) k = (p, AllPlain-append s t h k)

pub digit-Plain : (d : ℕ) → d < 10 → Plain (48 + d)
digit-Plain d lt = (omega arith, omega arith, inl (omega arith))

digits-AllPlain : (rounds n : ℕ) → AllPlain (digits rounds n)
unfolding digits
digits-AllPlain zero n = (digit-Plain (n % 10) (omega arith), tt)
digits-AllPlain (suc rounds) n = elim (Bool-cases (ltb n 10)) [
  | inl small ↦ rw small (digit-Plain n (ground arith), tt)
  | inr large ↦ rw large (
      AllPlain-append (digits rounds (n / 10)) _ (digits-AllPlain rounds (n / 10))
        (digit-Plain (n % 10) (omega arith), tt))
]

letter-Plain : (c : ℕ) → 97 ≤ c → c ≤ 122 → Plain c
letter-Plain c low high = (omega arith, omega arith, inr (omega arith))

suffix-AllPlain : (u : Scale) → AllPlain (suffix u)
suffix-AllPlain week = (letter-Plain 119 (omega arith) (omega arith), tt)
suffix-AllPlain day = (letter-Plain 100 (omega arith) (omega arith), tt)
suffix-AllPlain hour = (letter-Plain 104 (omega arith) (omega arith), tt)
suffix-AllPlain minute = (letter-Plain 109 (omega arith) (omega arith), tt)
suffix-AllPlain second = (letter-Plain 115 (omega arith) (omega arith), tt)
suffix-AllPlain milli = (
  letter-Plain 109 (omega arith) (omega arith),
  (letter-Plain 115 (omega arith) (omega arith), tt),
)
suffix-AllPlain micro = (
  letter-Plain 117 (omega arith) (omega arith),
  (letter-Plain 115 (omega arith) (omega arith), tt),
)
suffix-AllPlain nano = (
  letter-Plain 110 (omega arith) (omega arith),
  (letter-Plain 115 (omega arith) (omega arith), tt),
)

pub parts-AllPlain : (l : List (ℕ × Scale)) → AllPlain (parts l)
unfolding part
parts-AllPlain [] = tt
parts-AllPlain ((n, u) ∷ l) = elim (Bool-cases (ltb 0 n)) [
  | inl some_part ↦ rw some_part (
      AllPlain-append (to_string n ++ suffix u) (parts l)
        (AllPlain-append (to_string n) (suffix u) (digits-AllPlain n n) (suffix-AllPlain u))
        (parts-AllPlain l))
  | inr no_part ↦ rw no_part (parts-AllPlain l)
]

-- A number of nanoseconds as the sum of its parts.
abbrev pub parts_of : ℕ → List (ℕ × Scale)
parts_of n =
    (n / span week, week)
    ∷ (n / span day % 7, day)
    ∷ (n / span hour % 24, hour)
    ∷ (n / span minute % 60, minute)
    ∷ (n / span second % 60, second)
    ∷ (n / span milli % 1000, milli)
    ∷ (n / 1000 % 1000, micro)
    ∷ (n % 1000, nano)
    ∷ []

pub time_of-parts_of : (n : ℕ) → time_of (parts_of n) ≡ n
time_of-parts_of n = omega arith

pub parts_of-AllSmall : (n : ℕ) → n < bound → AllSmall (parts_of n)
parts_of-AllSmall n h = (
  omega arith,
  (
    omega arith,
    (omega arith, (omega arith, (omega arith, (omega arith, (omega arith, (omega arith, tt)))))),
  ),
)
