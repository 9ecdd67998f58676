-- ===== src/Util/Durations/Parts.antt =====
-- The parts of a text: a number with the suffix of its scale.
use rinklers.Prelude.{
  ℕ, zero, suc, ◌+◌, ◌*◌, ◌≤◌, ◌<◌, ◌≡◌, ◌≢◌, refl, ap, ◌∙◌, inl, inr, Option, none, some, List,
  ◌∷◌, ◌++◌, true, false, ltb, ◌==◌, append_assoc, arith, Bool-cases,
}
use rinklers.Util.Durations.Library.{
  Scale, week, day, hour, minute, second, milli, micro, nano, span, bound, max_size, CharTables,
  Chrono,
}
use rinklers.Util.Durations.{
  to_string, suffix, part, to_digit, peek, scale_at, parse, char_step, digit_step, unit_step, added,
  goes_on,
}
use rinklers.Util.Durations.Digits.{parse-digits}

-- What follows an `m` does not make it another letter's.
abbrev pub IsClear : List ℕ → Type 0
IsClear rest = peek rest ≢ some 115

scale_at-minute : (next : Option ℕ) → next ≢ some 115 → scale_at 109 next ≡ some minute
unfolding scale_at
scale_at-minute none h = refl
scale_at-minute (some c) h = elim (Bool-cases (c == 115)) [
  | inl same ↦ absurd (h (ap some (ground (arith, same))))
  | inr other ↦ rw other refl
]

part-suc : (n : ℕ) (u : Scale) → part (suc n) u ≡ to_string (suc n) ++ suffix u
unfolding part
part-suc n u = let above : ltb 0 (suc n) ≡ true = ground arith in rw above refl

module _ (ch : CharTables) (k : Chrono) where
  open ch use {to_lowercase, is_whitespace, printing, lowercase}
  open k use {Duration, size, is_negative, of, add, of_lem, add_lem}

  -- a duration of `n` nanoseconds
  abbrev pub Lasts : Duration → ℕ → Type 0
  Lasts d n = (is_negative d ≡ false) × (size d ≡ n)

  step-unit :
      (c : ℕ) (next : Option ℕ) (u : Scale) (dur : Duration) (s n : ℕ)
      → scale_at c next ≡ some u
      → to_digit c ≡ none
      → 33 ≤ c
      → c ≤ 126
      → Lasts dur s
      → s + n * span u ≤ max_size
      → (dur' : Duration) × Lasts dur' (s + n * span u)
        × (char_step ch k c next dur n ≡ goes_on dur' 0)
  unfolding char_step
  step-unit c next u dur s n at letter low high (pos, e) fits =
      let (d, made, d_pos, d_size) = of_lem u n (omega (arith, fits)) in
      let (dur', sum, sum_pos, sum_size) =
        add_lem dur d pos d_pos (omega (arith, e, d_size, fits)) in
      (
        dur',
        (sum_pos, omega (arith, sum_size, e, d_size)),
        rw (printing c low high, letter, digit_step, unit_step, at, made, added, sum) refl,
      )

  parse-unit :
      (c : ℕ) (rest : List ℕ) (u : Scale) (dur : Duration) (s n : ℕ)
      → scale_at c (peek rest) ≡ some u
      → to_digit c ≡ none
      → 33 ≤ c
      → c ≤ 126
      → Lasts dur s
      → s + n * span u ≤ max_size
      → (dur' : Duration) × Lasts dur' (s + n * span u)
        × (parse ch k (c ∷ rest) dur n ≡ parse ch k rest dur' 0)
  unfolding parse
  parse-unit c rest u dur s n at letter low high lasts fits =
      let (dur', lasts', step) = step-unit c (peek rest) u dur s n at letter low high lasts fits in
      (dur', lasts', rw (parse, step) refl)

  -- two letters: the second, an `s`, adds no seconds
  parse-two :
      (c : ℕ) (rest : List ℕ) (u : Scale) (dur : Duration) (s n : ℕ)
      → scale_at c (some 115) ≡ some u
      → to_digit c ≡ none
      → 33 ≤ c
      → c ≤ 126
      → Lasts dur s
      → s + n * span u ≤ max_size
      → (dur' : Duration) × Lasts dur' (s + n * span u)
        × (parse ch k (c ∷ 115 ∷ rest) dur n ≡ parse ch k rest dur' 0)
  unfolding scale_at
  parse-two c rest u dur s n at letter low high lasts fits =
      let (d1, l1, e1) = parse-unit c (115 ∷ rest) u dur s n at letter low high lasts fits in
      let (d2, l2, e2) =
        parse-unit 115 rest second d1 (s + n * span u) 0 refl refl (omega arith) (omega arith) l1
          (omega (arith, fits)) in
      (d2, (l2.0, l2.1 ∙ omega arith), e1 ∙ e2)

  parse-suffix :
      (u : Scale) (rest : List ℕ) (dur : Duration) (s n : ℕ)
      → IsClear rest
      → Lasts dur s
      → s + n * span u ≤ max_size
      → (dur' : Duration) × Lasts dur' (s + n * span u)
        × (parse ch k (suffix u ++ rest) dur n ≡ parse ch k rest dur' 0)
  unfolding scale_at
  parse-suffix week rest dur s n clear lasts fits =
      parse-unit 119 rest week dur s n refl refl (omega arith) (omega arith) lasts fits
  parse-suffix day rest dur s n clear lasts fits =
      parse-unit 100 rest day dur s n refl refl (omega arith) (omega arith) lasts fits
  parse-suffix hour rest dur s n clear lasts fits =
      parse-unit 104 rest hour dur s n refl refl (omega arith) (omega arith) lasts fits
  parse-suffix minute rest dur s n clear lasts fits =
      parse-unit 109 rest minute dur s n (scale_at-minute (peek rest) clear) refl (omega arith)
        (omega arith) lasts fits
  parse-suffix second rest dur s n clear lasts fits =
      parse-unit 115 rest second dur s n refl refl (omega arith) (omega arith) lasts fits
  parse-suffix milli rest dur s n clear lasts fits =
      parse-two 109 rest milli dur s n refl refl (omega arith) (omega arith) lasts fits
  parse-suffix micro rest dur s n clear lasts fits =
      parse-two 117 rest micro dur s n refl refl (omega arith) (omega arith) lasts fits
  parse-suffix nano rest dur s n clear lasts fits =
      parse-two 110 rest nano dur s n refl refl (omega arith) (omega arith) lasts fits

  -- A part adds its number of its scale.
  pub parse-part :
      (u : Scale) (rest : List ℕ) (dur : Duration) (s n : ℕ)
      → IsClear rest
      → Lasts dur s
      → n < bound
      → s + n * span u ≤ max_size
      → (dur' : Duration) × Lasts dur' (s + n * span u)
        × (parse ch k (part n u ++ rest) dur 0 ≡ parse ch k rest dur' 0)
  unfolding part
  parse-part u rest dur s zero clear lasts small fits =
      (dur, (lasts.0, lasts.1 ∙ omega arith), refl)
  parse-part u rest dur s (suc n) clear lasts small fits =
      let (dur', lasts', e) = parse-suffix u rest dur s (suc n) clear lasts fits in
      (
        dur',
        lasts',
        ap (λ t. parse ch k (t ++ rest) dur 0) (part-suc n u)
            ∙ ap (λ t. parse ch k t dur 0) (append_assoc (to_string (suc n)) (suffix u) rest)
            ∙ parse-digits ch k (suc n) (suc n) (suffix u ++ rest) dur (omega arith) small
            ∙ e,
      )
