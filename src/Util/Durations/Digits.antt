-- ===== src/Util/Durations/Digits.antt =====
-- Numbers and parts of a text, as the loop reads them.
use rinklers.Prelude.{
  ℕ, zero, suc, ◌+◌, ◌*◌, ◌-◌, ◌/◌, ◌%◌, ◌≤◌, ◌<◌, ◌≡◌, refl, ap, ◌∙◌, inl, inr, Option, List, [],
  ◌∷◌, ◌++◌, true, false, ltb, leb, append_assoc, arith, Bool-cases,
}
use rinklers.Util.Durations.Library.{bound, CharTables, Chrono}
use rinklers.Util.Durations.{digits, peek, parse, char_step, goes_on}

module _ (ch : CharTables) (k : Chrono) where
  open ch use {to_lowercase, is_whitespace, printing, lowercase}
  open k use {Duration, size, is_negative, of, add}

  step-digit :
      (d n : ℕ) (next : Option ℕ) (dur : Duration)
      → d < 10
      → n * 10 + d < bound
      → char_step ch k (48 + d) next dur n ≡ goes_on dur (n * 10 + d)
  unfolding char_step
  step-digit d n next dur lt fits =
      let blank : is_whitespace (48 + d) ≡ false = printing (48 + d) (omega arith) (omega arith) in
      let low : leb 48 (48 + d) ≡ true = ground arith in
      let high : leb (48 + d) 57 ≡ true = ground arith in
      let back : 48 + d - 48 ≡ d = omega arith in
      let small : ltb (n * 10 + d) bound ≡ true = ground (arith, fits) in
      rw (blank, low, high, back, small) refl

  parse-digit :
      (d n m : ℕ) (rest : List ℕ) (dur : Duration)
      → d < 10
      → n * 10 + d ≡ m
      → m < bound
      → parse ch k ((48 + d) ∷ rest) dur n ≡ parse ch k rest dur m
  unfolding parse
  parse-digit d n m rest dur lt sum fits =
      rw (parse, step-digit d n (peek rest) dur lt (omega (arith, fits, sum)), sum) refl

  -- Decimal digits are read as the number they stand for.
  pub parse-digits :
      (rounds n : ℕ) (rest : List ℕ) (dur : Duration)
      → n ≤ rounds
      → n < bound
      → parse ch k (digits rounds n ++ rest) dur 0 ≡ parse ch k rest dur n
  unfolding digits
  parse-digits zero n rest dur le fits =
      parse-digit (n % 10) 0 n rest dur (omega arith) (omega arith) fits
  parse-digits (suc rounds) n rest dur le fits = elim (Bool-cases (ltb n 10)) [
    | inl small ↦ rw small (parse-digit n 0 n rest dur (ground arith) (omega arith) fits)
    | inr large ↦ rw large (
        ap (λ s. parse ch k s dur 0)
          (append_assoc (digits rounds (n / 10)) ((48 + n % 10) ∷ []) rest)
        ∙ parse-digits rounds (n / 10) ((48 + n % 10) ∷ rest) dur (ground arith) (omega arith)
        ∙ parse-digit (n % 10) (n / 10) n rest dur (omega arith) (omega arith) fits)
  ]
