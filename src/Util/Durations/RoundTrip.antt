-- ===== src/Util/Durations/RoundTrip.antt =====
-- What is printed is read back.
use rinklers.Prelude.{
  ℕ, ◌+◌, ◌*◌, ◌%◌, ◌≤◌, ◌<◌, ◌≡◌, refl, sym, ap, ◌∙◌, inl, inr, Option, List, [], ◌∷◌, true, false,
  ◌==◌, done, append-nil, arith, Bool-cases,
}
use rinklers.Util.Durations.Library.{
  Scale, week, day, hour, minute, second, milli, nano, span, bound, max_size, CharTables, Chrono,
}
use rinklers.Util.Durations.{
  digits, part, parse, lowered, ok, unsigned_string, chrono_duration_string,
  chrono_duration_from_str, as_std, char_step, ends, unexpected_char, scale_at, duration_string,
  duration_from_str,
}
use rinklers.Util.Durations.Digits.{parse-digits}
use rinklers.Util.Durations.Parts.{Lasts, parse-part}
use rinklers.Util.Durations.Sums.{
  parts, time_of, AllSmall, parts-IsClear, AllPlain, digit-Plain, parts-AllPlain, parts_of,
  time_of-parts_of, parts_of-AllSmall,
}

module _ (ch : CharTables) (k : Chrono) where
  open ch use {to_lowercase, is_whitespace, printing, lowercase}
  open k use {
    Duration, size, is_negative, is_zero, zero_duration, zero_lem, is_zero_lem, num_lem,
    num_microseconds_lem, num_nanoseconds_lem, from_std_lem, to_std_lem,
  }

  lowered-AllPlain : (s : List ℕ) → AllPlain s → lowered ch k s ≡ s
  unfolding lowered
  lowered-AllPlain [] h = refl
  lowered-AllPlain (c ∷ s) (p, h) = rw (lowercase c p.0 p.1 p.2, lowered-AllPlain s h) refl

  parse-parts :
      (l : List (ℕ × Scale)) (dur : Duration) (s : ℕ)
      → Lasts ch k dur s
      → AllSmall l
      → s + time_of l ≤ max_size
      → (dur' : Duration) × Lasts ch k dur' (s + time_of l) × (parse ch k (parts l) dur 0 ≡ ok dur')
  unfolding parse
  parse-parts [] dur s lasts small fits = (dur, (lasts.0, lasts.1 ∙ omega arith), refl)
  parse-parts ((n, u) ∷ l) dur s lasts (lt, small) fits =
      let (d1, l1, e1) =
        parse-part ch k u (parts l) dur s n (parts-IsClear l) lasts lt (omega (arith, fits)) in
      let (d2, l2, e2) = parse-parts l d1 (s + n * span u) l1 small (omega (arith, fits)) in
      (d2, (l2.0, l2.1 ∙ omega arith), e1 ∙ e2)

  unsigned_string-parts :
      (d : Duration)
      → is_negative d ≡ false
      → size d < bound
      → unsigned_string ch k d ≡ parts (parts_of (size d))
  unfolding unsigned_string
  unsigned_string-parts d pos small =
      rw
        (
          num_lem week d pos,
          num_lem day d pos,
          num_lem hour d pos,
          num_lem minute d pos,
          num_lem second d pos,
          num_lem milli d pos,
          num_microseconds_lem d pos (omega (arith, small)),
          num_nanoseconds_lem d pos small,
          append-nil (part (size d % 1000) nano),
        )
        refl

  string-parts :
      (d : Duration)
      → is_negative d ≡ false
      → size d < bound
      → (size d == 0) ≡ false
      → chrono_duration_string ch k d ≡ parts (parts_of (size d))
  unfolding chrono_duration_string
  string-parts d pos small some_time =
      rw (is_zero_lem d, some_time, pos) (unsigned_string-parts d pos small)

  string-zero : (d : Duration) → (size d == 0) ≡ true → chrono_duration_string ch k d ≡ 48 ∷ []
  unfolding chrono_duration_string
  string-zero d nothing = rw (is_zero_lem d, nothing) refl

  zero-Lasts : Lasts ch k zero_duration 0
  zero-Lasts = zero_lem

  -- A duration of less than 2^63 nanoseconds, as text, is read back as a duration that lasts as long.
  pub from_str-string :
      (d : Duration)
      → is_negative d ≡ false
      → size d < bound
      → (d' : Duration) × (chrono_duration_from_str ch k (chrono_duration_string ch k d) ≡ ok d')
        × (is_negative d' ≡ false)
        × (size d' ≡ size d)
  unfolding chrono_duration_from_str digits parse
  from_str-string d pos small = elim (Bool-cases (size d == 0)) [
    | inl nothing ↦
        let zero_size : size d ≡ 0 = ground (arith, nothing) in
        rw (string-zero d nothing, lowered-AllPlain (48 ∷ []) (digit-Plain 0 (omega arith), tt))
          (
            zero_duration,
            parse-digits ch k 0 0 [] zero_duration (omega arith) (omega arith),
            zero-Lasts.0,
            zero-Lasts.1 ∙ sym zero_size,
          )
    | inr some_time ↦
        let l = parts_of (size d) in
        let total = time_of-parts_of (size d) in
        let (d', lasts, e) =
          parse-parts l zero_duration 0 zero-Lasts (parts_of-AllSmall (size d) small)
            (omega (arith, total, small)) in
        rw (string-parts d pos small some_time, lowered-AllPlain (parts l) (parts-AllPlain l))
          (d', e, lasts.0, omega (arith, lasts.1, total))
  ]

  -- A `std::time::Duration` of less than 2^63 nanoseconds is printed without a panic, and its text is
  -- read back as the same duration.
  pub duration_from_str-duration_string :
      (n : ℕ)
      → n < bound
      → (s : List ℕ) × (duration_string ch k n ≡ done s) × (duration_from_str ch k s ≡ ok n)
  unfolding duration_from_str duration_string
  duration_from_str-duration_string n small =
      let (d, made, pos, e) = from_std_lem n (omega (arith, small)) in
      let (d', read, pos', e') = from_str-string d pos (omega (arith, e, small)) in
      (
        chrono_duration_string ch k d,
        rw (duration_string, made) refl,
        rw (duration_from_str, read, as_std, to_std_lem d' pos') (ap ok (e' ∙ e)),
      )

  step-minus :
      (next : Option ℕ) (dur : Duration) (n : ℕ)
      → char_step ch k 45 next dur n ≡ ends (unexpected_char 45)
  unfolding char_step scale_at
  step-minus next dur n = rw (printing 45 (omega arith) (omega arith)) refl

  -- The text of a negative duration begins with a minus sign, and reading it is an error.
  pub from_str-negative :
      (d : Duration)
      → is_negative d ≡ true
      → (size d == 0) ≡ false
      → chrono_duration_from_str ch k (chrono_duration_string ch k d) ≡ unexpected_char 45
  unfolding chrono_duration_from_str chrono_duration_string lowered parse
  from_str-negative d neg some_time =
      let kept = lowercase 45 (omega arith) (omega arith) (inl (omega arith)) in
      rw (is_zero_lem d, some_time, neg, lowered, kept, parse, step-minus) refl
