-- ===== src/Util/Durations/Library.antt =====
-- What src/util.rs uses of chrono's `Duration` and of the standard library's tables of characters, and
-- what it relies on. A character is its code point. `size` is a duration's absolute value in nanoseconds.
use rinklers.Prelude.{
  ℕ, ◌*◌, ◌+◌, ◌-◌, ◌/◌, ◌^◌, ◌≤◌, ◌<◌, ◌≡◌, ◌⊎◌, Option, none, some, List, [], ◌∷◌, Bool, true,
  false, Outcome, done, ◌==◌,
}

pub data Scale : Type 0 where
  week day hour minute second milli micro nano : Scale

-- the length of each in nanoseconds
abbrev pub span : Scale → ℕ
span week = 604800000000000
span day = 86400000000000
span hour = 3600000000000
span minute = 60000000000
span second = 1000000000
span milli = 1000000
span micro = 1000
span nano = 1

-- the bound of `i64`
abbrev pub bound : ℕ
bound = 2 ^ 63

-- `Duration::max_value`, as many milliseconds as `i64` has
abbrev pub max_size : ℕ
max_size = (bound - 1) * 1000000

pub record CharTables : Type 0 where
  pub to_lowercase : ℕ → List ℕ
  pub is_whitespace : ℕ → Bool
  -- the printing characters of ASCII, and those of them that are not capital letters
  pub printing : (c : ℕ) → 33 ≤ c → c ≤ 126 → is_whitespace c ≡ false
  pub lowercase : (c : ℕ) → 33 ≤ c → c ≤ 126 → (c < 65) ⊎ (90 < c) → to_lowercase c ≡ c ∷ []

-- `of week` is `Duration::weeks`, `num week` is `num_weeks`, and so on. `num` is used on durations that
-- are not negative; for microseconds and nanoseconds it is partial.
pub record Chrono : Type 1 where
  pub Duration : Type 0
  pub size : Duration → ℕ
  pub is_negative : Duration → Bool
  pub is_zero : Duration → Bool
  pub zero_duration : Duration
  pub negated : Duration → Duration
  pub of : Scale → ℕ → Outcome Duration
  pub add : Duration → Duration → Outcome Duration
  pub num : Scale → Duration → ℕ
  pub num_microseconds : Duration → Option ℕ
  pub num_nanoseconds : Duration → Option ℕ
  pub from_std : ℕ → Option Duration
  pub to_std : Duration → Option ℕ
  pub is_zero_lem : (d : Duration) → is_zero d ≡ (size d == 0)
  pub zero_lem : (is_negative zero_duration ≡ false) × (size zero_duration ≡ 0)
  pub negated_lem :
      (d : Duration)
      → is_negative d ≡ true
      → (is_negative (negated d) ≡ false) × (size (negated d) ≡ size d)
  pub of_lem :
      (u : Scale) (n : ℕ)
      → n * span u ≤ max_size
      → (d : Duration) × (of u n ≡ done d) × (is_negative d ≡ false) × (size d ≡ n * span u)
  pub add_lem :
      (a b : Duration)
      → is_negative a ≡ false
      → is_negative b ≡ false
      → size a + size b ≤ max_size
      → (d : Duration) × (add a b ≡ done d) × (is_negative d ≡ false) × (size d ≡ size a + size b)
  pub num_lem : (u : Scale) (d : Duration) → is_negative d ≡ false → num u d ≡ size d / span u
  pub num_microseconds_lem :
      (d : Duration)
      → is_negative d ≡ false
      → size d / 1000 < bound
      → num_microseconds d ≡ some (size d / 1000)
  pub num_nanoseconds_lem :
      (d : Duration) → is_negative d ≡ false → size d < bound → num_nanoseconds d ≡ some (size d)
  pub from_std_lem :
      (n : ℕ)
      → n ≤ max_size
      → (d : Duration) × (from_std n ≡ some d) × (is_negative d ≡ false) × (size d ≡ n)
  pub from_std_none : (n : ℕ) → max_size < n → from_std n ≡ none
  pub to_std_lem : (d : Duration) → is_negative d ≡ false → to_std d ≡ some (size d)
