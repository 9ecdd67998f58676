-- ===== src/MqttApi/Index.antt =====
-- The index of a section in a topic: what is printed is read back.
use Prim.Native.Char.{code}
use Prim.Native.String.{String}
use rinklers.Prelude.{
  ℕ, zero, suc, ◌+◌, ◌*◌, ◌-◌, ◌/◌, ◌%◌, ◌≤◌, ◌<◌, ◌≡◌, refl, sym, ap, ◌∙◌, inl, inr, Option, none,
  some, List, [], ◌∷◌, ◌++◌, true, false, ltb, leb, ◌==◌, ◌&&◌, if◌then◌else◌, append_assoc,
  append-nil, arith, Bool-cases,
}
use rinklers.Util.Durations.{digits, to_string}
use rinklers.MqttApi.{read_digits, from_str_radix}

-- the code points of a text
abbrev pub codes : String → List ℕ
codes String.[] = []
codes (String.◌∷◌ c s) = code c ∷ codes s

-- the bound of `usize` on 64 bits
abbrev pub usize_bound : ℕ
usize_bound = 18446744073709551616

-- `read_digits` on the code points
abbrev read_codes : List ℕ → ℕ → Option ℕ
read_codes [] n = some n
read_codes (c ∷ s) n =
    let rest = read_codes s (n * 10 + (c - 48)) in
    if leb 48 c && leb c 57
    then (if ltb (n * 10 + (c - 48)) usize_bound then rest else none)
    else none

read_digits-codes : (s : String) (n : ℕ) → read_digits s n ≡ read_codes (codes s) n
unfolding read_digits
read_digits-codes String.[] n = refl
read_digits-codes (String.◌∷◌ c s) n = rw (read_digits-codes s (n * 10 + (code c - 48))) refl

-- the number, if `usize` has it
abbrev fitting : ℕ → Option ℕ → Option ℕ
fitting n rest = if ltb n usize_bound then rest else none

read_codes-digit :
    (d n m : ℕ) (rest : List ℕ)
    → d < 10
    → n * 10 + d ≡ m
    → read_codes ((48 + d) ∷ rest) n ≡ fitting m (read_codes rest m)
read_codes-digit d n m rest lt sum =
    let low : leb 48 (48 + d) ≡ true = ground arith in
    let high : leb (48 + d) 57 ≡ true = ground arith in
    let back : 48 + d - 48 ≡ d = omega arith in rw (low, high, back, sum) refl

fitting-step : (n : ℕ) (r : Option ℕ) → fitting (n / 10) (fitting n r) ≡ fitting n r
fitting-step n r = elim (Bool-cases (ltb n usize_bound)) [
  | inl small ↦
      let front : ltb (n / 10) usize_bound ≡ true = ground (arith, small) in rw (front, small) refl
  | inr large ↦ rw large (ground arith)
]

read_codes-digits :
    (rounds n : ℕ) (rest : List ℕ)
    → n ≤ rounds
    → read_codes (digits rounds n ++ rest) 0 ≡ fitting n (read_codes rest n)
unfolding digits
read_codes-digits zero n rest le = read_codes-digit (n % 10) 0 n rest (omega arith) (omega arith)
read_codes-digits (suc rounds) n rest le = elim (Bool-cases (ltb n 10)) [
  | inl small ↦ rw small (read_codes-digit n 0 n rest (ground arith) (omega arith))
  | inr large ↦ rw large (
      ap (λ s. read_codes s 0) (append_assoc (digits rounds (n / 10)) ((48 + n % 10) ∷ []) rest)
      ∙ read_codes-digits rounds (n / 10) ((48 + n % 10) ∷ rest) (ground arith)
      ∙ ap (fitting (n / 10))
          (read_codes-digit (n % 10) (n / 10) n rest (omega arith) (omega arith))
      ∙ fitting-step n (read_codes rest n))
]

-- A number begins with a digit.
digits_head : (rounds n : ℕ) → (d : ℕ) × (t : List ℕ) × (digits rounds n ≡ (48 + d) ∷ t)
unfolding digits
digits_head zero n = (n % 10, [], refl)
digits_head (suc rounds) n = elim (Bool-cases (ltb n 10)) [
  | inl small ↦ (n, [], rw small refl)
  | inr large ↦
      let (d, t, e) = digits_head rounds (n / 10) in
      (d, t ++ (48 + n % 10) ∷ [], rw (large, e) refl)
]

from_str_radix-read_codes :
    (s : String) (d : ℕ) (t : List ℕ)
    → codes s ≡ (48 + d) ∷ t
    → from_str_radix s ≡ read_codes (codes s) 0
from_str_radix-read_codes String.[] d t h = cc
from_str_radix-read_codes (String.◌∷◌ c s) d t h =
    let first : code c ≡ 48 + d = ground (arith, h) in
    let no_plus : (code c == 43) ≡ false = ground (arith, first) in
    rw no_plus (read_digits-codes (String.◌∷◌ c s) 0)

-- A section's index, printed as the code prints it into the topics of the section, is read back from a
-- level of a topic as this index, if it is below 2^64; a larger number is not read at all.
pub from_str_radix-to_string :
    (s : String) (i : ℕ)
    → codes s ≡ to_string i
    → from_str_radix s ≡ (if ltb i usize_bound then some i else none)
from_str_radix-to_string s i h =
    let (d, t, e) = digits_head i i in
    from_str_radix-read_codes s d t (h ∙ e)
    ∙ ap (λ l. read_codes l 0) (h ∙ sym (append-nil (to_string i)))
    ∙ read_codes-digits i i [] (omega arith)
