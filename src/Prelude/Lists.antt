-- ===== src/Prelude/Lists.antt =====
-- Lists measured and indexed by native numbers, under the library's names.
use Prim.Native.Nat.{ℕ, zero, suc, ◌+◌, ◌<◌, ◌≤◌}
use mathlib.Core.Path.{◌≡◌, refl, ap}
use mathlib.Core.Bool.{Bool, false, ◌||◌}
use mathlib.Core.List.{List, [], ◌∷◌, ◌++◌, append_assoc}
use mathlib.Core.Option.{Option, none, some}
use native.Mathlib.Omega.{arith}
use rinklers.Prelude.Tests.{◌==◌, if◌then◌else◌}

module _ {ℓ} {A : Type ℓ} where
  abbrev pub length : List A → ℕ
  length [] = 0
  length (x ∷ xs) = suc (length xs)

  abbrev pub get_elem? : List A → ℕ → Option A
  get_elem? [] i = none
  get_elem? (x ∷ xs) zero = some x
  get_elem? (x ∷ xs) (suc i) = get_elem? xs i

  -- A write out of bounds changes nothing.
  abbrev pub set : List A → ℕ → A → List A
  set [] i v = []
  set (x ∷ xs) zero v = v ∷ xs
  set (x ∷ xs) (suc i) v = x ∷ set xs i v

  pub length-append : (xs ys : List A) → length (xs ++ ys) ≡ length xs + length ys
  length-append [] ys = omega arith
  length-append (x ∷ xs) ys = omega (arith, length-append xs ys)

  pub length-set : (xs : List A) (i : ℕ) (v : A) → length (set xs i v) ≡ length xs
  length-set [] i v = refl
  length-set (x ∷ xs) zero v = refl
  length-set (x ∷ xs) (suc i) v = ap suc (length-set xs i v)

  -- A write inside the list is seen at its own index and nowhere else.
  pub get_elem?-set :
      (xs : List A) (i j : ℕ) (v : A)
      → i < length xs
      → get_elem? (set xs i v) j ≡ (if i == j then some v else get_elem? xs j)
  get_elem?-set [] i j v h = elim h [ ]
  get_elem?-set (x ∷ xs) zero zero v h = refl
  get_elem?-set (x ∷ xs) zero (suc j) v h = ground arith
  get_elem?-set (x ∷ xs) (suc i) zero v h = ground arith
  get_elem?-set (x ∷ xs) (suc i) (suc j) v h = ground (arith, get_elem?-set xs i j v)

  -- A push is seen at the index that was the length.
  pub get_elem?-push :
      (xs : List A) (j : ℕ) (v : A)
      → get_elem? (xs ++ v ∷ []) j ≡ (if length xs == j then some v else get_elem? xs j)
  get_elem?-push [] zero v = refl
  get_elem?-push [] (suc j) v = ground arith
  get_elem?-push (x ∷ xs) zero v = ground arith
  get_elem?-push (x ∷ xs) (suc j) v = ground (arith, get_elem?-push xs j v)

  pub lt-length : (xs : List A) (i : ℕ) {v : A} → get_elem? xs i ≡ some v → i < length xs
  lt-length [] i h = ground arith
  lt-length (x ∷ xs) zero h = omega arith
  lt-length (x ∷ xs) (suc i) h = omega (arith, lt-length xs i h)

  pub get_elem?_past : (xs : List A) (i : ℕ) → length xs ≤ i → get_elem? xs i ≡ none
  get_elem?_past [] i h = refl
  get_elem?_past (x ∷ xs) zero h = absurd (omega arith)
  get_elem?_past (x ∷ xs) (suc i) h = get_elem?_past xs i (omega arith)

  pub length-le : (xs : List A) (i : ℕ) → get_elem? xs i ≡ none → length xs ≤ i
  length-le [] i h = omega arith
  length-le (x ∷ xs) zero h = ground arith
  length-le (x ∷ xs) (suc i) h = omega (arith, length-le xs i h)

  pub get_elem?_inside : (xs : List A) (i : ℕ) → i < length xs → (v : A) × (get_elem? xs i ≡ some v)
  get_elem?_inside [] i h = elim h [ ]
  get_elem?_inside (x ∷ xs) zero h = (x, refl)
  get_elem?_inside (x ∷ xs) (suc i) h = get_elem?_inside xs i (omega arith)

  -- The element behind a prefix, and a write to it.
  pub get_elem?-append_length :
      (xs : List A) (v : A) (ys : List A) → get_elem? (xs ++ v ∷ ys) (length xs) ≡ some v
  get_elem?-append_length [] v ys = refl
  get_elem?-append_length (x ∷ xs) v ys = get_elem?-append_length xs v ys

  pub set-append_length :
      (xs : List A) (v w : A) (ys : List A) → set (xs ++ v ∷ ys) (length xs) w ≡ xs ++ w ∷ ys
  set-append_length [] v w ys = refl
  set-append_length (x ∷ xs) v w ys = ap (◌∷◌ x) (set-append_length xs v w ys)

  pub set-set : (xs : List A) (i : ℕ) (v w : A) → set (set xs i v) i w ≡ set xs i w
  set-set [] i v w = refl
  set-set (x ∷ xs) zero v w = refl
  set-set (x ∷ xs) (suc i) v w = ap (◌∷◌ x) (set-set xs i v w)

  -- What is appended to a list that is already split goes to its second part.
  pub extend : (l h b x : List A) → l ≡ h ++ b → l ++ x ≡ h ++ (b ++ x)
  extend l h b x e = rw e (append_assoc h b x)

  -- the numbers from `i` on, as many as there are members
  abbrev pub indices_from : ℕ → List A → List ℕ
  indices_from i [] = []
  indices_from i (x ∷ xs) = i ∷ indices_from (i + 1) xs

  -- Each member satisfies the predicate; it computes to a tuple.
  abbrev pub All {κ} : (A → Type κ) → List A → Type κ
  All P [] = Unit
  All P (x ∷ xs) = P x × All P xs

abbrev pub contains : ℕ → List ℕ → Bool
contains i [] = false
contains i (x ∷ xs) = (x == i) || contains i xs

-- No number occurs twice.
abbrev pub Distinct : List ℕ → Type 0
Distinct [] = Unit
Distinct (x ∷ xs) = (contains x xs ≡ false) × Distinct xs

pub indices_from-get_elem? {ℓ} :
    {A : Type ℓ} (i : ℕ) (xs : List A) (j v : ℕ)
    → get_elem? (indices_from i xs) j ≡ some v
    → v ≡ i + j
indices_from-get_elem? i [] j v h = cc
indices_from-get_elem? i (x ∷ xs) zero v h = ground (arith, h)
indices_from-get_elem? i (x ∷ xs) (suc j) v h =
    ground (arith, indices_from-get_elem? (i + 1) xs j v h)

pub length-indices_from {ℓ} :
    {A : Type ℓ} (i : ℕ) (xs : List A) → length (indices_from i xs) ≡ length xs
length-indices_from i [] = refl
length-indices_from i (x ∷ xs) = ap suc (length-indices_from (i + 1) xs)
