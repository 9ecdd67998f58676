-- ===== src/SourceTests.antt =====
-- The unit tests of the source, on the model: `test_index_map` of src/schedule_runner.rs and
-- `test_chrono_duration_string` of src/util.rs. An `assert_eq!` is a Boolean value.
mod Schedules
mod Runner
use Prim.Native.String.{String}
use rinklers.Prelude.{
  ℕ, ◌+◌, ◌*◌, ◌≡◌, refl, Option, none, some, List, [], ◌∷◌, Bool, true, false, ◌==◌, ◌&&◌, Outcome,
  done, ◌>>=◌,
}
use rinklers.IndexMap.{
  IndexMap, Entry, element, empty, new, insert, insert_all, remove, from_iter, next,
}
use rinklers.IndexMap.Iterators.{
  indeces, values, collect_indeces, collect_values, next_index, next_value, next_mut, write,
  for_mut, for_values,
}
use rinklers.Util.Durations.{
  digits, part, scale_at, unsigned_string, char_step, parse, lowered, chrono_duration_string,
  chrono_duration_from_str, Parsed, ok, unexpected_char, duration_to_std,
}
use rinklers.Util.Durations.Examples.{Length, ascii, lengths}
use rinklers.MqttApi.Index.{codes}

abbrev pub same_list : List ℕ → List ℕ → Bool
same_list [] [] = true
same_list [] (y ∷ ys) = false
same_list (x ∷ xs) [] = false
same_list (x ∷ xs) (y ∷ ys) = (x == y) && same_list xs ys

abbrev pub same_option : Option ℕ → Option ℕ → Bool
same_option none none = true
same_option none (some b) = false
same_option (some a) none = false
same_option (some a) (some b) = a == b

abbrev same_entries : List (Entry ℕ) → List (Entry ℕ) → Bool
same_entries [] [] = true
same_entries [] (y ∷ ys) = false
same_entries (x ∷ xs) [] = false
same_entries (element a ∷ xs) (element b ∷ ys) = (a == b) && same_entries xs ys
same_entries (element a ∷ xs) (empty b ∷ ys) = false
same_entries (empty a ∷ xs) (element b ∷ ys) = false
same_entries (empty a ∷ xs) (empty b ∷ ys) = same_option a b && same_entries xs ys

-- the derived `PartialEq`
abbrev same_map : IndexMap ℕ → IndexMap ℕ → Bool
same_map a b = same_entries a.entries b.entries && same_option a.next_empty b.next_empty

abbrev test_index_map : Outcome Bool
test_index_map = do
  (i0, m0) ← insert new 100
  (i1, m1) ← insert m0 200
  (i2, m2) ← insert m1 300
  (i3, m3) ← insert m2 400
  (removed, m4) ← remove m3 0
  (i4, m5) ← insert m4 500
  map3 ← from_iter (510 ∷ 210 ∷ 310 ∷ 410 ∷ [])
  done (
      same_list (i0 ∷ i1 ∷ i2 ∷ i3 ∷ i4 ∷ []) (0 ∷ 1 ∷ 2 ∷ 3 ∷ 0 ∷ [])
      && same_list (collect_indeces 4 (indeces m3)) (0 ∷ 1 ∷ 2 ∷ 3 ∷ [])
      && same_option removed (some 100)
      && same_option m4.next_empty (some 0)
      && same_list (collect_indeces 4 (indeces m4)) (1 ∷ 2 ∷ 3 ∷ [])
      && same_list (collect_values 4 (values m4)) (200 ∷ 300 ∷ 400 ∷ [])
      && same_list (collect_indeces 4 (indeces m5)) (0 ∷ 1 ∷ 2 ∷ 3 ∷ [])
      && same_list (collect_values 4 (values m5)) (500 ∷ 200 ∷ 300 ∷ 400 ∷ [])
      && same_map (for_values (λ e (s : Unit {0}). (e + 10, s)) 4 m5 tt).0 map3)

index_map_passes : test_index_map ≡ done true
unfolding insert insert_all remove from_iter collect_indeces collect_values next_index next_value
    next next_mut write for_mut
index_map_passes = refl

-- the cases of the test: a number of nanoseconds, and its text
abbrev cases : List (ℕ × String)
cases =
    (1000000000, "1s")
    ∷ (150 * 1000000000, "2m30s")
    ∷ (604800 * 1000000000, "1w")
    ∷ (86400 * 1000000000, "1d")
    ∷ (3600 * 1000000000, "1h")
    ∷ (60 * 1000000000, "1m")
    ∷ (1000000, "1ms")
    ∷ (1000, "1us")
    ∷ (1, "1ns")
    ∷ (31449599 * 1000000000 + 999999999, "51w6d23h59m59s999ms999us999ns")
    ∷ []

abbrev same_duration : Parsed Length → ℕ → Bool
same_duration (ok (false, d)) e = d == e
same_duration (ok (true, d)) e = false
same_duration (unexpected_char x) e = false
same_duration duration_to_std e = false
same_duration Parsed.panicked e = false

abbrev case_passes : ℕ × String → Bool
case_passes (dur, string) =
    same_list (chrono_duration_string ascii lengths (false, dur)) (codes string)
    && same_duration (chrono_duration_from_str ascii lengths (codes string)) dur

abbrev test_chrono_duration_string : List (ℕ × String) → Bool
test_chrono_duration_string [] = true
test_chrono_duration_string (x ∷ xs) = case_passes x && test_chrono_duration_string xs

chrono_duration_string_passes : test_chrono_duration_string cases ≡ true
unfolding digits part scale_at unsigned_string chrono_duration_string char_step parse lowered
    chrono_duration_from_str
chrono_duration_string_passes = refl
