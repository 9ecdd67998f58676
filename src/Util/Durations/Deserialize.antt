-- ===== src/Util/Durations/Deserialize.antt =====
-- src/util.rs: `deserialize_duration`, by which serde reads the durations of the configuration. What the
-- deserializer gives for `String::deserialize`, and its `Error::custom`, are arguments; a text is the list
-- of its code points.
use Prim.Native.Char.{code}
use Prim.Native.String.{String}
use rinklers.Prelude.{
  ℕ, ◌<◌, ◌≡◌, refl, inl, inr, ◌⊎◌, Outcome, done, panicked, List, [], ◌∷◌, ◌++◌,
}
use rinklers.Util.Durations.Library.{CharTables, Chrono, bound}
use rinklers.Util.Durations.{
  Parsed, ok, unexpected_char, duration_to_std, duration_from_str, duration_string,
}
use rinklers.Util.Durations.RoundTrip.{duration_from_str-duration_string}

abbrev text_codes : String → List ℕ
text_codes String.[] = []
text_codes (String.◌∷◌ c s) = code c ∷ text_codes s

-- the texts of `DurationFromStrError`
abbrev pub unexpected_text : ℕ → List ℕ
unexpected_text c = text_codes "expected number, whitespace or postfix. found " ++ c ∷ []

abbrev pub out_of_range_text : List ℕ
out_of_range_text = text_codes "chrono::Duration out of range of std::time::Duration"

module _ (ch : CharTables) (k : Chrono) (Error : Type 0) (custom : List ℕ → Error) where
  -- `map_err` on the result of `duration_from_str`; the parser's panic is one of this function
  abbrev pub custom_error : Parsed ℕ → Outcome (Error ⊎ ℕ)
  custom_error (ok n) = done (inr n)
  custom_error (unexpected_char c) = done (inl (custom (unexpected_text c)))
  custom_error duration_to_std = done (inl (custom out_of_range_text))
  custom_error Parsed.panicked = panicked

  unfoldable pub deserialize_duration : Error ⊎ List ℕ → Outcome (Error ⊎ ℕ)
  deserialize_duration (inl e) = done (inl e)
  deserialize_duration (inr s) = custom_error (duration_from_str ch k s)

  -- A duration of less than 2^63 nanoseconds that is written as `duration_string` prints it is
  -- deserialized as the same duration.
  deserialize_duration-duration_string :
      (n : ℕ)
      → n < bound
      → (s : List ℕ) × (duration_string ch k n ≡ done s)
        × (deserialize_duration (inr s) ≡ done (inr n))
  unfolding deserialize_duration
  deserialize_duration-duration_string n small =
      let (s, made, read) = duration_from_str-duration_string ch k n small in
      (s, made, rw read refl)
