-- ===== src/Config/Examples.antt =====
-- A configuration with two sections and two programs, and one with an index out of range.
use rinklers.Prelude.{ℕ, ◌≡◌, refl, List, [], ◌∷◌, map, false}
use rinklers.Section.{noop_section, log_section}
use rinklers.Config.{
  SectionConfig, from_section, to_sections, section_out_of_range, err, collect_results,
  to_prog_item, to_program, Config, to_programs,
}
use rinklers.Config.Programs.{
  to_sections-from_section, first_out_of, BuiltAll, Decided, to_programs-Decided,
}

abbrev lawn_and_beds : List SectionConfig
lawn_and_beds = record { name = "lawn" } ∷ record { name = "beds" } ∷ []

lawn_and_beds_kept :
    (map (λ s. from_section s) (to_sections lawn_and_beds) ≡ lawn_and_beds)
    × (map (λ s. log_section.state s) (to_sections lawn_and_beds) ≡ map (λ _. false) lawn_and_beds)
lawn_and_beds_kept = to_sections-from_section lawn_and_beds

-- schedules are numbers here
abbrev both : Config ℕ
both = record {
  sections = lawn_and_beds;
  programs =
      record {
        name = "all";
        sequence =
            record { section = 1; duration = 60 } ∷ record { section = 0; duration = 90 } ∷ [];
        schedule = 3;
      }
      ∷ record {
        name = "beds";
        sequence = record { section = 1; duration = 30 } ∷ [];
        schedule = 4;
      }
      ∷ [];
}

abbrev wrong : Config ℕ
wrong = record both {
  programs =
      record { name = "wrong"; sequence = record { section = 2; duration = 5 } ∷ []; schedule = 3 }
      ∷ both.programs;
}

both_built :
    Decided ℕ
      (70 ∷ 80 ∷ [])
      (BuiltAll ℕ (70 ∷ 80 ∷ []) both.programs)
      (first_out_of ℕ (70 ∷ 80 ∷ []) both.programs)
      (to_programs ℕ both (70 ∷ 80 ∷ []))
both_built = to_programs-Decided ℕ (70 ∷ 80 ∷ []) both

wrong_index : to_programs ℕ wrong (70 ∷ 80 ∷ []) ≡ err (section_out_of_range 2)
unfolding to_programs to_program to_prog_item collect_results
wrong_index = refl
