-- ===== src/Config.antt =====
-- src/config.rs. A `SectionRef` is a number, as in the section runner, and the list of sections that the
-- source indexes is passed in. Reading the JSON text is left out.
pub mod Programs
pub mod Examples
use Prim.Native.String.{String}
use rinklers.Prelude.{
  ℕ, List, [], ◌∷◌, map, Option, none, some, Bool, true, false, length, get_elem?, leb,
  if◌then◌else◌, ◌≤◌,
}
use rinklers.Program.{ProgItem, Program, new_program}
use rinklers.Section.{Section, NoopSection, LogSection, new_noop}

pub record SectionConfig : Type 0 where
  pub name : String

unfoldable pub to_section : SectionConfig → LogSection NoopSection
unfolding new_noop
to_section s = new_noop s.name

unfoldable pub from_section : {S : Type 0} ⦃sec : Section S⦄ → S → SectionConfig
from_section ⦃sec⦄ s = record { name = sec.name s }

pub data ConfigError : Type 0 where
  section_out_of_range : ℕ → ConfigError

-- `ConfigResult`, and a panic
pub data ConfigResult {ℓ} (A : Type ℓ) : Type ℓ where
  ok : A → ConfigResult A
  err : ConfigError → ConfigResult A
  panicked : ConfigResult A

infixl 5 ◌>>=◌
abbrev pub ◌>>=◌ {ℓ κ} :
    {A : Type ℓ} {B : Type κ} → ConfigResult A → (A → ConfigResult B) → ConfigResult B
ok a >>= f = f a
err e >>= f = err e
panicked >>= f = panicked

-- `collect` of results: the first error ends it
unfoldable pub collect_results {ℓ κ} :
    {A : Type ℓ} {B : Type κ} → (A → ConfigResult B) → List A → ConfigResult (List B)
collect_results f [] = ok []
collect_results f (x ∷ xs) = do y ← f x; ys ← collect_results f xs; ok (y ∷ ys)

pub record ProgItemConfig : Type 0 where
  pub section : ℕ
  pub duration : ℕ

-- `sections[i]`
abbrev at_index : List ℕ → ℕ → ConfigResult ℕ
at_index sections i = elim (get_elem? sections i) [ none ↦ panicked | some s ↦ ok s ]

unfoldable pub to_prog_item : ProgItemConfig → List ℕ → ConfigResult ProgItem
to_prog_item item sections =
    if leb (length sections) item.section then err (section_out_of_range item.section) else (do
      s ← at_index sections item.section
      ok (record { section = s; duration = item.duration }))

module _ (Schedule : Type 0) where
  pub record ProgramConfig : Type 0 where
    pub name : String
    pub sequence : List ProgItemConfig
    pub schedule : Schedule

  unfoldable pub to_program : ProgramConfig → List ℕ → ConfigResult (Program Schedule)
  unfolding new_program
  to_program p sections = do
    sequence ← collect_results (λ item. to_prog_item item sections) p.sequence
    ok (new_program Schedule p.name sequence p.schedule)

  pub record Config : Type 0 where
    pub sections : List SectionConfig
    pub programs : List ProgramConfig

  unfoldable pub to_programs : Config → List ℕ → ConfigResult (List (Program Schedule))
  to_programs config sections = collect_results (λ p. to_program p sections) config.programs

-- `Config::to_sections`
unfoldable pub to_sections : List SectionConfig → List (LogSection NoopSection)
to_sections confs = map to_section confs
