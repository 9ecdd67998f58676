-- ===== src/Section.antt =====
-- src/section.rs. A section is what implements the trait `Section`; its state behind the shared
-- reference is passed explicitly. `trace!` is left out.
pub mod Laws
pub mod Examples
use Prim.Native.String.{String}
use rinklers.Prelude.{Bool, false}

pub record Section (S : Type 0) : Type 0 where
  pub name : S → String
  pub set_state : S → Bool → S
  pub state : S → Bool

pub record NoopSection : Type 0 where
  pub name : String
  pub state : Bool

-- `NoopSection::new`
unfoldable pub noop : String → NoopSection
noop name' = record { name = name'; state = false }

instance abbrev pub noop_section : Section NoopSection
noop_section = record {
  name = λ s. s.name;
  set_state = λ s b. record s { state = b };
  state = λ s. s.state;
}

pub record LogSection (S : Type 0) : Type 0 where
  pub section : S

-- `LogSection::new` and `LogSection::new_noop`
unfoldable pub log : {S : Type 0} → S → LogSection S
log s = record { section = s }

unfoldable pub new_noop : String → LogSection NoopSection
unfolding log noop
new_noop name' = log (noop name')

instance abbrev pub log_section : {S : Type 0} ⦃sec : Section S⦄ → Section (LogSection S)
log_section ⦃sec⦄ = record {
  name = λ s. sec.name s.section;
  set_state = λ s b. record s { section = sec.set_state s.section b };
  state = λ s. sec.state s.section;
}

-- `TestSection` of the tests: `fun` is what the function changes of the world `W` beside the section.
pub record TestSection (S W : Type 0) : Type 0 where
  pub section : S
  pub fun : Bool → W → W
  pub world : W

-- `TestSection::new`
unfoldable pub new_test : {S W : Type 0} → S → (fun : Bool → W → W) → (world : W) → TestSection S W
new_test s fun' world' = record { section = s; fun = fun'; world = world' }

instance abbrev pub test_section : {S W : Type 0} ⦃sec : Section S⦄ → Section (TestSection S W)
test_section ⦃sec⦄ = record {
  name = λ s. sec.name s.section;
  set_state = λ s b. record s { world = s.fun b s.world; section = sec.set_state s.section b };
  state = λ s. sec.state s.section;
}
