-- ===== src/Section/Laws.antt =====
-- What every section promises.
use Prim.Native.String.{String}
use rinklers.Prelude.{
  ◌≡◌, refl, sym, ◌∙◌, Bool, false, List, [], ◌∷◌, ◌++◌, append_assoc, append-nil,
}
use rinklers.Section.{Section, noop_section, new_noop, log_section, test_section, new_test}

-- The state is the one last set, and the name never changes.
pub record IsLawful {S : Type 0} (sec : Section S) : Type 0 where
  pub state-set_state : (s : S) (b : Bool) → sec.state (sec.set_state s b) ≡ b
  pub name-set_state : (s : S) (b : Bool) → sec.name (sec.set_state s b) ≡ sec.name s

noop-IsLawful : IsLawful noop_section
noop-IsLawful = record { state-set_state = λ s b. refl; name-set_state = λ s b. refl }

-- Logging keeps the promises of the section inside, at any depth of wrapping.
pub log-IsLawful :
    {S : Type 0} (sec : Section S) → IsLawful sec → IsLawful (log_section ⦃sec = sec⦄)
log-IsLawful sec l = record {
  state-set_state = λ s b. l.state-set_state s.section b;
  name-set_state = λ s b. l.name-set_state s.section b;
}

-- A new logging section has the name given and is off; it obeys the promises of a section.
pub new_noop_lem :
    (n : String)
    → (log_section.name (new_noop n) ≡ n)
      × (log_section.state (new_noop n) ≡ false)
      × IsLawful (log_section ⦃sec = noop_section⦄)
unfolding new_noop
new_noop_lem n = (refl, refl, log-IsLawful noop_section noop-IsLawful)

-- A section of the tests keeps the promises of the section inside.
test-IsLawful :
    {S W : Type 0} (sec : Section S) → IsLawful sec → IsLawful (test_section {W = W} ⦃sec = sec⦄)
test-IsLawful sec l = record {
  state-set_state = λ s b. l.state-set_state s.section b;
  name-set_state = λ s b. l.name-set_state s.section b;
}

-- the states of a list, set one after the other
abbrev set_all : {S : Type 0} → Section S → S → List Bool → S
set_all sec s [] = s
set_all sec s (b ∷ bs) = set_all sec (sec.set_state s b) bs

seen_after :
    {S : Type 0} (sec : Section S) (s : S) (seen bs : List Bool)
    → (set_all (test_section ⦃sec = sec⦄) (new_test s (λ b seen'. seen' ++ b ∷ []) seen) bs).world
      ≡ seen ++ bs
unfolding new_test
seen_after sec s seen [] = sym (append-nil seen)
seen_after sec s seen (b ∷ bs) =
    seen_after sec (sec.set_state s b) (seen ++ b ∷ []) bs ∙ append_assoc seen (b ∷ []) bs

-- As long as nothing else sets its section, the function of a test's section has seen the states in
-- the order in which they were set.
seen_states :
    {S : Type 0} (sec : Section S) (s : S) (bs : List Bool)
    → (set_all (test_section ⦃sec = sec⦄) (new_test s (λ b seen. seen ++ b ∷ []) []) bs).world ≡ bs
seen_states sec s bs = seen_after sec s [] bs
