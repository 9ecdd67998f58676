-- ===== src/Application/System/Sections.antt =====
-- Nothing in the program changes a section's configuration.
use rinklers.Prelude.{
  ℕ, zero, suc, ◌≡◌, refl, ap, ◌∙◌, Option, none, some, List, [], ◌∷◌, map, Bool, length, get_elem?,
  set,
}
use rinklers.Section.{NoopSection, LogSection, noop_section, log_section}
use rinklers.SectionRunner.{Effect, set_state, send}
use rinklers.Config.{SectionConfig, from_section}
use rinklers.Application.System.{set_at, apply_effects}

-- The sections' configurations are not changed.
abbrev pub configs : List (LogSection NoopSection) → List SectionConfig
configs ss = map (λ s. from_section s) ss

pub configs-set :
    (ss : List (LogSection NoopSection)) (i : ℕ) (sec : LogSection NoopSection) (b : Bool)
    → get_elem? ss i ≡ some sec
    → configs (set ss i (log_section.set_state sec b)) ≡ configs ss
unfolding from_section
configs-set [] i sec b h = refl
configs-set (x ∷ xs) zero sec b h =
    let same : sec ≡ x = cc h in
    ap (λ (s : LogSection NoopSection). from_section s ∷ configs xs) same
configs-set (x ∷ xs) (suc i) sec b h = ap (◌∷◌ (from_section x)) (configs-set xs i sec b h)

pub configs-set_at :
    (ss : List (LogSection NoopSection)) (i : ℕ) (b : Bool) → configs (set_at ss i b) ≡ configs ss
configs-set_at ss i b = by_elem (get_elem? ss i) refl
  where
    by_elem :
        (o : Option (LogSection NoopSection))
        → get_elem? ss i ≡ o
        → configs (elim o [ none ↦ ss | some sec ↦ set ss i (log_section.set_state sec b) ])
          ≡ configs ss
    by_elem none h = refl
    by_elem (some sec) h = configs-set ss i sec b h

pub configs-apply_effects :
    (es : List Effect) (ss : List (LogSection NoopSection))
    → configs (apply_effects es ss) ≡ configs ss
unfolding apply_effects
configs-apply_effects [] ss = refl
configs-apply_effects (set_state i b ∷ es) ss =
    configs-apply_effects es (set_at ss i b) ∙ configs-set_at ss i b
configs-apply_effects (send chan n ∷ es) ss = configs-apply_effects es ss

pub length-configs : (ss : List (LogSection NoopSection)) → length (configs ss) ≡ length ss
length-configs [] = refl
length-configs (x ∷ xs) = ap suc (length-configs xs)
