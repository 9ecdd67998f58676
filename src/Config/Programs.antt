-- ===== src/Config/Programs.antt =====
-- Which configurations give programs, and which programs.
use rinklers.Prelude.{
  ℕ, ◌≡◌, refl, ap, inl, inr, Option, none, some, List, [], ◌∷◌, map, true, false, length,
  get_elem?, get_elem?_inside, leb, leb-false, Bool-cases, if◌then◌else◌, arith,
}
use rinklers.Section.{noop_section, log_section}
use rinklers.Program.{ProgItem, Program, new_program}
use rinklers.Config.{
  SectionConfig, to_section, from_section, to_sections, section_out_of_range, ConfigResult, ok, err,
  ◌>>=◌, collect_results, ProgItemConfig, to_prog_item, ProgramConfig, Program, to_program, Config,
  to_programs,
}

-- The sections of a configuration are as many, in the same order, all off, and each gives back its
-- configuration.
pub to_sections-from_section :
    (confs : List SectionConfig)
    → (map (λ s. from_section s) (to_sections confs) ≡ confs)
      × (map (λ s. log_section.state s) (to_sections confs) ≡ map (λ _. false) confs)
unfolding to_sections to_section from_section
to_sections-from_section [] = (refl, refl)
to_sections-from_section (x ∷ xs) =
    let (names, states) = to_sections-from_section xs in (ap (◌∷◌ x) names, ap (◌∷◌ false) states)

-- the first index of a sequence that is out of range
abbrev pub first_out : ℕ → List ProgItemConfig → Option ℕ
first_out n [] = none
first_out n (item ∷ items) = if leb n item.section then some item.section else first_out n items

module _ (Schedule : Type 0) (sections : List ℕ) where
  -- the first one of the programs
  abbrev pub first_out_of : List (ProgramConfig Schedule) → Option ℕ
  first_out_of [] = none
  first_out_of (p ∷ ps) = elim (first_out (length sections) p.sequence) [
    | none ↦ first_out_of ps
    | some i ↦ some i
  ]

  -- An item is built from its configuration: the section at its index, and its duration.
  abbrev pub Built : List ProgItemConfig → List ProgItem → Type 0
  Built [] [] = Unit
  Built [] (x ∷ xs) = ⊥
  Built (i ∷ is) [] = ⊥
  Built (i ∷ is) (x ∷ xs) =
      (get_elem? sections i.section ≡ some x.section) × (x.duration ≡ i.duration) × Built is xs

  abbrev pub BuiltAll : List (ProgramConfig Schedule) → List (Program Schedule) → Type 0
  BuiltAll [] [] = Unit
  BuiltAll [] (q ∷ qs) = ⊥
  BuiltAll (p ∷ ps) [] = ⊥
  BuiltAll (p ∷ ps) (q ∷ qs) =
      (q.name ≡ p.name)
      × (q.schedule ≡ p.schedule)
      × (q.on_schedule_update ≡ none)
      × Built p.sequence q.sequence
      × BuiltAll ps qs

  -- the result that the first index out of range decides
  abbrev pub Decided : {A : Type 0} → (A → Type 0) → Option ℕ → ConfigResult A → Type 0
  Decided {A} P none r = (a : A) × (r ≡ ok a) × P a
  Decided P (some i) r = r ≡ err (section_out_of_range i)

  item_in_range :
      (item : ProgItemConfig)
      → leb (length sections) item.section ≡ false
      → (x : ProgItem) × (to_prog_item item sections ≡ ok x)
        × (get_elem? sections item.section ≡ some x.section)
        × (x.duration ≡ item.duration)
  unfolding to_prog_item
  item_in_range item h =
      let (s, e) =
        get_elem?_inside sections item.section (leb-false (length sections) item.section h) in
      (record { section = s; duration = item.duration }, ground (arith, h), e, refl)

  item_out :
      (item : ProgItemConfig)
      → leb (length sections) item.section ≡ true
      → to_prog_item item sections ≡ err (section_out_of_range item.section)
  unfolding to_prog_item
  item_out item h = rw h

  sequence-Decided :
      (items : List ProgItemConfig)
      → Decided
          (Built items)
          (first_out (length sections) items)
          (collect_results (λ item. to_prog_item item sections) items)
  unfolding collect_results
  sequence-Decided [] = ([], refl, tt)
  sequence-Decided (i ∷ is) = elim (Bool-cases (leb (length sections) i.section)) [
    | inl out ↦ rw (out, item_out i out) refl
    | inr inside ↦
        let (x, e, at, long) = item_in_range i inside in
        rw (inside, e) (rest x (at, long) (first_out (length sections) is) _ (sequence-Decided is))
  ]
    where
      rest :
          (x : ProgItem)
          → (get_elem? sections i.section ≡ some x.section) × (x.duration ≡ i.duration)
          → (o : Option ℕ) (r : ConfigResult (List ProgItem)) → Decided (Built is) o r
          → Decided (Built (i ∷ is)) o (r >>= λ ys. ok (x ∷ ys))
      rest x here none r (ys, e, built) = (x ∷ ys, rw e, (here.0, here.1, built))
      rest x here (some k) r e = rw e

  program-Decided :
      (p : ProgramConfig Schedule)
      → Decided
          (λ q.
            (q.name ≡ p.name)
            × (q.schedule ≡ p.schedule)
            × (q.on_schedule_update ≡ none)
            × Built p.sequence q.sequence)
          (first_out (length sections) p.sequence)
          (to_program Schedule p sections)
  unfolding to_program new_program
  program-Decided p = made (first_out (length sections) p.sequence) _ (sequence-Decided p.sequence)
    where
      made :
          (o : Option ℕ) (r : ConfigResult (List ProgItem))
          → Decided (Built p.sequence) o r
          → Decided
              (λ (q : Program Schedule).
                (q.name ≡ p.name)
                × (q.schedule ≡ p.schedule)
                × (q.on_schedule_update ≡ none)
                × Built p.sequence q.sequence)
              o
              (r >>= λ sequence. ok (new_program Schedule p.name sequence p.schedule))
      made none r (ys, e, built) =
          (new_program Schedule p.name ys p.schedule, rw e, (refl, refl, refl, built))
      made (some k) r e = rw e

  programs-Decided :
      (ps : List (ProgramConfig Schedule))
      → Decided
          (BuiltAll ps)
          (first_out_of ps)
          (collect_results (λ p. to_program Schedule p sections) ps)
  unfolding collect_results
  programs-Decided [] = ([], refl, tt)
  programs-Decided (p ∷ ps) =
      both (first_out (length sections) p.sequence) (first_out_of ps) _ _ (program-Decided p)
        (programs-Decided ps)
    where
      both :
          (o o' : Option ℕ) (r : ConfigResult (Program Schedule))
          (r' : ConfigResult (List (Program Schedule)))
          → Decided
              (λ q.
                (q.name ≡ p.name)
                × (q.schedule ≡ p.schedule)
                × (q.on_schedule_update ≡ none)
                × Built p.sequence q.sequence)
              o
              r
          → Decided (BuiltAll ps) o' r'
          → Decided
              (BuiltAll (p ∷ ps))
              (elim o [ none ↦ o' | some i ↦ some i ])
              (r >>= λ q. r' >>= λ qs. ok (q ∷ qs))
      both none none r r' (q, e, b) (qs, e', bs) = (q ∷ qs, rw (e, e'), (b.0, b.1, b.2, b.3, bs))
      both none (some k) r r' (q, e, b) e' = rw (e, e')
      both (some k) o' r r' e bs = rw e

  -- `to_programs` never panics. If every item of every program names a section in range it gives the
  -- programs, each with its name, its schedule, no update function, and for each item the section at its index and its
  -- duration; if not, the error with the first index that is out of range.
  pub to_programs-Decided :
      (config : Config Schedule)
      → Decided
          (BuiltAll config.programs)
          (first_out_of config.programs)
          (to_programs Schedule config sections)
  unfolding to_programs
  to_programs-Decided config = programs-Decided config.programs
