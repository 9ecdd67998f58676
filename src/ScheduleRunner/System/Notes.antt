-- ===== src/ScheduleRunner/System/Notes.antt =====
-- What is asked for through the guards, and what it means that the runner serves it.
use rinklers.Prelude.{
  ℕ, zero, suc, ◌+◌, ◌<◌, ◌≡◌, refl, sym, ap, ◌∙◌, Option, none, some, List, [], ◌∷◌, ◌++◌, ◌==◌,
  if◌then◌else◌, length, length-set, length-append, set, get_elem?-set, get_elem?-push, arith,
}
use rinklers.Schedule.Chrono.{Calendar}
use rinklers.Schedule.{Schedule}
use rinklers.IndexMap.Invariant.{view, IsValid}
use rinklers.ScheduleRunner.{SchedRun, RunnerData}
use rinklers.ScheduleRunner.Operations.{Has}
use rinklers.ScheduleRunner.System.{
  slot, System, Event, scheduled, data_updated, schedule_updated, guard_stopped, dropped, woken,
}
use rinklers.ScheduleRunner.System.Linked.{settings, Linked, Linked-put, Linked-remove}

slot-push {ℓ} :
    {A : Type ℓ} (xs : List (Option A)) (v : Option A) (j : ℕ)
    → slot (xs ++ v ∷ []) j ≡ (if length xs == j then v else slot xs j)
slot-push xs v j = ground (arith, get_elem?-push xs j v)

slot-inside {ℓ} :
    {A : Type ℓ} (xs : List (Option A)) (i : ℕ) (x : A) → slot xs i ≡ some x → i < length xs
slot-inside [] i x h = cc h
slot-inside (y ∷ ys) zero x h = omega arith
slot-inside (y ∷ ys) (suc i) x h = omega (arith, slot-inside ys i x h)

slot-set {ℓ} :
    {A : Type ℓ} (xs : List (Option A)) (i : ℕ) (x : A) (v : Option A) (j : ℕ)
    → slot xs i ≡ some x
    → slot (set xs i v) j ≡ (if i == j then v else slot xs j)
slot-set xs i x v j h = ground (arith, get_elem?-set xs i j v (slot-inside xs i x h))

slot-length {ℓ} : {A : Type ℓ} (xs : List (Option A)) → slot xs (length xs) ≡ none
slot-length [] = refl
slot-length (x ∷ xs) = slot-length xs

module _ (c : Calendar) (D : Type 0) where
  -- The specification, without indices: what each guard stands for, or none once it has been stopped.
  abbrev pub change :
      List (Option (Schedule c × D))
      → ℕ
      → (Schedule c × D → Option (Schedule c × D))
      → List (Option (Schedule c × D))
  change t guard f = elim (slot t guard) [ none ↦ t | some p ↦ set t guard (f p) ]

  abbrev pub note : List (Option (Schedule c × D)) → Event c D → List (Option (Schedule c × D))
  note t (scheduled sched item now) = t ++ some (sched, item) ∷ []
  note t (data_updated guard item) = change t guard (λ p. some (p.0, item))
  note t (schedule_updated guard sched now) = change t guard (λ p. some (sched, p.1))
  note t (guard_stopped guard) = change t guard (λ p. none)
  note t dropped = t
  note t (woken now later) = t

  abbrev pub notes :
      List (Option (Schedule c × D)) → List (Event c D) → List (Option (Schedule c × D))
  notes t [] = t
  notes t (e ∷ es) = notes (note t e) es

  pub record Serves (s : System c D) (t : List (Option (Schedule c × D))) : Type 0 where
    pub valid : IsValid s.state.runs
    pub same_length : length s.guards ≡ length t
    pub links : Linked c D (view s.state.runs) (slot s.guards) (slot t)

  pub Serves-put :
      (s : System c D) (t : List (Option (Schedule c × D))) (g i : ℕ) (r0 r : SchedRun c D)
      (d : RunnerData c D)
      → Serves s t
      → slot s.guards g ≡ some i
      → slot t g ≡ some (settings c D r0)
      → Has c D s.state i (some r) d
      → Serves (record s { state = d }) (set t g (some (settings c D r)))
  Serves-put s t g i r0 r d v held told h = record {
    valid = h.valid;
    same_length = v.same_length ∙ sym (length-set t g (some (settings c D r)));
    links =
        Linked-put c D _ _ _ v.links _ _ _ g i r h.held (λ x. ground (arith, held))
          (λ x. slot-set t g (settings c D r0) (some (settings c D r)) x told)
          (λ x e. v.links.apart x g i e held) (λ x e. ground (arith, e, held));
  }

  pub Serves-remove :
      (s : System c D) (t : List (Option (Schedule c × D))) (g i : ℕ) (r0 : SchedRun c D)
      (d : RunnerData c D)
      → Serves s t
      → slot s.guards g ≡ some i
      → slot t g ≡ some (settings c D r0)
      → Has c D s.state i none d
      → Serves (record s { state = d; guards = set s.guards g none }) (set t g none)
  Serves-remove s t g i r0 d v held told h = record {
    valid = h.valid;
    same_length = length-set s.guards g none ∙ v.same_length ∙ sym (length-set t g none);
    links =
        Linked-remove c D _ _ _ v.links _ _ _ g i h.held (λ x. slot-set s.guards g i none x held)
          (λ x. slot-set t g (settings c D r0) none x told) held;
  }

  pub Serves-push :
      (s : System c D) (t : List (Option (Schedule c × D))) (i : ℕ) (r : SchedRun c D)
      (d : RunnerData c D)
      → Serves s t
      → view s.state.runs i ≡ none
      → Has c D s.state i (some r) d
      → Serves
          (record s { state = d; guards = s.guards ++ some i ∷ [] })
          (t ++ some (settings c D r) ∷ [])
  Serves-push s t i r d v fresh h = record {
    valid = h.valid;
    same_length =
        length-append s.guards (some i ∷ [])
        ∙ ap (λ n. n + 1) v.same_length
        ∙ sym (length-append t (some (settings c D r) ∷ []));
    links =
        Linked-put c D _ _ _ v.links _ _ _ (length s.guards) i r h.held
          (λ x. slot-push s.guards (some i) x)
          (λ x. rw v.same_length (slot-push t (some (settings c D r)) x))
          (λ x e. let (y, there, _) = v.links.linked x i e in absurd (cc (there, fresh)))
          (λ x e. absurd (cc (e, slot-length s.guards)));
  }
