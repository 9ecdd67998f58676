-- ===== src/Schedule/Sets.antt =====
-- src/schedule.rs: a schedule by the members of its sets, without the order in which they are iterated, and
-- without the times that a list has a member.
use mathlib.Core.Quot
use mathlib.Core.Quot.{Quot, Quot-set}
use mathlib.Core.HLevel.{hedberg, ×_prop}
use native.Mathlib.Bridge.{le_prop}
use native.Mathlib.Decide.{ℕ_discrete}
use rinklers.Prelude.{◌≤◌, ◌≡◌, refl, ap, ◌↔◌, inl, inr, Option, none, some, List, ◌∷◌}
use rinklers.Schedule.{Schedule, search_start, next_run_after}
use rinklers.Schedule.Chrono.{Calendar}
use rinklers.Schedule.Earliest.{In, Earliest, Considered, next_run_after-Earliest}
use rinklers.Schedule.Window.{next_run_after-set}

-- the members of two lists
abbrev pub SameMembers : {A : Type 0} → List A → List A → Type 0
SameMembers {A} xs ys = (a : A) → In a xs ↔ In a ys

SameMembers-refl : {A : Type 0} (xs : List A) → SameMembers xs xs
SameMembers-refl xs a = (λ h. h, λ h. h)

SameMembers-cons :
    {A : Type 0} (x : A) (xs ys : List A) → SameMembers xs ys → SameMembers (x ∷ xs) (x ∷ ys)
SameMembers-cons x xs ys h a = (
  λ i. elim i [ inl e ↦ inl e | inr i' ↦ inr ((h a).0 i') ],
  λ i. elim i [ inl e ↦ inl e | inr i' ↦ inr ((h a).1 i') ],
)

swapped : {A : Type 0} (x y a : A) (xs : List A) → In a (x ∷ y ∷ xs) → In a (y ∷ x ∷ xs)
swapped x y a xs (inl e) = inr (inl e)
swapped x y a xs (inr (inl e)) = inl e
swapped x y a xs (inr (inr h)) = inr (inr h)

SameMembers-swap : {A : Type 0} (x y : A) (xs : List A) → SameMembers (x ∷ y ∷ xs) (y ∷ x ∷ xs)
SameMembers-swap x y xs a = (swapped x y a xs, swapped y x a xs)

repeated : {A : Type 0} (x a : A) (xs : List A) → In a (x ∷ x ∷ xs) → In a (x ∷ xs)
repeated x a xs (inl e) = inl e
repeated x a xs (inr h) = h

SameMembers-repeat : {A : Type 0} (x : A) (xs : List A) → SameMembers (x ∷ x ∷ xs) (x ∷ xs)
SameMembers-repeat x xs a = (repeated x a xs, inr)

module _ (c : Calendar) where
  open c use {DateTime, NaiveTime, Weekday, stamp, stamp_injective}

  -- The bounds are the same, and the members of both sets are.
  abbrev pub SameSets : Schedule c → Schedule c → Type 0
  SameSets s s' =
      (s.from ≡ s'.from)
      × (s.to ≡ s'.to)
      × SameMembers s.weekdays s'.weekdays
      × SameMembers s.times s'.times

  -- a schedule whose sets are sets
  abbrev pub ScheduleOfSets : Type 0
  ScheduleOfSets = Quot SameSets

  some_discrete : (a b : DateTime) → Dec (stamp a ≡ stamp b) → Dec (some a ≡ some b)
  some_discrete a b (yes e) = yes (ap (λ x. some x) (stamp_injective a b e))
  some_discrete a b (no n) = no (λ e. n (cc e))

  next_run_discrete : (a b : Option DateTime) → Dec (a ≡ b)
  next_run_discrete none none = yes refl
  next_run_discrete none (some b) = no (λ e. cc e)
  next_run_discrete (some a) none = no (λ e. cc e)
  next_run_discrete (some a) (some b) = some_discrete a b (ℕ_discrete (stamp a) (stamp b))

  pub next_run : (reference : DateTime) → ScheduleOfSets → Option DateTime
  next_run reference =
      Quot.lift (hedberg next_run_discrete) (λ s. next_run_after c s reference)
        (λ s s' h. next_run_after-set c s s' reference h.0 h.1 h.2 h.3)

  -- insertion into the set of times, and into that of weekdays
  pub with_time : NaiveTime → ScheduleOfSets → ScheduleOfSets
  with_time t =
      Quot.lift Quot-set (λ (s : Schedule c). Quot.mk (record s { times = t ∷ s.times }))
        (λ s s' h. Quot.sound (h.0, h.1, h.2, SameMembers-cons t s.times s'.times h.3))

  pub with_weekday : Weekday → ScheduleOfSets → ScheduleOfSets
  with_weekday w =
      Quot.lift Quot-set (λ (s : Schedule c). Quot.mk (record s { weekdays = w ∷ s.weekdays }))
        (λ s s' h. Quot.sound (h.0, h.1, SameMembers-cons w s.weekdays s'.weekdays h.2, h.3))

  -- The first is there if the second is, and not later.
  abbrev pub NoLater : Option DateTime → Option DateTime → Type 0
  NoLater a none = Unit
  NoLater none (some b) = ⊥
  NoLater (some a) (some b) = stamp a ≤ stamp b

  NoLater-prop : (a b : Option DateTime) → IsProp (NoLater a b)
  NoLater-prop none none p q = refl
  NoLater-prop (some a) none p q = refl
  NoLater-prop none (some b) p q = elim p [ ]
  NoLater-prop (some a) (some b) p q = le_prop p q

  -- More that is considered leads to no later a date.
  Earliest-NoLater :
      (P Q : DateTime → Type 0) (a b : Option DateTime)
      → Earliest c P a
      → Earliest c Q b
      → ((y : DateTime) → Q y → P y)
      → NoLater a b
  Earliest-NoLater P Q none none h k f = tt
  Earliest-NoLater P Q (some a) none h k f = tt
  Earliest-NoLater P Q none (some b) h k f = h b (f b k.0)
  Earliest-NoLater P Q (some a) (some b) h k f = h.1 b (f b k.0)

  next_run-with_time :
      (reference : DateTime) (t : NaiveTime) (q : ScheduleOfSets)
      → NoLater (next_run reference (with_time t q)) (next_run reference q)
  unfolding next_run with_time search_start
  next_run-with_time reference t =
      Quot.ind (λ q. NoLater-prop _ _)
        (λ s.
          let s' : Schedule c = record s { times = t ∷ s.times } in
          Earliest-NoLater (Considered c s' reference) (Considered c s reference) _ _
            (next_run_after-Earliest c s' reference) (next_run_after-Earliest c s reference)
            (λ y (w, i, (u, j, e)). (w, i, (u, inr j, e))))

  next_run-with_weekday :
      (reference : DateTime) (w : Weekday) (q : ScheduleOfSets)
      → NoLater (next_run reference (with_weekday w q)) (next_run reference q)
  unfolding next_run with_weekday search_start
  next_run-with_weekday reference w =
      Quot.ind (λ q. NoLater-prop _ _)
        (λ s.
          let s' : Schedule c = record s { weekdays = w ∷ s.weekdays } in
          Earliest-NoLater (Considered c s' reference) (Considered c s reference) _ _
            (next_run_after-Earliest c s' reference) (next_run_after-Earliest c s reference)
            (λ y (v, i, m). (v, inr i, m)))

  with_time-laws :
      (t u : NaiveTime) (q : ScheduleOfSets)
      → (with_time t (with_time u q) ≡ with_time u (with_time t q))
        × (with_time t (with_time t q) ≡ with_time t q)
  unfolding with_time
  with_time-laws t u =
      Quot.ind (λ q. ×_prop (Quot-set _ _) (Quot-set _ _))
        (λ s. (
          Quot.sound (refl, refl, SameMembers-refl s.weekdays, SameMembers-swap t u s.times),
          Quot.sound (refl, refl, SameMembers-refl s.weekdays, SameMembers-repeat t s.times),
        ))

  with_weekday-laws :
      (v w : Weekday) (q : ScheduleOfSets)
      → (with_weekday v (with_weekday w q) ≡ with_weekday w (with_weekday v q))
        × (with_weekday v (with_weekday v q) ≡ with_weekday v q)
  unfolding with_weekday
  with_weekday-laws v w =
      Quot.ind (λ q. ×_prop (Quot-set _ _) (Quot-set _ _))
        (λ s. (
          Quot.sound (refl, refl, SameMembers-swap v w s.weekdays, SameMembers-refl s.times),
          Quot.sound (refl, refl, SameMembers-repeat v s.weekdays, SameMembers-refl s.times),
        ))

  -- `next_run_after` is a function of the bounds and of two sets: on schedules up to the order and the
  -- repetition of members, there is a function which is `next_run_after` on each schedule; insertions into
  -- either set commute and are idempotent; and an insertion never makes the next run later.
  pub next_run-sets :
      ((reference : DateTime) (s : Schedule c)
        → next_run reference (Quot.mk s) ≡ next_run_after c s reference)
      × ((t u : NaiveTime) (q : ScheduleOfSets)
          → (with_time t (with_time u q) ≡ with_time u (with_time t q))
            × (with_time t (with_time t q) ≡ with_time t q))
      × ((v w : Weekday) (q : ScheduleOfSets)
          → (with_weekday v (with_weekday w q) ≡ with_weekday w (with_weekday v q))
            × (with_weekday v (with_weekday v q) ≡ with_weekday v q))
      × ((reference : DateTime) (t : NaiveTime) (w : Weekday) (q : ScheduleOfSets)
          → NoLater (next_run reference (with_time t q)) (next_run reference q)
            × NoLater (next_run reference (with_weekday w q)) (next_run reference q))
  unfolding next_run
  next_run-sets = (
    λ reference s. refl,
    with_time-laws,
    with_weekday-laws,
    λ reference t w q. (next_run-with_time reference t q, next_run-with_weekday reference w q),
  )
