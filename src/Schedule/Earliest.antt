-- ===== src/Schedule/Earliest.antt =====
-- The two loops of `next_run_after` find the earliest of the dates that they make.
use rinklers.Prelude.{
  ◌≤◌, ◌≡◌, refl, ◌⊎◌, inl, inr, Option, none, some, List, [], ◌∷◌, leb, leb→le, leb-false,
  Bool-cases, arith,
}
use rinklers.Schedule.{
  Schedule, resolve_from, candidate_at, earlier, over_times, over_weekdays, search_start,
  next_run_after,
}
use rinklers.Schedule.Chrono.{Calendar}

-- membership, with the place kept
abbrev pub In : {A : Type 0} → A → List A → Type 0
In a [] = ⊥
In a (x ∷ xs) = (x ≡ a) ⊎ In a xs

module _ (c : Calendar) where
  open c use {
    DateTime, NaiveTime, Weekday, stamp, date, day, weekday, add_week, and_time, week,
    stamp_injective, stamp-day, stamp_same_day, stamp-add_week, date-and_time,
  }

  -- `r` is the first of the date-times that satisfy `P`; it is `none` if there are none.
  abbrev pub Earliest : (DateTime → Type 0) → Option DateTime → Type 0
  Earliest P none = (y : DateTime) → P y → ⊥
  Earliest P (some r) = P r × ((y : DateTime) → P y → stamp r ≤ stamp y)

  -- It is determined by the predicate.
  pub Earliest-unique :
      (P Q : DateTime → Type 0) (a b : Option DateTime)
      → ((y : DateTime) → P y → Q y)
      → ((y : DateTime) → Q y → P y)
      → Earliest P a
      → Earliest Q b
      → a ≡ b
  Earliest-unique P Q none none to back h k = refl
  Earliest-unique P Q none (some y) to back h k = absurd (h y (back y k.0))
  Earliest-unique P Q (some x) none to back h k = absurd (k x (to x h.0))
  Earliest-unique P Q (some x) (some y) to back h k =
      let e : x ≡ y = stamp_injective x y (omega (arith, h.1 y (back y k.0), k.1 x (to x h.0))) in
      rw e

  Earliest-iff :
      (P Q : DateTime → Type 0) (a : Option DateTime)
      → ((y : DateTime) → P y → Q y)
      → ((y : DateTime) → Q y → P y)
      → Earliest P a
      → Earliest Q a
  Earliest-iff P Q none to back h = λ y q. h y (back y q)
  Earliest-iff P Q (some r) to back h = (to r h.0, λ y q. h.1 y (back y q))

  le_of_some : (d y : DateTime) → some d ≡ some y → stamp d ≤ stamp y
  le_of_some d y e = ground arith

  -- One more date: the earlier of the two is the first of both kinds.
  earlier-Earliest :
      (P : DateTime → Type 0) (a b : Option DateTime)
      → Earliest P a
      → Earliest (λ y. P y ⊎ (b ≡ some y)) (earlier c a b)
  unfolding earlier
  earlier-Earliest P none none h = λ y. elim [ inl p ↦ h y p | inr e ↦ cc ]
  earlier-Earliest P none (some d) h =
      (inr refl, λ y. elim [ inl p ↦ absurd (h y p) | inr e ↦ le_of_some d y e ])
  earlier-Earliest P (some d) none h = (inl h.0, λ y. elim [ inl p ↦ h.1 y p | inr e ↦ cc ])
  earlier-Earliest P (some d1) (some d2) h = elim (Bool-cases (leb (stamp d1) (stamp d2))) [
    | inl first ↦ rw first (
      inl h.0,
      λ y. elim [ inl p ↦ h.1 y p | inr e ↦ omega (arith, leb→le _ _ first, le_of_some d2 y e) ],
    )
    | inr second ↦ rw second (
      inr refl,
      λ y. elim [
        | inl p ↦ omega (arith, leb-false _ _ second, h.1 y p)
        | inr e ↦ le_of_some d2 y e
      ],
    )
  ]

  -- the dates that the loops make
  abbrev pub MadeAt : DateTime → Option DateTime → Weekday → List NaiveTime → DateTime → Type 0
  MadeAt reference to w ts y =
      (t : NaiveTime) × In t ts × (candidate_at c reference to w t ≡ some y)

  abbrev pub Made : DateTime → Option DateTime → List Weekday → List NaiveTime → DateTime → Type 0
  Made reference to ws ts y = (w : Weekday) × In w ws × MadeAt reference to w ts y

  over_times-Earliest :
      (reference : DateTime) (to : Option DateTime) (w : Weekday) (ts : List NaiveTime)
      (P : DateTime → Type 0) (a : Option DateTime)
      → Earliest P a
      → Earliest (λ y. P y ⊎ MadeAt reference to w ts y) (over_times c reference to w ts a)
  unfolding over_times
  over_times-Earliest reference to w [] P a h =
      Earliest-iff P _ a (λ y. inl) (λ y. elim [ inl p ↦ p | inr m ↦ absurd m.1 ]) h
  over_times-Earliest reference to w (t ∷ ts) P a h =
      Earliest-iff _ _ (over_times c reference to w (t ∷ ts) a)
        (λ y. elim [
          | inl (inl p) ↦ inl p
          | inl (inr e) ↦ inr (t, inl refl, e)
          | inr (u, i, e) ↦ inr (u, inr i, e)
        ])
        (λ y. elim [
          | inl p ↦ inl (inl p)
          | inr (u, inl q, e) ↦ inl (inr (rw q e))
          | inr (u, inr i, e) ↦ inr (u, i, e)
        ])
        (over_times-Earliest reference to w ts
          (λ y. P y ⊎ (candidate_at c reference to w t ≡ some y))
          (earlier c a (candidate_at c reference to w t))
          (earlier-Earliest P a (candidate_at c reference to w t) h))

  over_weekdays-Earliest :
      (reference : DateTime) (to : Option DateTime) (ws : List Weekday) (ts : List NaiveTime)
      (P : DateTime → Type 0) (a : Option DateTime)
      → Earliest P a
      → Earliest (λ y. P y ⊎ Made reference to ws ts y) (over_weekdays c reference to ws ts a)
  unfolding over_weekdays
  over_weekdays-Earliest reference to [] ts P a h =
      Earliest-iff P _ a (λ y. inl) (λ y. elim [ inl p ↦ p | inr m ↦ absurd m.1 ]) h
  over_weekdays-Earliest reference to (w ∷ ws) ts P a h =
      Earliest-iff _ _ (over_weekdays c reference to (w ∷ ws) ts a)
        (λ y. elim [
          | inl (inl p) ↦ inl p
          | inl (inr m) ↦ inr (w, inl refl, m)
          | inr (v, i, m) ↦ inr (v, inr i, m)
        ])
        (λ y. elim [
          | inl p ↦ inl (inl p)
          | inr (v, inl q, m) ↦ inl (inr (rw q m))
          | inr (v, inr i, m) ↦ inr (v, i, m)
        ])
        (over_weekdays-Earliest reference to ws ts (λ y. P y ⊎ MadeAt reference to w ts y)
          (over_times c reference to w ts a) (over_times-Earliest reference to w ts P a h))

  -- the dates that `next_run_after` considers
  abbrev pub Considered : Schedule c → DateTime → DateTime → Type 0
  Considered s reference =
      Made (search_start c s reference) (resolve_from c s.to reference) s.weekdays s.times

  -- `next_run_after` returns the earliest of the dates considered, and `none` only if there are none.
  pub next_run_after-Earliest :
      (s : Schedule c) (reference : DateTime)
      → Earliest (Considered s reference) (next_run_after c s reference)
  unfolding next_run_after
  next_run_after-Earliest s reference =
      Earliest-iff _ _ (next_run_after c s reference) (λ y. elim [ inl f ↦ absurd f | inr m ↦ m ])
        (λ y. inr) (over_weekdays-Earliest _ _ s.weekdays s.times (λ y. ⊥) none (λ y f. f))
