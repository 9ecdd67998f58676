-- ===== src/ScheduleRunner/System/Linked.antt =====
-- The items of the runner, the guards that hold them, and what has been asked for through the guards, as
-- three functions.
use rinklers.Prelude.{
  ℕ, ◌≡◌, refl, inl, inr, Option, none, some, false, ◌==◌, if◌then◌else◌, Bool-cases, arith,
}
use rinklers.Schedule.Chrono.{Calendar}
use rinklers.Schedule.{Schedule}
use rinklers.ScheduleRunner.{SchedRun}

module _ (c : Calendar) (D : Type 0) where
  abbrev pub settings : SchedRun c D → Schedule c × D
  settings r = (r.sched, r.item)

  -- Each guard has an item of its own, with the schedule and the data that are asked for, and there are no
  -- other items.
  pub record Linked (items : ℕ → Option (SchedRun c D)) (guards : ℕ → Option ℕ)
      (asked : ℕ → Option (Schedule c × D)) : Type 0 where
    pub linked :
        (g i : ℕ)
        → guards g ≡ some i
        → (r : SchedRun c D) × (items i ≡ some r) × (asked g ≡ some (settings r))
    pub unlinked : (g : ℕ) → guards g ≡ none → asked g ≡ none
    pub apart : (g h i : ℕ) → guards g ≡ some i → guards h ≡ some i → g ≡ h
    pub covered : (i : ℕ) (r : SchedRun c D) → items i ≡ some r → (g : ℕ) × (guards g ≡ some i)

  module _ (items : ℕ → Option (SchedRun c D)) (guards : ℕ → Option ℕ)
      (asked : ℕ → Option (Schedule c × D)) (l : Linked items guards asked)
      (items' : ℕ → Option (SchedRun c D)) (guards' : ℕ → Option ℕ)
      (asked' : ℕ → Option (Schedule c × D)) where
    -- The item at `i` is set, and the guard `g`, which holds no other item, holds it alone.
    pub Linked-put :
        (g i : ℕ) (r : SchedRun c D)
        → ((j : ℕ) → items' j ≡ (if i == j then some r else items j))
        → ((h : ℕ) → guards' h ≡ (if g == h then some i else guards h))
        → ((h : ℕ) → asked' h ≡ (if g == h then some (settings r) else asked h))
        → ((h : ℕ) → guards h ≡ some i → h ≡ g)
        → ((j : ℕ) → guards g ≡ some j → j ≡ i)
        → Linked items' guards' asked'
    Linked-put g i r at_i at_g asked_g own only = record {
      linked = links;
      unlinked = λ h e. ground (arith, at_g h, asked_g h, e, l.unlinked h);
      apart = λ h h' j e e'. ground (arith, at_g h, at_g h', e, e', own h, own h', l.apart h h' j);
      covered = covers;
    }
      where
        links :
            (h j : ℕ)
            → guards' h ≡ some j
            → (x : SchedRun c D) × (items' j ≡ some x) × (asked' h ≡ some (settings x))
        links h j e = elim (Bool-cases (g == h)) [
          | inl same ↦ (r, ground (arith, at_g h, e, same, at_i j), ground (arith, asked_g h, same))
          | inr other ↦
              let before : guards h ≡ some j = ground (arith, at_g h, e, other) in
              let (x, in_map, told) = l.linked h j before in
              (
                x,
                ground (arith, at_i j, in_map, own h, before, other),
                ground (arith, asked_g h, told, other),
              )
        ]

        covers : (j : ℕ) (x : SchedRun c D) → items' j ≡ some x → (h : ℕ) × (guards' h ≡ some j)
        covers j x e = elim (Bool-cases (i == j)) [
          | inl same ↦ (g, ground (arith, at_g g, same))
          | inr other ↦
              let (h, held) = l.covered j x (ground (arith, at_i j, e, other)) in
              (h, ground (arith, at_g h, held, only j, other))
        ]

    -- The item at `i` is removed, and its guard with it.
    pub Linked-remove :
        (g i : ℕ)
        → ((j : ℕ) → items' j ≡ (if i == j then none else items j))
        → ((h : ℕ) → guards' h ≡ (if g == h then none else guards h))
        → ((h : ℕ) → asked' h ≡ (if g == h then none else asked h))
        → guards g ≡ some i
        → Linked items' guards' asked'
    Linked-remove g i at_i at_g asked_g held = record {
      linked = links;
      unlinked = λ h e. ground (arith, at_g h, asked_g h, e, l.unlinked h);
      apart = λ h h' j e e'. ground (arith, at_g h, at_g h', e, e', l.apart h h' j);
      covered = covers;
    }
      where
        links :
            (h j : ℕ)
            → guards' h ≡ some j
            → (x : SchedRun c D) × (items' j ≡ some x) × (asked' h ≡ some (settings x))
        links h j e =
            let other : (g == h) ≡ false = ground (arith, at_g h, e) in
            let before : guards h ≡ some j = ground (arith, at_g h, e, other) in
            let (x, in_map, told) = l.linked h j before in
            (
              x,
              ground (arith, at_i j, in_map, l.apart g h i held, before, other),
              ground (arith, asked_g h, told, other),
            )

        covers : (j : ℕ) (x : SchedRun c D) → items' j ≡ some x → (h : ℕ) × (guards' h ≡ some j)
        covers j x e =
            let other : (i == j) ≡ false = ground (arith, at_i j, e) in
            let (h, in_map) = l.covered j x (ground (arith, at_i j, e, other)) in
            (h, ground (arith, at_g h, in_map, held, other))

    -- The items change, but not their schedules and data.
    pub Linked-visited :
        (visited : ℕ → SchedRun c D → SchedRun c D)
        → ((j : ℕ) (r : SchedRun c D) → settings (visited j r) ≡ settings r)
        → ((j : ℕ) → items' j ≡ elim (items j) [ none ↦ none | some r ↦ some (visited j r) ])
        → Linked items' guards asked
    Linked-visited visited same at = record {
      linked = λ g i e.
          let (r, in_map, told) = l.linked g i e in
          (visited i r, rw (at i, in_map) refl, rw (same i r) told);
      unlinked = l.unlinked;
      apart = l.apart;
      covered = λ i r e. covers i (items i) refl (rw (at i) at e);
    }
      where
        covers :
            (i : ℕ) (o : Option (SchedRun c D))
            → items i ≡ o
            → {x : SchedRun c D}
            → elim (items i) [ none ↦ none | some r ↦ some (visited i r) ] ≡ some x
            → (g : ℕ) × (guards g ≡ some i)
        covers i none h e = cc (h, e)
        covers i (some r) h e = l.covered i r h
