-- ===== src/IndexMap/Iterators.antt =====
-- src/schedule_runner.rs, `mod index_map`: `Indeces`, `Values`, `IterMut` and `ValuesMut`. A reference that
-- `IterMut` yields is written to before the next call, so a loop takes its body as a function of the
-- element that returns the new one.
use rinklers.Prelude.{ℕ, zero, suc, ◌-◌, Option, none, some, List, [], ◌∷◌, length, set}
use rinklers.IndexMap.{element, IndexMap, Iter, iter, next, next_loop}

-- `size_hint` of all the iterators
abbrev pub size_hint {ℓ} : {E : Type ℓ} → Iter E → ℕ × Option ℕ
size_hint it = (0, some (length it.index_map.entries))

pub record Indeces {ℓ} (E : Type ℓ) : Type ℓ where
  pub inner : Iter E

pub record Values {ℓ} (E : Type ℓ) : Type ℓ where
  pub inner : Iter E

pub record IterMut {ℓ} (E : Type ℓ) : Type ℓ where
  pub index_map : IndexMap E
  pub index : ℕ

pub record ValuesMut {ℓ} (E : Type ℓ) : Type ℓ where
  pub inner : IterMut E

module _ {ℓ} {E : Type ℓ} where
  abbrev pub indeces : IndexMap E → Indeces E
  indeces m = record { inner = iter m }

  abbrev pub index_of : Option (ℕ × E) → Option ℕ
  index_of none = none
  index_of (some (i, e)) = some i

  -- `Indeces::next`
  unfoldable pub next_index : Indeces E → Option ℕ × Indeces E
  unfolding next
  next_index it = let (item, inner) = next it.inner in (index_of item, record { inner = inner })

  abbrev pub values : IndexMap E → Values E
  values m = record { inner = iter m }

  abbrev pub value_of : Option (ℕ × E) → Option E
  value_of none = none
  value_of (some (i, e)) = some e

  -- `Values::next`
  unfoldable pub next_value : Values E → Option E × Values E
  unfolding next
  next_value it = let (item, inner) = next it.inner in (value_of item, record { inner = inner })

  -- `collect` over each, with a bound on the calls
  unfoldable pub collect_indeces : ℕ → Indeces E → List ℕ
  collect_indeces zero it = []
  collect_indeces (suc calls) it =
      let (item, it') = next_index it in
      elim item [ none ↦ [] | some i ↦ i ∷ collect_indeces calls it' ]

  unfoldable pub collect_values : ℕ → Values E → List E
  collect_values zero it = []
  collect_values (suc calls) it =
      let (item, it') = next_value it in
      elim item [ none ↦ [] | some e ↦ e ∷ collect_values calls it' ]

  abbrev pub iter_mut : IndexMap E → IterMut E
  iter_mut m = record { index_map = m; index = 0 }

  -- `IterMut::next`: the index and the element that the reference points to
  unfoldable pub next_mut : IterMut E → Option (ℕ × E) × IterMut E
  unfolding next_loop
  next_mut it =
      let (item, i) =
        next_loop (length it.index_map.entries - it.index) it.index_map.entries it.index in
      (item, record it { index = i })

  -- `IntoIterator`, for a shared and for a mutable reference
  abbrev pub into_iter : IndexMap E → Iter E
  into_iter m = iter m

  abbrev pub into_iter_mut : IndexMap E → IterMut E
  into_iter_mut m = iter_mut m

  abbrev pub values_mut : IndexMap E → ValuesMut E
  values_mut m = record { inner = iter_mut m }

  -- `ValuesMut::next`
  unfoldable pub next_value_mut : ValuesMut E → Option E × ValuesMut E
  unfolding next_mut
  next_value_mut it =
      let (item, inner) = next_mut it.inner in (value_of item, record { inner = inner })

  -- an assignment through the reference to the element at `i`
  unfoldable pub write : IterMut E → ℕ → E → IterMut E
  write it i e = record it {
    index_map = record (it.index_map) { entries = set it.index_map.entries i (element e) };
  }

  module _ {κ} {S : Type κ} (body : ℕ → E → S → E × S) where
    -- a `for` loop over an `IterMut`, with a bound on the calls of `next`; `S` is what the body changes
    -- beside the element
    unfoldable pub for_mut : ℕ → IterMut E → S → IndexMap E × S
    for_mut zero it s = (it.index_map, s)
    for_mut (suc calls) it s =
        let (item, it') = next_mut it in
        elim item [
          | none ↦ (it'.index_map, s)
          | some (i, e) ↦ let (e', s') = body i e s in for_mut calls (write it' i e') s'
        ]

-- a `for` loop over `values_mut`
abbrev pub for_values {ℓ κ} :
    {E : Type ℓ} {S : Type κ} → (E → S → E × S) → ℕ → IndexMap E → S → IndexMap E × S
for_values body calls m s = for_mut (λ i e s'. body e s') calls (iter_mut m) s
