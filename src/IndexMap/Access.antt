-- ===== src/IndexMap/Access.antt =====
-- Reading and writing an element in place.
use rinklers.Prelude.{
  ℕ, ◌<◌, ◌≡◌, refl, sym, ◌∙◌, inl, inr, none, some, done, panicked, length, get_elem?, set,
  get_elem?-set, lt-length, Option-cases, arith, if◌then◌else◌, ◌==◌,
}
use rinklers.IndexMap.{element, empty, IndexMap, index, index_mut}
use rinklers.IndexMap.Invariant.{view, link, IsValid, Chain-cong}

module _ {ℓ} {E : Type ℓ} where
  element-view :
      (m : IndexMap E) (i : ℕ) (e : E)
      → view m i ≡ some e
      → get_elem? m.entries i ≡ some (element e)
  element-view m i e h = elim (Option-cases (get_elem? m.entries i)) [
    | inl k ↦ ground arith
    | inr (element x, k) ↦ ground arith
    | inr (empty n, k) ↦ ground arith
  ]

  pub view-inside : (m : IndexMap E) (i : ℕ) (e : E) → view m i ≡ some e → i < length m.entries
  view-inside m i e h = lt-length m.entries i (element-view m i e h)

  -- Reading succeeds exactly at an element; at an empty entry and out of range it panics.
  pub index-view :
      (m : IndexMap E) (i : ℕ) → index m i ≡ elim (view m i) [ none ↦ panicked | some e ↦ done e ]
  unfolding index
  index-view m i = elim (Option-cases (get_elem? m.entries i)) [
    | inl k ↦ ground arith
    | inr (element x, k) ↦ ground arith
    | inr (empty n, k) ↦ ground arith
  ]

  -- What a write of `f e` over the element `e` at the index `i` gives.
  pub record Written (m : IndexMap E) (i : ℕ) (e : E) (m' : IndexMap E) : Type ℓ where
    pub valid : IsValid m'
    pub held : (j : ℕ) → view m' j ≡ (if i == j then some e else view m j)

  pub index_mut-Written :
      (m : IndexMap E) (i : ℕ) (f : E → E) (e : E)
      → IsValid m
      → view m i ≡ some e
      → (m' : IndexMap E) × (index_mut m i f ≡ done m') × Written m i (f e) m'
  unfolding index_mut
  index_mut-Written m i f e v h = (
    record m { entries = set m.entries i (element (f e)) },
    rw (index_at) refl,
    record {
      valid = record {
        free = v.free;
        chain = Chain-cong (link m.entries) _ m.next_empty v.free (λ j k. link_same j) v.chain;
        distinct = v.distinct;
        covers = λ j n k. v.covers j n (sym (link_same j) ∙ k);
      };
      held = λ j. ground (arith, get_elem?-set m.entries i j (element (f e)) inside);
    },
  )
    where
      at : get_elem? m.entries i ≡ some (element e)
      at = element-view m i e h

      index_at : index m i ≡ done e
      index_at = index-view m i ∙ ground (arith, h)

      inside : i < length m.entries
      inside = lt-length m.entries i at

      link_same : (j : ℕ) → link (set m.entries i (element (f e))) j ≡ link m.entries j
      link_same j = ground (arith, at, get_elem?-set m.entries i j (element (f e)) inside)
