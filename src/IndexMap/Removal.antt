-- ===== src/IndexMap/Removal.antt =====
-- `remove`: the entry joins the free list, and the next insertion takes it again.
use rinklers.Prelude.{
  ℕ, zero, suc, ◌<◌, ◌≤◌, ◌≡◌, refl, ap, inl, inr, Option, none, some, List, [], ◌∷◌, false, done,
  panicked, length, get_elem?, set, contains, get_elem?-set, get_elem?_past, get_elem?_inside,
  lt-length, length-set, set-set, Option-cases, Bool-cases, arith, if◌then◌else◌, ◌==◌,
}
use rinklers.IndexMap.{Entry, element, empty, IndexMap, insert, remove}
use rinklers.IndexMap.Invariant.{view, link, IsValid, Chain-cong, Chain-link}

module _ {ℓ} {E : Type ℓ} where
  -- What a removal at `i` gives: the element that was there, and a map without it.
  pub record Removed (m : IndexMap E) (i : ℕ) (m' : IndexMap E) : Type ℓ where
    pub valid : IsValid m'
    pub gone : (j : ℕ) → view m' j ≡ (if i == j then none else view m j)
    pub size : length m'.entries ≡ length m.entries

  link-set_empty :
      (es : List (Entry E)) (i : ℕ) (n : Option ℕ) (j : ℕ)
      → i < length es
      → link (set es i (empty n)) j ≡ (if i == j then some n else link es j)
  link-set_empty es i n j h = ground (arith, get_elem?-set es i j (empty n) h)

  -- An index on the free list holds no element.
  free-vacant :
      (m : IndexMap E) (v : IsValid m) (i : ℕ) {e : E}
      → get_elem? m.entries i ≡ some (element e)
      → contains i v.free ≡ false
  free-vacant m v i h = elim (Bool-cases (contains i v.free)) [
    | inl on ↦
        let (n, l) = Chain-link (link m.entries) m.next_empty v.free i v.chain on in ground arith
    | inr off ↦ off
  ]

  pub remove-occupied :
      (m : IndexMap E) (i : ℕ) (e : E)
      → IsValid m
      → get_elem? m.entries i ≡ some (element e)
      → Removed m i (record { entries = set m.entries i (empty m.next_empty); next_empty = some i })
  remove-occupied m i e v h =
      let inside = lt-length m.entries i h in
      let off = free-vacant m v i h in
      let at = λ (j : ℕ). link-set_empty m.entries i m.next_empty j inside in
      record {
        valid = record {
          free = i ∷ v.free;
          chain = (
            refl,
            m.next_empty,
            ground (arith, at i),
            Chain-cong (link m.entries) _ m.next_empty v.free (λ j k. ground (arith, at j, k))
                v.chain,
          );
          distinct = (off, v.distinct);
          covers = λ j n k. ground (arith, at j, v.covers j n);
        };
        gone = λ j. ground (arith, get_elem?-set m.entries i j (empty m.next_empty) inside);
        size = length-set m.entries i (empty m.next_empty);
      }

  set_same : (es : List (Entry E)) (i : ℕ) (x : Entry E) → get_elem? es i ≡ some x → set es i x ≡ es
  set_same [] i x h = refl
  set_same (y ∷ es) zero x h = ground arith
  set_same (y ∷ es) (suc i) x h = ap (◌∷◌ y) (set_same es i x h)

  -- In range, `remove` returns what the index held and removes it; an empty index changes nothing.
  pub remove-Removed :
      (m : IndexMap E) (i : ℕ)
      → IsValid m
      → i < length m.entries
      → (m' : IndexMap E) × (remove m i ≡ done (view m i, m'))
        × Removed m i m'
        × (view m i ≡ none → m' ≡ m)
  unfolding remove
  remove-Removed m i v h =
      at_entry (get_elem?_inside m.entries i h).0 (get_elem?_inside m.entries i h).1
    where
      at_entry :
          (x : Entry E)
          → get_elem? m.entries i ≡ some x
          → (m' : IndexMap E) × (remove m i ≡ done (view m i, m'))
            × Removed m i m'
            × (view m i ≡ none → m' ≡ m)
      at_entry (element e) k =
          (_, ground arith, remove-occupied m i e v k, λ none_there. ground arith)
      at_entry (empty n) k = (
        m,
        ground (arith, set_same m.entries i (empty n) k),
        record { valid = v; gone = λ j. ground arith; size = refl },
        λ _. refl,
      )

  -- Out of range it panics, as indexing a vector does.
  pub remove_out_of_range : (m : IndexMap E) (i : ℕ) → length m.entries ≤ i → remove m i ≡ panicked
  unfolding remove
  remove_out_of_range m i h = ground (arith, get_elem?_past m.entries i h)

  -- A removed element's index is the next one to be given out, and the vector does not grow.
  pub insert-remove :
      (m m' : IndexMap E) (i : ℕ) (e e' : E)
      → view m i ≡ some e
      → remove m i ≡ done (some e, m')
      → insert m' e' ≡ done (i, record m { entries = set m.entries i (element e') })
  unfolding remove insert
  insert-remove m m' i e e' held h = elim (Option-cases (get_elem? m.entries i)) [
    | inl k ↦ ground arith
    | inr (empty n, k) ↦ ground arith
    | inr (element x, k) ↦ ground (
      arith,
      set-set m.entries i (empty m.next_empty) (element e'),
      get_elem?-set m.entries i i (empty m.next_empty) (lt-length m.entries i k),
    )
  ]
