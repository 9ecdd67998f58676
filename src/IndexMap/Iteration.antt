-- ===== src/IndexMap/Iteration.antt =====
-- `Iter` and `FromIterator`.
use rinklers.Prelude.{
  ℕ, zero, suc, ◌+◌, ◌-◌, ◌<◌, ◌≤◌, ◌≡◌, refl, sym, ap, ◌∙◌, inl, inr, Option, none, some, List, [],
  ◌∷◌, ◌++◌, length, get_elem?, Option-cases, arith, if◌then◌else◌, append_assoc, append-nil,
  length-le, done, map, ◌==◌,
}
use rinklers.IndexMap.{
  Entry, element, empty, IndexMap, insert_all, from_iter, next_loop, next, iter, collect,
}
use rinklers.IndexMap.Invariant.{element?, view, link, IsValid}

module _ {ℓ} {E : Type ℓ} where
  -- The specification: the elements with their indices, counted from `i`, in order.
  abbrev pub present : ℕ → List (Entry E) → List (ℕ × E)
  present i [] = []
  present i (element e ∷ es) = (i, e) ∷ present (i + 1) es
  present i (empty _ ∷ es) = present (i + 1) es

  abbrev pub drop : ℕ → List (Entry E) → List (Entry E)
  drop zero es = es
  drop (suc n) [] = []
  drop (suc n) (e ∷ es) = drop n es

  drop-step :
      (i : ℕ) (es : List (Entry E)) (x : Entry E)
      → get_elem? es i ≡ some x
      → drop i es ≡ x ∷ drop (i + 1) es
  drop-step i [] x h = ground arith
  drop-step zero (e ∷ es) x h = ground arith
  drop-step (suc i) (e ∷ es) x h = ground (arith, drop-step i es x h)

  drop_past : (i : ℕ) (es : List (Entry E)) → length es ≤ i → drop i es ≡ []
  drop_past zero [] h = refl
  drop_past zero (e ∷ es) h = absurd (omega arith)
  drop_past (suc i) [] h = refl
  drop_past (suc i) (e ∷ es) h = drop_past i es (omega arith)

  -- what one call of `next` yields, and what is left, in terms of the specification
  abbrev Yields : List (Entry E) → ℕ → Option (ℕ × E) × ℕ → Type ℓ
  Yields es i (none, k) = present i (drop i es) ≡ []
  Yields es i (some item, k) = (present i (drop i es) ≡ item ∷ present k (drop k es)) × (i < k)

  Yields-skip :
      (es : List (Entry E)) (i : ℕ) (r : Option (ℕ × E) × ℕ)
      → present i (drop i es) ≡ present (i + 1) (drop (i + 1) es)
      → Yields es (i + 1) r
      → Yields es i r
  Yields-skip es i (none, k) same y = same ∙ y
  Yields-skip es i (some item, k) same (y, lt) = (same ∙ y, omega arith)

  next_loop-Yields :
      (rounds : ℕ) (es : List (Entry E)) (i : ℕ)
      → length es ≤ i + rounds
      → Yields es i (next_loop rounds es i)
  unfolding next_loop
  next_loop-Yields zero es i h = rw (drop_past i es (omega arith))
  next_loop-Yields (suc rounds) es i h = elim (Option-cases (get_elem? es i)) [
    | inl past ↦ rw (past, next_loop) (rw (drop_past i es (length-le es i past)))
    | inr (element e, at) ↦
        rw (at, next_loop) (ap (present i) (drop-step i es (element e) at), omega arith)
    | inr (empty n, at) ↦
        rw (at, next_loop)
          (Yields-skip es i _ (ap (present i) (drop-step i es (empty n) at))
            (next_loop-Yields rounds es (i + 1) (omega arith)))
  ]

  from_yield :
      (calls : ℕ) (m : IndexMap E) (i : ℕ) (r : Option (ℕ × E) × ℕ)
      → ((k : ℕ)
          → i < k
          → collect calls (record { index_map = m; index = k }) ≡ present k (drop k m.entries))
      → next_loop (length m.entries - i) m.entries i ≡ r
      → Yields m.entries i r
      → collect (suc calls) (record { index_map = m; index = i }) ≡ present i (drop i m.entries)
  unfolding collect
  from_yield calls m i (none, k) rest e y = rw (e, collect) (sym y)
  from_yield calls m i (some item, k) rest e (y, lt) =
      rw (e, collect, next, e) (ap (◌∷◌ item) (rest k lt) ∙ sym y)

  -- `calls` calls of `next` yield all that is left, if so many entries are left at most.
  collect-present :
      (calls : ℕ) (m : IndexMap E) (i : ℕ)
      → length m.entries ≤ i + calls
      → collect calls (record { index_map = m; index = i }) ≡ present i (drop i m.entries)
  unfolding collect
  collect-present zero m i h = rw (drop_past i m.entries (omega arith))
  collect-present (suc calls) m i h =
      from_yield calls m i _ (λ k lt. collect-present calls m k (omega arith)) refl
        (next_loop-Yields (length m.entries - i) m.entries i (omega arith))

  pub collect_all :
      (m : IndexMap E) (calls : ℕ)
      → length m.entries ≤ calls
      → collect calls (iter m) ≡ present 0 m.entries
  collect_all m calls h = collect-present calls m 0 (omega arith)

  -- the element that a list of pairs gives for an index
  abbrev pub assoc : ℕ → List (ℕ × E) → Option E
  assoc j [] = none
  assoc j ((i, e) ∷ xs) = if i == j then some e else assoc j xs

  -- The indices rise strictly, from `low` on.
  abbrev pub Ascending : ℕ → List (ℕ × E) → Type 0
  Ascending low [] = Unit
  Ascending low ((i, e) ∷ xs) = (low ≤ i) × Ascending (i + 1) xs

  Ascending-mono : (a b : ℕ) (xs : List (ℕ × E)) → a ≤ b → Ascending b xs → Ascending a xs
  Ascending-mono a b [] h s = tt
  Ascending-mono a b ((i, e) ∷ xs) h s = (omega arith, s.1)

  present-Ascending : (i : ℕ) (es : List (Entry E)) → Ascending i (present i es)
  present-Ascending i [] = tt
  present-Ascending i (element e ∷ es) = (omega arith, present-Ascending (i + 1) es)
  present-Ascending i (empty n ∷ es) =
      Ascending-mono i (i + 1) _ (omega arith) (present-Ascending (i + 1) es)

  assoc-above : (i j : ℕ) (xs : List (ℕ × E)) → j < i → Ascending i xs → assoc j xs ≡ none
  assoc-above i j [] h s = refl
  assoc-above i j ((k, e) ∷ xs) h s = ground (arith, assoc-above (k + 1) j xs, s.1)

  assoc-present :
      (i k : ℕ) (es : List (Entry E)) → assoc (i + k) (present i es) ≡ element? (get_elem? es k)
  assoc-present i k [] = refl
  assoc-present i zero (element e ∷ es) = ground arith
  assoc-present i (suc k) (element e ∷ es) = ground (arith, assoc-present (i + 1) k es)
  assoc-present i zero (empty n ∷ es) =
      assoc-above (i + 1) (i + 0) _ (omega arith) (present-Ascending (i + 1) es)
  assoc-present i (suc k) (empty n ∷ es) =
      let shifted : i + suc k ≡ i + 1 + k = omega arith in rw shifted (assoc-present (i + 1) k es)

  -- A loop over the map ends after at most as many items as there are entries. It yields each element
  -- of the map once, with its index, the indices in strictly rising order, and nothing else.
  pub collect-iter :
      (m : IndexMap E) (calls : ℕ)
      → length m.entries ≤ calls
      → let items = collect calls (iter m) in
        Ascending 0 items × ((j : ℕ) → assoc j items ≡ view m j)
  collect-iter m calls enough =
      let all = collect-present calls m 0 (omega arith) in
      (rw all (present-Ascending 0 m.entries), λ j. rw all (assoc_at j))
    where
      assoc_at : (j : ℕ) → assoc j (present 0 m.entries) ≡ view m j
      assoc_at j = let start : 0 + j ≡ j = omega arith in rw start at (assoc-present 0 j m.entries)

  insert_all-push :
      (es : List (Entry E)) (xs : List E)
      → insert_all (record { entries = es; next_empty = none }) xs
        ≡ done (record { entries = es ++ map element xs; next_empty = none })
  unfolding insert_all
  insert_all-push es [] =
      ap (λ l. done (record { entries = l; next_empty = none })) (sym (append-nil es))
  insert_all-push es (x ∷ xs) =
      insert_all-push (es ++ element x ∷ []) xs
      ∙ ap (λ l. done (record { entries = l; next_empty = none }))
          (append_assoc es (element x ∷ []) (map element xs))

  view-map : (xs : List E) (i : ℕ) → element? (get_elem? (map element xs) i) ≡ get_elem? xs i
  view-map [] i = refl
  view-map (x ∷ xs) zero = refl
  view-map (x ∷ xs) (suc i) = view-map xs i

  no_link : (xs : List E) (i : ℕ) → link (map element xs) i ≡ none
  no_link [] i = refl
  no_link (x ∷ xs) zero = refl
  no_link (x ∷ xs) (suc i) = no_link xs i

  -- `from_iter` never panics, and its map is valid and holds the items at the indices 0, 1, 2, ….
  pub from_iter_lem :
      (xs : List E)
      → (m : IndexMap E) × (from_iter xs ≡ done m)
        × IsValid m
        × ((i : ℕ) → view m i ≡ get_elem? xs i)
  unfolding from_iter
  from_iter_lem xs = (
    record { entries = map element xs; next_empty = none },
    insert_all-push [] xs,
    record {
      free = [];
      chain = refl;
      distinct = tt;
      covers = λ i n h. ground (arith, no_link xs i);
    },
    view-map xs,
  )
