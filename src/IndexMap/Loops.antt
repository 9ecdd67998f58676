-- ===== src/IndexMap/Loops.antt =====
-- Loops over the iterators of a map, against plain recursions over its entries.
use rinklers.Prelude.{
  ℕ, zero, suc, ◌+◌, ◌-◌, ◌≤◌, ◌≡◌, refl, sym, ap, ◌∙◌, Option, none, some, List, [], ◌∷◌, ◌++◌,
  map, length, arith, append_assoc, append-nil, length-append, set-append_length,
  get_elem?-append_length,
}
use rinklers.IndexMap.{Entry, element, empty, IndexMap, Iter, next, next_loop, collect}
use rinklers.IndexMap.Iterators.{
  IterMut, next_index, next_value, collect_indeces, collect_values, iter_mut, next_mut, write,
  for_mut,
}

module _ {ℓ κ} {E : Type ℓ} {S : Type κ} (body : ℕ → E → S → E × S) where
  -- The specification: each element is replaced in turn, from the index `i` on, and the empty entries
  -- stay.
  abbrev pub visit_entries : ℕ → List (Entry E) → S → List (Entry E) × S
  visit_entries i [] s = ([], s)
  visit_entries i (empty n ∷ es) s =
      let (es', s') = visit_entries (i + 1) es s in (empty n ∷ es', s')
  visit_entries i (element e ∷ es) s =
      let (e', s1) = body i e s in
      let (es', s') = visit_entries (i + 1) es s1 in (element e' ∷ es', s')

  abbrev at : List (Entry E) → Option ℕ → ℕ → IterMut E
  at es next_empty i = record {
    index_map = record { entries = es; next_empty = next_empty };
    index = i;
  }

  longer : (pre : List (Entry E)) (x : Entry E) → length (pre ++ x ∷ []) ≡ length pre + 1
  longer pre x = length-append pre (x ∷ [])

  next_mut_past :
      (pre : List (Entry E)) (o : Option ℕ)
      → next_mut (at (pre ++ []) o (length pre)) ≡ (none, at (pre ++ []) o (length pre))
  unfolding next_mut
  next_mut_past pre o =
      let over : length pre - length pre ≡ 0 = omega arith in rw (append-nil pre, over) refl

  rounds_left :
      (pre : List (Entry E)) (x : Entry E) (es : List (Entry E))
      → length (pre ++ x ∷ es) - length pre ≡ suc (length es)
  rounds_left pre x es = omega (arith, length-append pre (x ∷ es))

  next_mut_element :
      (pre : List (Entry E)) (e : E) (es : List (Entry E)) (o : Option ℕ)
      → next_mut (at (pre ++ element e ∷ es) o (length pre))
        ≡ (some (length pre, e), at (pre ++ element e ∷ es) o (length pre + 1))
  unfolding next_mut
  next_mut_element pre e es o =
      rw (rounds_left pre (element e) es, next_loop, get_elem?-append_length pre (element e) es)
        refl

  next_mut_empty :
      (pre : List (Entry E)) (n : Option ℕ) (es : List (Entry E)) (o : Option ℕ)
      → next_mut (at (pre ++ empty n ∷ es) o (length pre))
        ≡ next_mut (at (pre ++ empty n ∷ es) o (length pre + 1))
  unfolding next_mut
  next_mut_empty pre n es o =
      let fewer : length (pre ++ empty n ∷ es) - (length pre + 1) ≡ length es =
        omega (arith, rounds_left pre (empty n) es) in
      rw (rounds_left pre (empty n) es, fewer, next_loop, get_elem?-append_length pre (empty n) es)
        refl

  for_mut-none :
      (calls : ℕ) (it it' : IterMut E) (s : S)
      → next_mut it ≡ (none, it')
      → for_mut body (suc calls) it s ≡ (it'.index_map, s)
  unfolding for_mut
  for_mut-none calls it it' s h = rw (for_mut, ap (λ r. r.0) h, ap (λ r. r.1) h) refl

  for_mut-some :
      (calls : ℕ) (it it' : IterMut E) (i : ℕ) (e : E) (s : S)
      → next_mut it ≡ (some (i, e), it')
      → for_mut body (suc calls) it s
        ≡ for_mut body calls (write it' i (body i e s).0) (body i e s).1
  unfolding for_mut
  for_mut-some calls it it' i e s h = rw (for_mut, ap (λ r. r.0) h, ap (λ r. r.1) h) refl

  for_mut-skip :
      (calls : ℕ) (it it' : IterMut E) (s : S) (r : Option (ℕ × E) × IterMut E)
      → next_mut it ≡ r
      → next_mut it' ≡ r
      → for_mut body (suc calls) it s ≡ for_mut body (suc calls) it' s
  for_mut-skip calls it it' s (none, k) h h' =
      for_mut-none calls it k s h ∙ sym (for_mut-none calls it' k s h')
  for_mut-skip calls it it' s (some (i, e), k) h h' =
      for_mut-some calls it k i e s h ∙ sym (for_mut-some calls it' k i e s h')

  for_mut-at :
      (calls : ℕ) (pre es : List (Entry E)) (o : Option ℕ) (s : S)
      → length es ≤ calls
      → for_mut body calls (at (pre ++ es) o (length pre)) s ≡ (
        record { entries = pre ++ (visit_entries (length pre) es s).0; next_empty = o },
        (visit_entries (length pre) es s).1,
      )
  unfolding for_mut write
  for_mut-at zero pre [] o s h = refl
  for_mut-at (suc calls) pre [] o s h = for_mut-none calls _ _ s (next_mut_past pre o)
  for_mut-at zero pre (x ∷ es) o s h = absurd (omega arith)
  for_mut-at (suc calls) pre (empty n ∷ es) o s h =
      let ih = for_mut-at (suc calls) (pre ++ empty n ∷ []) es o s (omega arith) in
      for_mut-skip calls _ _ s _ (next_mut_empty pre n es o) refl
      ∙ (rw
          (
            append_assoc pre (empty n ∷ []) es,
            longer pre (empty n),
            append_assoc pre (empty n ∷ []) (visit_entries (length pre + 1) es s).0,
          )
          at ih)
  for_mut-at (suc calls) pre (element e ∷ es) o s h =
      let (e', s') = body (length pre) e s in
      let ih = for_mut-at calls (pre ++ element e' ∷ []) es o s' (omega arith) in
      for_mut-some calls _ _ (length pre) e s (next_mut_element pre e es o)
      ∙ rw (write, set-append_length pre (element e) (element e') es)
          (rw
            (
              append_assoc pre (element e' ∷ []) es,
              longer pre (element e'),
              append_assoc pre (element e' ∷ []) (visit_entries (length pre + 1) es s').0,
            )
            at ih)

  -- A `for` loop over an `IterMut` ends after at most as many elements as there are entries, and is the
  -- recursion over the entries.
  pub for_mut-iter_mut :
      (calls : ℕ) (m : IndexMap E) (s : S)
      → length m.entries ≤ calls
      → for_mut body calls (iter_mut m) s
        ≡ (record m { entries = (visit_entries 0 m.entries s).0 }, (visit_entries 0 m.entries s).1)
  for_mut-iter_mut calls m s h = for_mut-at calls [] m.entries m.next_empty s h

module _ {ℓ} {E : Type ℓ} where
  -- `Indeces` and `Values` yield the parts of what `Iter` yields.
  pub collect_indeces-collect :
      (calls : ℕ) (it : Iter E)
      → (collect_indeces calls (record { inner = it }) ≡ map (λ x. x.0) (collect calls it))
        × (collect_values calls (record { inner = it }) ≡ map (λ x. x.1) (collect calls it))
  unfolding collect_indeces collect_values next_index next_value collect
  collect_indeces-collect zero it = (refl, refl)
  collect_indeces-collect (suc calls) it =
      by_item (next_loop (length it.index_map.entries - it.index) it.index_map.entries it.index)
        refl (λ k. collect_indeces-collect calls (record it { index = k }))
    where
      by_item :
          (r : Option (ℕ × E) × ℕ)
          → next_loop (length it.index_map.entries - it.index) it.index_map.entries it.index ≡ r
          → ((k : ℕ)
              → (collect_indeces calls (record { inner = record it { index = k } })
                  ≡ map (λ x. x.0) (collect calls (record it { index = k })))
                × (collect_values calls (record { inner = record it { index = k } })
                    ≡ map (λ x. x.1) (collect calls (record it { index = k }))))
          → (collect_indeces (suc calls) (record { inner = it })
              ≡ map (λ x. x.0) (collect (suc calls) it))
            × (collect_values (suc calls) (record { inner = it })
                ≡ map (λ x. x.1) (collect (suc calls) it))
      by_item (none, k) h rest = rw (collect_indeces, collect_values, collect, h) (refl, refl)
      by_item (some x, k) h rest =
          let (indices, values') = rest k in
          rw (collect_indeces, collect_values, collect, h, next_index, next_value, next, h)
            (ap (◌∷◌ (x.0)) indices, ap (◌∷◌ (x.1)) values')
