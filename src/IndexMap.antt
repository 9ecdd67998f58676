-- ===== src/IndexMap.antt =====
-- src/schedule_runner.rs, the private module `index_map`: a vector with a free list threaded
-- through its empty entries. An `assert`, an index out of range and `panic!` are `panicked`.
-- `usize` indices are numbers: an index stays below the length of a vector in memory.
-- The capacity of the vector is not modelled.
pub mod Invariant
pub mod Removal
pub mod Retain
pub mod Iteration
pub mod Access
pub mod Iterators
pub mod Loops
pub mod Examples
use rinklers.Prelude.{
  ℕ, zero, suc, ◌+◌, ◌-◌, Option, none, some, List, [], ◌∷◌, ◌++◌, Bool, true, Outcome, done,
  panicked, ◌>>=◌, length, get_elem?, set, if◌then◌else◌,
}

-- `Empty` holds the index of the next empty entry.
pub data Entry {ℓ} (E : Type ℓ) : Type ℓ where
  element : E → Entry E
  empty : Option ℕ → Entry E

pub record IndexMap {ℓ} (E : Type ℓ) : Type ℓ where
  pub entries : List (Entry E)
  pub next_empty : Option ℕ

module _ {ℓ} {E : Type ℓ} where
  -- `Default::default`
  abbrev pub default : IndexMap E
  default = record { entries = []; next_empty = none }

  abbrev pub new : IndexMap E
  new = default

  -- what `insert` does with the entry that it has swapped out of the slot
  abbrev reuse : ℕ → List (Entry E) → Entry E → Outcome (ℕ × IndexMap E)
  reuse index entries (empty e) = done (index, record { entries = entries; next_empty = e })
  reuse index entries (element _) = panicked

  insert_at : Option ℕ → List (Entry E) → E → Outcome (ℕ × IndexMap E)
  insert_at none entries e =
      done (length entries, record { entries = entries ++ element e ∷ []; next_empty = none })
  insert_at (some index) entries e = elim (get_elem? entries index) [
    | none ↦ panicked
    | some old ↦ reuse index (set entries index (element e)) old
  ]

  unfoldable pub insert : IndexMap E → E → Outcome (ℕ × IndexMap E)
  unfolding insert_at
  insert m e = insert_at m.next_empty m.entries e

  -- The element taken out, the new `next_empty` and the new entry.
  unfoldable pub remove_entry : Option ℕ → ℕ → Entry E → Option E × Option ℕ × Entry E
  remove_entry next_empty idx (element e) = (some e, some idx, empty next_empty)
  remove_entry next_empty idx (empty n) = (none, next_empty, empty n)

  unfoldable pub remove : IndexMap E → ℕ → Outcome (Option E × IndexMap E)
  unfolding remove_entry
  remove m idx = elim (get_elem? m.entries idx) [
    | none ↦ panicked
    | some entry ↦
        let (taken, next, entry') = remove_entry m.next_empty idx entry in
        done (taken, record { entries = set m.entries idx entry'; next_empty = next })
  ]

  -- whether `retain` keeps an entry: an empty one stays as it is
  abbrev keeps : (E → Bool) → Entry E → Bool
  keeps f (element e) = f e
  keeps f (empty n) = true

  -- the loop of `retain` from the entry `idx` on; it returns the new `next_empty` and the entries
  retain_from : (E → Bool) → ℕ → Option ℕ → List (Entry E) → Option ℕ × List (Entry E)
  unfolding remove_entry
  retain_from f idx next [] = (next, [])
  retain_from f idx next (entry ∷ rest) =
      let (_, next', entry') =
        if keeps f entry then (none, next, entry) else remove_entry next idx entry in
      let (last, rest') = retain_from f (idx + 1) next' rest in (last, entry' ∷ rest')

  unfoldable pub retain : IndexMap E → (E → Bool) → IndexMap E
  unfolding retain_from
  retain m f =
      let (last, entries) = retain_from f 0 m.next_empty m.entries in
      record { entries = entries; next_empty = last }

  -- `Index` and `IndexMut`
  abbrev element_of : Entry E → Outcome E
  element_of (element e) = done e
  element_of (empty _) = panicked

  unfoldable pub index : IndexMap E → ℕ → Outcome E
  index m i = elim (get_elem? m.entries i) [ none ↦ panicked | some entry ↦ element_of entry ]

  -- an assignment through `IndexMut`
  unfoldable pub index_mut : IndexMap E → ℕ → (E → E) → Outcome (IndexMap E)
  unfolding index
  index_mut m i f = do e ← index m i; done (record m { entries = set m.entries i (element (f e)) })

  -- `FromIterator`: inserts one by one into a new map
  unfoldable pub insert_all : IndexMap E → List E → Outcome (IndexMap E)
  unfolding insert
  insert_all m [] = done m
  insert_all m (e ∷ es) = do (_, m') ← insert m e; insert_all m' es

  unfoldable pub from_iter : List E → Outcome (IndexMap E)
  unfolding insert_all
  from_iter es = insert_all new es

-- `Iter`: the map that it borrows, and the index that it has come to.
pub record Iter {ℓ} (E : Type ℓ) : Type ℓ where
  pub index_map : IndexMap E
  pub index : ℕ

module _ {ℓ} {E : Type ℓ} where
  -- the `while` of `Iter::next`, with the rounds left: past the last entry no round is made
  next_loop : ℕ → List (Entry E) → ℕ → Option (ℕ × E) × ℕ
  next_loop zero entries i = (none, i)
  next_loop (suc rounds) entries i = elim (get_elem? entries i) [
    | none ↦ (none, i)
    | some (element e) ↦ (some (i, e), i + 1)
    | some (empty _) ↦ next_loop rounds entries (i + 1)
  ]

  -- `Iter::next`: what it yields, and the advanced iterator
  unfoldable pub next : Iter E → Option (ℕ × E) × Iter E
  unfolding next_loop
  next it =
      let (item, i) =
        next_loop (length it.index_map.entries - it.index) it.index_map.entries it.index in
      (item, record it { index = i })

  abbrev pub iter : IndexMap E → Iter E
  iter m = record { index_map = m; index = 0 }

  -- a `for` loop, or `collect`, over an iterator, with a bound on the calls of `next`
  unfoldable pub collect : ℕ → Iter E → List (ℕ × E)
  unfolding next
  collect zero it = []
  collect (suc calls) it =
      let (item, it') = next it in elim item [ none ↦ [] | some entry ↦ entry ∷ collect calls it' ]
