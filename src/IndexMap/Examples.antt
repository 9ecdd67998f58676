-- ===== src/IndexMap/Examples.antt =====
-- Tests of the module `index_map`, and its theorems at concrete maps.
use rinklers.Prelude.{
  ℕ, zero, suc, ◌+◌, ◌≡◌, refl, Option, none, some, [], ◌∷◌, true, done, panicked, arith, contains,
  ltb,
}
use rinklers.IndexMap.{
  element, empty, IndexMap, insert, remove, retain, from_iter, iter, collect, index,
}
use rinklers.IndexMap.Iterators.{
  indeces, values, collect_indeces, collect_values, next_index, next_value, next_mut, write,
  for_mut, for_values,
}
use rinklers.IndexMap.Invariant.{view, link, IsValid, Inserted, insert-Inserted}
use rinklers.IndexMap.Removal.{Removed, remove-Removed}
use rinklers.IndexMap.Retain.{keep_if, retain_lem}
use rinklers.IndexMap.Iteration.{Ascending, assoc, collect-iter}

-- the map of the source's test, after `remove(0)`
abbrev freed : IndexMap ℕ
freed = record { entries = empty none ∷ element 200 ∷ element 300 ∷ []; next_empty = some 0 }

freed_covers : (i : ℕ) (n : Option ℕ) → link freed.entries i ≡ some n → contains i (0 ∷ []) ≡ true
freed_covers zero n h = refl
freed_covers (suc zero) n h = ground arith
freed_covers (suc (suc zero)) n h = ground arith
freed_covers (suc (suc (suc i))) n h = ground arith

freed-IsValid : IsValid freed
freed-IsValid = record {
  free = 0 ∷ [];
  chain = (refl, none, refl, refl);
  distinct = (refl, tt);
  covers = freed_covers;
}

insert-Inserted_example :
    (i : ℕ) × (m' : IndexMap ℕ) × (insert freed 500 ≡ done (i, m')) × Inserted freed 500 i m'
insert-Inserted_example = insert-Inserted freed 500 freed-IsValid

remove-Removed_example :
    (m' : IndexMap ℕ) × (remove freed 1 ≡ done (some 200, m'))
    × Removed freed 1 m'
    × (view freed 1 ≡ none → m' ≡ freed)
remove-Removed_example = remove-Removed freed 1 freed-IsValid (omega arith)

large_retained :
    IsValid (retain freed (λ e. ltb 250 e))
    × ((j : ℕ) → view (retain freed (λ e. ltb 250 e)) j ≡ keep_if (λ e. ltb 250 e) (view freed j))
large_retained = retain_lem (λ e. ltb 250 e) freed freed-IsValid

freed_collected :
    Ascending 0 (collect 3 (iter freed))
    × ((j : ℕ) → assoc j (collect 3 (iter freed)) ≡ view freed j)
freed_collected = collect-iter freed 3 (omega arith)

-- `test_index_map`, from the first removal on
abbrev four : IndexMap ℕ
four = record {
  entries = element 100 ∷ element 200 ∷ element 300 ∷ element 400 ∷ [];
  next_empty = none;
}

abbrev three : IndexMap ℕ
three = record {
  entries = empty none ∷ element 200 ∷ element 300 ∷ element 400 ∷ [];
  next_empty = some 0;
}

source_test :
    (from_iter (100 ∷ 200 ∷ 300 ∷ 400 ∷ []) ≡ done four)
    × (remove four 0 ≡ done (some 100, three))
    × (collect 4 (iter three) ≡ (1, 200) ∷ (2, 300) ∷ (3, 400) ∷ [])
    × (insert three 500
        ≡ done (
          0,
          record four { entries = element 500 ∷ element 200 ∷ element 300 ∷ element 400 ∷ [] },
        ))
    × (index three 0 ≡ panicked)
    × (index three 2 ≡ done 300)
unfolding from_iter remove insert collect index
source_test = (refl, refl, refl, refl, refl, refl)

abbrev refilled : IndexMap ℕ
refilled = record four { entries = element 500 ∷ element 200 ∷ element 300 ∷ element 400 ∷ [] }

abbrev raised : IndexMap ℕ
raised = record four { entries = element 510 ∷ element 210 ∷ element 310 ∷ element 410 ∷ [] }

-- `test_index_map`, its iterators
source_iterators_test :
    (collect_indeces 4 (indeces four) ≡ 0 ∷ 1 ∷ 2 ∷ 3 ∷ [])
    × (collect_indeces 4 (indeces three) ≡ 1 ∷ 2 ∷ 3 ∷ [])
    × (collect_values 4 (values three) ≡ 200 ∷ 300 ∷ 400 ∷ [])
    × (collect_indeces 4 (indeces refilled) ≡ 0 ∷ 1 ∷ 2 ∷ 3 ∷ [])
    × (collect_values 4 (values refilled) ≡ 500 ∷ 200 ∷ 300 ∷ 400 ∷ [])
    × (for_values (λ e n. (e + 10, n + 1)) 4 refilled 0 ≡ (raised, 4))
unfolding collect_indeces collect_values for_mut next_index next_value next_mut write
source_iterators_test = (refl, refl, refl, refl, refl, refl)
