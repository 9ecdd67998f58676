-- ===== src/IndexMap/Retain.antt =====
-- `retain`: the loop removes, entry by entry, what the predicate rejects.
use rinklers.Prelude.{
  ℕ, zero, suc, ◌+◌, ◌≡◌, refl, inl, inr, ◌↔◌, Option, none, some, List, [], ◌∷◌, ◌++◌, Bool,
  length, get_elem?, Bool-cases, arith, if◌then◌else◌, length-append, append_assoc,
  get_elem?-append_length, set-append_length,
}
use rinklers.IndexMap.{Entry, element, empty, IndexMap, retain_from, retain}
use rinklers.IndexMap.Invariant.{element?, view, IsValid}
use rinklers.IndexMap.Removal.{remove-occupied}

-- an optional element that is kept only if it satisfies the predicate
abbrev pub keep_if {ℓ} : {E : Type ℓ} → (E → Bool) → Option E → Option E
keep_if f none = none
keep_if f (some e) = if f e then some e else none

module _ {ℓ} {E : Type ℓ} (f : E → Bool) where
  retain_from-view :
      (idx : ℕ) (next : Option ℕ) (es : List (Entry E)) (j : ℕ)
      → element? (get_elem? (retain_from f idx next es).1 j) ≡ keep_if f (element? (get_elem? es j))
  unfolding retain_from
  retain_from-view idx next [] j = refl
  retain_from-view idx next (empty n ∷ es) zero = refl
  retain_from-view idx next (empty n ∷ es) (suc j) = retain_from-view (idx + 1) next es j
  retain_from-view idx next (element e ∷ es) zero = ground arith
  retain_from-view idx next (element e ∷ es) (suc j) = retain_from-view (idx + 1) _ es j

  -- moves the entry at the head of the rest to the end of the prefix
  shift :
      (pre : List (Entry E)) (x : Entry E) (es : List (Entry E))
      → (pre ++ x ∷ []) ++ es ≡ pre ++ x ∷ es
  shift pre x es = append_assoc pre (x ∷ []) es

  -- one rejected element, between the entries already visited and those to come
  reject-IsValid :
      (pre : List (Entry E)) (e : E) (es : List (Entry E)) (next : Option ℕ) (idx : ℕ)
      → idx ≡ length pre
      → IsValid (record { entries = pre ++ element e ∷ es; next_empty = next })
      → IsValid (record { entries = pre ++ empty next ∷ es; next_empty = some idx })
  reject-IsValid pre e es next idx at v =
      rw (at, ← set-append_length pre (element e) (empty next) es)
        (remove-occupied (record { entries = pre ++ element e ∷ es; next_empty = next })
          (length pre) e v (get_elem?-append_length pre (element e) es)).valid

  -- The loop goes on with one more entry visited.
  visited-length :
      (idx : ℕ) (pre : List (Entry E)) (x : Entry E)
      → idx ≡ length pre
      → idx + 1 ≡ length (pre ++ x ∷ [])
  visited-length idx pre x at = omega (arith, length-append pre (x ∷ []))

  advance :
      (pre : List (Entry E)) (x : Entry E) (es : List (Entry E)) (next : Option ℕ)
      → IsValid (record { entries = (pre ++ x ∷ []) ++ es; next_empty = next })
        ↔ IsValid (record { entries = pre ++ x ∷ es; next_empty = next })
  advance pre x es next = (λ v. rw (← shift pre x es) v, λ v. rw (shift pre x es) v)

  retain_from-IsValid :
      (idx : ℕ) (next : Option ℕ) (pre es : List (Entry E))
      → idx ≡ length pre
      → IsValid (record { entries = pre ++ es; next_empty = next })
      → IsValid (record {
        entries = pre ++ (retain_from f idx next es).1;
        next_empty = (retain_from f idx next es).0;
      })
  unfolding retain_from
  retain_from-IsValid idx next pre [] at v = v
  retain_from-IsValid idx next pre (empty n ∷ es) at v = (advance pre (empty n) _ _).0 (
      retain_from-IsValid (idx + 1) next (pre ++ empty n ∷ []) es (visited-length idx pre _ at)
        ((advance pre (empty n) es next).1 v))
  retain_from-IsValid idx next pre (element e ∷ es) at v = elim (Bool-cases (f e)) [
    | inl kept ↦ rw kept (
        (advance pre (element e) _ _).0 (
          retain_from-IsValid (idx + 1) next (pre ++ element e ∷ []) es
            (visited-length idx pre _ at) ((advance pre (element e) es next).1 v)))
    | inr dropped ↦ rw dropped (
        (advance pre (empty next) _ _).0 (
          retain_from-IsValid (idx + 1) (some idx) (pre ++ empty next ∷ []) es
            (visited-length idx pre _ at)
            ((advance pre (empty next) es (some idx)).1 (reject-IsValid pre e es next idx at v))))
  ]

  -- `retain` keeps the map valid, and keeps exactly the elements that satisfy the predicate, each at
  -- its index.
  pub retain_lem :
      (m : IndexMap E)
      → IsValid m
      → IsValid (retain m f) × ((j : ℕ) → view (retain m f) j ≡ keep_if f (view m j))
  unfolding retain
  retain_lem m v = (
    retain_from-IsValid 0 m.next_empty [] m.entries refl v,
    retain_from-view 0 m.next_empty m.entries,
  )
