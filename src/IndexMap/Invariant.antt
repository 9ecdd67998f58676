-- ===== src/IndexMap/Invariant.antt =====
-- The free list: `next_empty` leads through all empty entries and no others, each once.
use rinklers.Prelude.{
  ℕ, ◌<◌, ◌≡◌, refl, sym, ◌∙◌, inl, inr, Option, none, some, List, [], ◌∷◌, ◌++◌, true, done,
  length, get_elem?, set, contains, Distinct, get_elem?-set, get_elem?-push, get_elem?_past,
  lt-length, Option-cases, Bool-cases, arith, if◌then◌else◌, ◌==◌,
}
use rinklers.IndexMap.{Entry, element, empty, IndexMap, insert}

-- what an entry holds
abbrev pub element? {ℓ} : {E : Type ℓ} → Option (Entry E) → Option E
element? none = none
element? (some (element e)) = some e
element? (some (empty _)) = none

abbrev pub link? {ℓ} : {E : Type ℓ} → Option (Entry E) → Option (Option ℕ)
link? none = none
link? (some (element e)) = none
link? (some (empty n)) = some n

-- The map as a function of the index.
abbrev pub view {ℓ} : {E : Type ℓ} → IndexMap E → ℕ → Option E
view m i = element? (get_elem? m.entries i)

-- The link of an empty entry; none at an element and past the end.
abbrev pub link {ℓ} : {E : Type ℓ} → List (Entry E) → ℕ → Option (Option ℕ)
link es i = link? (get_elem? es i)

-- From `head` the links lead through exactly the indices listed.
abbrev pub Chain : (ℕ → Option (Option ℕ)) → Option ℕ → List ℕ → Type 0
Chain next head [] = head ≡ none
Chain next head (i ∷ fs) = (head ≡ some i) × (n : Option ℕ) × (next i ≡ some n) × Chain next n fs

pub record IsValid {ℓ} {E : Type ℓ} (m : IndexMap E) : Type 0 where
  pub free : List ℕ
  pub chain : Chain (link m.entries) m.next_empty free
  pub distinct : Distinct free
  pub covers : (i : ℕ) (n : Option ℕ) → link m.entries i ≡ some n → contains i free ≡ true

-- The chain depends on the links of its own indices only.
pub Chain-cong :
    (next next' : ℕ → Option (Option ℕ)) (head : Option ℕ) (fs : List ℕ)
    → ((j : ℕ) → contains j fs ≡ true → next' j ≡ next j)
    → Chain next head fs
    → Chain next' head fs
Chain-cong next next' head [] same c = c
Chain-cong next next' head (i ∷ fs) same (e, n, l, c) = (
  e,
  n,
  same i (ground arith) ∙ l,
  Chain-cong next next' n fs (λ j h. same j (ground (arith, h))) c,
)

-- Every index on the chain is an empty entry.
pub Chain-link :
    (next : ℕ → Option (Option ℕ)) (head : Option ℕ) (fs : List ℕ) (j : ℕ)
    → Chain next head fs
    → contains j fs ≡ true
    → (n : Option ℕ) × (next j ≡ some n)
Chain-link next head [] j c h = cc
Chain-link next head (i ∷ fs) j (e, n, l, c) h = elim (Bool-cases (i == j)) [
  | inl hit ↦ (n, ground arith)
  | inr miss ↦ Chain-link next n fs j c (ground arith)
]

module _ {ℓ} {E : Type ℓ} where
  -- What an insertion of `e` into `m` gives: a fresh index, and a map that holds `e` there and is
  -- the same everywhere else.
  pub record Inserted (m : IndexMap E) (e : E) (i : ℕ) (m' : IndexMap E) : Type ℓ where
    pub valid : IsValid m'
    pub fresh : view m i ≡ none
    pub held : (j : ℕ) → view m' j ≡ (if i == j then some e else view m j)

  view-past : (es : List (Entry E)) → element? (get_elem? es (length es)) ≡ none
  view-past es = rw (get_elem?_past es (length es) (omega arith))

  -- A push leaves the links as they are.
  link-push : (es : List (Entry E)) (e : E) (j : ℕ) → link (es ++ element e ∷ []) j ≡ link es j
  link-push es e j = ground (arith, get_elem?-push es j (element e), get_elem?_past es j)

  insert-push :
      (es : List (Entry E)) (e : E) (v : IsValid (record { entries = es; next_empty = none }))
      → Inserted
          (record { entries = es; next_empty = none })
          e
          (length es)
          (record { entries = es ++ element e ∷ []; next_empty = none })
  insert-push es e v = record {
    valid = record {
      free = v.free;
      chain = Chain-cong (link es) _ none v.free (λ j h. link-push es e j) v.chain;
      distinct = v.distinct;
      covers = λ i n h. v.covers i n (sym (link-push es e i) ∙ h);
    };
    fresh = view-past es;
    held = λ j. ground (arith, get_elem?-push es j (element e));
  }

  -- A write of an element into the slot `i` takes its link away.
  link-set :
      (es : List (Entry E)) (i : ℕ) (e : E) (j : ℕ)
      → i < length es
      → link (set es i (element e)) j ≡ (if i == j then none else link es j)
  link-set es i e j h = ground (arith, get_elem?-set es i j (element e) h)

  -- The slot at the head of the free list is taken, and the list goes on behind it.
  insert-reuse :
      (es : List (Entry E)) (e : E) (i : ℕ) (n : Option ℕ) (fs : List ℕ)
      → i < length es
      → link es i ≡ some n
      → Chain (link es) n fs
      → Distinct (i ∷ fs)
      → ((j : ℕ) (k : Option ℕ) → link es j ≡ some k → contains j (i ∷ fs) ≡ true)
      → Inserted
          (record { entries = es; next_empty = some i })
          e
          i
          (record { entries = set es i (element e); next_empty = n })
  insert-reuse es e i n fs inside l c d covers = record {
    valid = record {
      free = fs;
      chain = Chain-cong (link es) _ n fs (λ j h. ground (arith, link-set es i e j inside, h)) c;
      distinct = d.1;
      covers = λ j k h. ground (arith, link-set es i e j inside, covers j k);
    };
    fresh = ground arith;
    held = λ j. ground (arith, get_elem?-set es i j (element e) inside);
  }

  link-inside : (es : List (Entry E)) (i : ℕ) (n : Option ℕ) → link es i ≡ some n → i < length es
  link-inside es i n h = elim (Option-cases (get_elem? es i)) [
    | inl e ↦ ground arith
    | inr (a, e) ↦ lt-length es i e
  ]

  insert_at_Inserted :
      (es : List (Entry E)) (head : Option ℕ) (e : E) (fs : List ℕ)
      → Chain (link es) head fs
      → Distinct fs
      → ((j : ℕ) (k : Option ℕ) → link es j ≡ some k → contains j fs ≡ true)
      → (i : ℕ) × (m' : IndexMap E) × (insert (record { entries = es; next_empty = head }) e
          ≡ done (i, m'))
        × Inserted (record { entries = es; next_empty = head }) e i m'
  unfolding insert
  insert_at_Inserted es head e [] c d covers = rw c (
    _,
    _,
    refl,
    insert-push es e (record { free = []; chain = refl; distinct = tt; covers = covers }),
  )
  insert_at_Inserted es head e (i ∷ fs) (h, n, l, c) d covers = rw h (
    i,
    record { entries = set es i (element e); next_empty = n },
    ground arith,
    insert-reuse es e i n fs (link-inside es i n l) l c d covers,
  )

  -- On a valid map `insert` never panics. It takes a vacant index and adds the element there.
  pub insert-Inserted :
      (m : IndexMap E) (e : E)
      → IsValid m
      → (i : ℕ) × (m' : IndexMap E) × (insert m e ≡ done (i, m')) × Inserted m e i m'
  insert-Inserted m e v =
      insert_at_Inserted m.entries m.next_empty e v.free v.chain v.distinct v.covers
