-- ===== src/MqttApi/Storage.antt =====
-- src/mqtt_api.rs: `LocalStorage`, the store of messages that the client has not yet delivered. A message
-- is its packet identifier and the rest, of any type; the `BTreeMap` is a function of the identifier.
use rinklers.Prelude.{
  ℕ, ◌≡◌, refl, ap, ◌∙◌, Option, none, some, List, [], ◌∷◌, false, ◌==◌, if◌then◌else◌, Outcome,
  done, panicked, ◌>>=◌, All, arith,
}

module _ (Rest : Type 0) where
  pub record StoredMessage : Type 0 where
    pub pid : Option ℕ
    pub rest : Rest

  abbrev pub LocalStorage : Type 0
  LocalStorage = ℕ → Option StoredMessage

  -- `LocalStorage::new`
  abbrev pub new_storage : LocalStorage
  new_storage pid = none

  -- `store::Result`: the only error is `NotFound`
  pub data StoreResult (A : Type 0) : Type 0 where
    stored : A → StoreResult A
    not_found : ℕ → StoreResult A

  -- the write of a map at a key
  abbrev written : LocalStorage → ℕ → Option StoredMessage → LocalStorage
  written s pid m i = if pid == i then m else s i

  -- `message.pid` is unwrapped.
  abbrev put_at : LocalStorage → StoredMessage → Option ℕ → Outcome LocalStorage
  put_at s m none = panicked
  put_at s m (some pid) = done (written s pid (some m))

  unfoldable pub put : LocalStorage → StoredMessage → Outcome LocalStorage
  put s m = put_at s m m.pid

  unfoldable pub get : LocalStorage → ℕ → StoreResult StoredMessage
  get s pid = elim (s pid) [ some m ↦ stored m | none ↦ not_found pid ]

  unfoldable pub delete : LocalStorage → ℕ → LocalStorage
  delete s pid = written s pid none

  pub data StoreCall : Type 0 where
    puts : StoredMessage → StoreCall
    deletes : ℕ → StoreCall

  unfoldable pub store_call : LocalStorage → StoreCall → Outcome LocalStorage
  unfolding put delete
  store_call s (puts m) = put s m
  store_call s (deletes pid) = done (delete s pid)

  unfoldable pub store_calls : LocalStorage → List StoreCall → Outcome LocalStorage
  store_calls s [] = done s
  store_calls s (x ∷ xs) = do s' ← store_call s x; store_calls s' xs

  -- The call has an identifier, and another than `pid`.
  abbrev pub Elsewhere : ℕ → StoreCall → Type 0
  Elsewhere pid (puts m) = (i : ℕ) × (m.pid ≡ some i) × ((i == pid) ≡ false)
  Elsewhere pid (deletes i) = (i == pid) ≡ false

  store_calls-Elsewhere :
      (s : LocalStorage) (pid : ℕ) (xs : List StoreCall)
      → All (Elsewhere pid) xs
      → (s' : LocalStorage) × (store_calls s xs ≡ done s') × (s' pid ≡ s pid)
  unfolding store_calls store_call
  store_calls-Elsewhere s pid [] h = (s, refl, refl)
  store_calls-Elsewhere s pid (puts m ∷ xs) ((i, e, other), h) =
      let (s', run, same) = store_calls-Elsewhere (written s i (some m)) pid xs h in
      (s', ap (λ o. put_at s m o >>= λ t. store_calls t xs) e ∙ run, ground (arith, same, other))
  store_calls-Elsewhere s pid (deletes i ∷ xs) (other, h) =
      let (s', run, same) = store_calls-Elsewhere (delete s i) pid xs h in
      (s', run, ground (arith, same, other))

  -- A message put under an identifier is what `get` gives for it, whatever is put or deleted under other
  -- identifiers then; after it has been deleted `get` gives `NotFound`, again until it is put anew. None
  -- of the calls panics.
  pub get-put :
      (s : LocalStorage) (m : StoredMessage) (pid : ℕ) (xs ys : List StoreCall)
      → m.pid ≡ some pid
      → All (Elsewhere pid) xs
      → All (Elsewhere pid) ys
      → (s1 : LocalStorage) × (s2 : LocalStorage) × (store_calls s (puts m ∷ xs) ≡ done s1)
        × (get s1 pid ≡ stored m)
        × (store_calls s1 (deletes pid ∷ ys) ≡ done s2)
        × (get s2 pid ≡ not_found pid)
  unfolding store_calls store_call get
  get-put s m pid xs ys e hx hy =
      let (s1, run1, same1) = store_calls-Elsewhere (written s pid (some m)) pid xs hx in
      let (s2, run2, same2) = store_calls-Elsewhere (delete s1 pid) pid ys hy in
      (
        s1,
        s2,
        ap (λ o. put_at s m o >>= λ t. store_calls t xs) e ∙ run1,
        ground (arith, same1),
        run2,
        ground (arith, same2),
      )
