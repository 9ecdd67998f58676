-- ===== src/Util/CondvarGuard/Poisoning.antt =====
-- What a panic in an update leaves to the later ones.
use rinklers.Prelude.{
  ℕ, ◌+◌, ◌≡◌, refl, ap, List, [], ◌∷◌, map, length, Bool, true, false, Outcome, done, panicked,
  arith,
}
use rinklers.Util.CondvarGuard.{Guarded, lock_condvar, update, update_all}

abbrev pub guarded_by : {D : Type 0} → D → Bool → ℕ → Guarded D
guarded_by d poisoned n = record {
  mutex = record { content = d; poisoned = poisoned };
  notified = n;
}

module _ {D A : Type 0} where
  abbrev pub all_panic : List (D → Outcome A × D) → List (Outcome A)
  all_panic fs = map (λ f. panicked) fs

  -- after the first of the updates, which has left `d`: what comes of the others, or a panic of each
  abbrev pub unless_panicked :
      Outcome A
      → List (D → Outcome A × D)
      → D
      → List (Outcome A) × D × Bool
      → List (Outcome A) × D × Bool
  unless_panicked (done a) fs d (rs, d', poisoned) = (done a ∷ rs, d', poisoned)
  unless_panicked panicked fs d rest = (panicked ∷ all_panic fs, d, true)

  -- The specification: the updates are made up to the first one that panics, which leaves what it has made of
  -- the data; all later ones panic.
  abbrev pub expected : D → List (D → Outcome A × D) → List (Outcome A) × D × Bool
  expected d [] = ([], d, false)
  expected d (f ∷ fs) = let (r, d') = f d in unless_panicked r fs d' (expected d' fs)

  update_all-poisoned :
      (d : D) (n : ℕ) (fs : List (D → Outcome A × D))
      → update_all (guarded_by d true n) fs ≡ (all_panic fs, guarded_by d true (n + length fs))
  unfolding update_all lock_condvar update
  update_all-poisoned d n [] = ap (λ k. ([], guarded_by d true k)) (omega arith)
  update_all-poisoned d n (f ∷ fs) =
      let total : n + 1 + length fs ≡ n + length (f ∷ fs) = omega arith in
      rw (update_all-poisoned d (n + 1) fs, total) refl

  -- Updates one after the other on a mutex that is not poisoned: each is made on the data that the one before has
  -- left, up to and with the first one that panics, after which the mutex is poisoned. All later ones panic
  -- without a change of the data. Every one of them notifies the condition variable once.
  pub update_all-expected :
      (d : D) (n : ℕ) (fs : List (D → Outcome A × D))
      → let (rs, d', poisoned) = expected d fs in
        update_all (guarded_by d false n) fs ≡ (rs, guarded_by d' poisoned (n + length fs))
  unfolding update_all lock_condvar update
  update_all-expected d n [] = ap (λ k. ([], guarded_by d false k)) (omega arith)
  update_all-expected d n (f ∷ fs) =
      by_result (f d).0 (f d).1 refl (λ d'. update_all-expected d' (n + 1) fs)
    where
      total : n + 1 + length fs ≡ n + length (f ∷ fs)
      total = omega arith

      by_result :
          (r : Outcome A) (d' : D)
          → f d ≡ (r, d')
          → ((x : D)
              → update_all (guarded_by x false (n + 1)) fs ≡ (
                (expected x fs).0,
                guarded_by (expected x fs).1 (expected x fs).2 (n + 1 + length fs),
              ))
          → update_all (guarded_by d false n) (f ∷ fs) ≡ (
            (expected d (f ∷ fs)).0,
            guarded_by (expected d (f ∷ fs)).1 (expected d (f ∷ fs)).2 (n + length (f ∷ fs)),
          )
      by_result (done a) d' h rest = rw (h, rest d', total) refl
      by_result panicked d' h rest = rw (h, update_all-poisoned d' (n + 1) fs, total) refl
