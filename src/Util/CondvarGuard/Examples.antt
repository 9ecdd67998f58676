-- ===== src/Util/CondvarGuard/Examples.antt =====
-- Three updates of a number, of which the second panics after it has changed it.
use rinklers.Prelude.{ℕ, ◌+◌, ◌≡◌, refl, List, [], ◌∷◌, true, false, Outcome, done, panicked}
use rinklers.Util.CondvarGuard.{update_all, new_mutex}
use rinklers.Util.CondvarGuard.Poisoning.{guarded_by, update_all-expected}

abbrev three_updates : List (ℕ → Outcome ℕ × ℕ)
three_updates = (λ n. (done n, n + 1)) ∷ (λ n. (panicked, n + 10)) ∷ (λ n. (done n, n + 100)) ∷ []

-- a mutex that nobody has used
new_unpoisoned : record { mutex = new_mutex 4; notified = 0 } ≡ guarded_by {D = ℕ} 4 false 0
unfolding new_mutex
new_unpoisoned = refl

update_all-expected_example :
    update_all (guarded_by 4 false 0) three_updates
    ≡ (done 4 ∷ panicked ∷ panicked ∷ [], guarded_by 15 true 3)
update_all-expected_example = update_all-expected 4 0 three_updates
