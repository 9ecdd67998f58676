-- ===== src/Util/RunnerState/Examples.antt =====
-- Wake-ups of a thread that counts its rounds.
use rinklers.Prelude.{◌≡◌, refl, ℕ, ◌+◌}
use rinklers.Util.WaitPeriod.{WaitPeriod, at_most}
use rinklers.Util.RunnerState.{waiting, ready, Next, sleep, RunnerState, new_state, update, Reach}
use rinklers.Util.RunnerState.Wakeups.{IsBlocked, Alone, update_before_waiting, update_seen}

abbrev tick : ℕ → WaitPeriod → ℕ × Next
tick n w = (n + 1, sleep w)

abbrev asleep : RunnerState ℕ tick
asleep = record { content = 4; phase = waiting (at_most 30); period = at_most 30 }

early_update_missed :
    (t : RunnerState ℕ tick) × Reach ℕ tick (new_state ℕ tick 4) t
    × (t.content ≡ 4 + 10)
    × IsBlocked ℕ tick t
unfolding new_state
early_update_missed = update_before_waiting ℕ tick (new_state ℕ tick 4) (λ n. n + 10) refl

tick_seen :
    (t : RunnerState ℕ tick) × Alone ℕ tick (update ℕ tick asleep (λ n. n + 10)) t
    × (t.phase ≡ ready)
    × (t.content ≡ 4 + 10)
    × (t.period ≡ at_most 30)
tick_seen = update_seen ℕ tick asleep (λ n. n + 10) (λ h. cc h) (λ h. cc h)
