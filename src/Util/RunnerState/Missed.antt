-- ===== src/Util/RunnerState/Missed.antt =====
-- src/util.rs: the calls that are made before a runner's thread waits for the first time.
use rinklers.Prelude.{ℕ, ◌≡◌, refl, sym, List, [], ◌∷◌, ◌++◌, append_assoc, append-nil, subst}
use rinklers.Util.WaitPeriod.{wait}
use rinklers.Util.RunnerState.{entering, waiting, new_state, notify, update, enter, locks}
use rinklers.Util.RunnerState.Wakeups.{IsBlocked, waiting-IsBlocked}
use rinklers.Util.RunnerState.Driven.{
  ThreadState, Runner, Shared, thread_round, called_in, begin, Runs, begun, calls, steps,
}

module _ (r : Runner) where
  -- the system after calls and no round
  abbrev pub called_all : List r.Call → r.System → r.System
  called_all [] s = s
  called_all (x ∷ cs) s = called_all cs (r.called x s)

  calls_before :
      (s t : ThreadState r) (before cs : List r.Call)
      → Runs r s before t
      → t.phase ≡ entering wait
      → (u : ThreadState r) × Runs r s (before ++ cs) u
        × (u.phase ≡ entering wait)
        × (u.content.sys ≡ called_all cs t.content.sys)
  unfolding update notify
  calls_before s t before [] h at =
      (t, subst (λ l. Runs r s l t) (sym (append-nil before)) h, at, refl)
  calls_before s t before (x ∷ cs) h at =
      let t' = update (Shared r) (thread_round r) t (called_in r x) in
      let at' : t'.phase ≡ entering wait = rw at refl in
      let (u, runs, there, same) = calls_before s t' (before ++ x ∷ []) cs (calls h x) at' in
      (u, subst (λ l. Runs r s l u) (append_assoc before (x ∷ []) cs) runs, there, same)

  -- However many calls have been made on a runner, if all came before its thread waits for the first time, the
  -- thread can then wait with none of them seen: it has made no round, and it can make no step until there
  -- is another call.
  pub calls_missed :
      (readings : ℕ → r.Reading) (cs : List r.Call)
      → (t : ThreadState r) × Runs r (begin r readings) cs t
        × IsBlocked (Shared r) (thread_round r) t
        × (t.content.sys ≡ called_all cs r.start)
  unfolding new_state enter
  calls_missed readings cs =
      let (u, runs, there, same) =
        calls_before (begin r readings) (begin r readings) [] cs begun refl in
      let t = record u { phase = waiting wait } in
      (t, steps runs (locks wait there), waiting-IsBlocked (Shared r) (thread_round r) t refl, same)
