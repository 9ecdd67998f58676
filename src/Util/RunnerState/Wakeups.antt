-- ===== src/Util/RunnerState/Wakeups.antt =====
-- Which updates wake the thread.
use rinklers.Prelude.{◌≡◌, refl, ◌≢◌}
use rinklers.Util.WaitPeriod.{WaitPeriod, wait, at_most, no_wait}
use rinklers.Util.RunnerState.{
  Phase, entering, waiting, ready, ended, Next, quit, RunnerState, notify, update, enter,
  make_round, ThreadStep, locks, times_out, rounds, thread, updates, Reach, here, later,
}

module _ (D : Type 0) (round : D → WaitPeriod → D × Next) where
  -- The thread can make no step until somebody notifies it.
  abbrev pub IsBlocked : RunnerState D round → Type 0
  IsBlocked s = (t : RunnerState D round) → ¬ ThreadStep D round s t

  pub waiting-IsBlocked : (s : RunnerState D round) → s.phase ≡ waiting wait → IsBlocked s
  waiting-IsBlocked s h t (locks p e) = cc
  waiting-IsBlocked s h t (times_out d e) = cc
  waiting-IsBlocked s h t (rounds e) = cc

  only_round :
      (t : RunnerState D round)
      → t.phase ≡ ready
      → (u : RunnerState D round) → ThreadStep D round t u
      → u ≡ make_round D round t
  only_round t h u (locks p e) = absurd (cc (h, e))
  only_round t h u (times_out d e) = absurd (cc (h, e))
  only_round t h u (rounds e) = refl

  -- An update made while the thread waits is seen: the thread's next step is a round on the updated
  -- data, whatever further updates come before it.
  pub update_while_waiting :
      (s : RunnerState D round) (p : WaitPeriod) (f g : D → D)
      → s.phase ≡ waiting p
      → let t = update D round (update D round s f) g in
        (t.content ≡ g (f s.content))
        × ThreadStep D round t (make_round D round t)
        × ((u : RunnerState D round) → ThreadStep D round t u → u ≡ make_round D round t)
  unfolding update notify
  update_while_waiting s p f g h =
      let woken : (update D round (update D round s f) g).phase ≡ ready = rw h in
      (refl, rounds woken, only_round (update D round (update D round s f) g) woken)

  -- The lost wake-up: an update made after the thread has left the mutex with the period `Wait`, and
  -- before it waits, as right after its start, notifies nobody. There is then a state, reached by the
  -- thread's next step, in which the thread waits with the update not seen, and it can make no step
  -- until there is another update.
  pub update_before_waiting :
      (s : RunnerState D round) (f : D → D)
      → s.phase ≡ entering wait
      → (t : RunnerState D round) × Reach D round s t × (t.content ≡ f s.content) × IsBlocked t
  unfolding update notify enter
  update_before_waiting s f h =
      let t : RunnerState D round = record (update D round s f) { phase = waiting wait } in
      let kept : (update D round s f).phase ≡ entering wait = rw h in
      (t, later (later here (updates f)) (thread (locks wait kept)), refl, waiting-IsBlocked t refl)

  -- The thread left to itself: its own steps only, with no further update and no spurious wake-up.
  pub data Alone (s : RunnerState D round) : RunnerState D round → Type 0 where
    still : Alone s s
    moves : {t u : RunnerState D round} → Alone s t → ThreadStep D round t u → Alone s u

  -- An update is seen, unless the thread has ended, or has left the mutex with the period `Wait` and
  -- does not wait yet: the thread, left to itself, comes to its next round, with the data as updated and the period
  -- it had waited for.
  pub update_seen :
      (s : RunnerState D round) (f : D → D)
      → s.phase ≢ ended
      → s.phase ≢ entering wait
      → (t : RunnerState D round) × Alone (update D round s f) t
        × (t.phase ≡ ready)
        × (t.content ≡ f s.content)
        × (t.period ≡ s.period)
  unfolding update notify enter
  update_seen s f running not_before = by_phase s.phase refl
    where
      by_phase :
          (x : Phase)
          → s.phase ≡ x
          → (t : RunnerState D round) × Alone (update D round s f) t
            × (t.phase ≡ ready)
            × (t.content ≡ f s.content)
            × (t.period ≡ s.period)
      by_phase (entering wait) e = absurd (not_before e)
      by_phase (entering (at_most d)) e =
          let u = update D round s f in
          let kept : u.phase ≡ entering (at_most d) = rw e in
          (
            record u { phase = ready },
            moves (moves still (locks (at_most d) kept)) (times_out d refl),
            refl,
            refl,
            refl,
          )
      by_phase (entering no_wait) e =
          let u = update D round s f in
          let kept : u.phase ≡ entering no_wait = rw e in
          (record u { phase = ready }, moves still (locks no_wait kept), refl, refl, refl)
      by_phase (waiting p) e = (update D round s f, still, rw e, refl, refl)
      by_phase ready e = (update D round s f, still, rw e, refl, refl)
      by_phase ended e = absurd (running e)

  -- An update after which a round ends the thread does end it, unless the thread has left the mutex with the
  -- period `Wait` and does not wait yet: left to itself, the thread makes that round and has ended.
  pub update_ends :
      (s : RunnerState D round) (f : D → D)
      → s.phase ≢ ended
      → s.phase ≢ entering wait
      → (round (f s.content) s.period).1 ≡ quit
      → (t : RunnerState D round) × Alone (update D round s f) t
        × (t.phase ≡ ended)
        × (t.content ≡ (round (f s.content) s.period).0)
  unfolding make_round
  update_ends s f running not_before last =
      let (t, alone, at, content, period) = update_seen s f running not_before in
      (
        make_round D round t,
        moves alone (rounds at),
        rw (content, period, last) refl,
        rw (content, period) refl,
      )
