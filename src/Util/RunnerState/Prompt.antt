-- ===== src/Util/RunnerState/Prompt.antt =====
-- src/util.rs: a runner whose thread misses no update, since no call falls between a round, or the start of the
-- thread, and the wait that follows.
use rinklers.Prelude.{ℕ, ◌≡◌, refl, List, [], ◌∷◌, ◌++◌, Bool, true, false, if◌then◌else◌, subst}
use rinklers.Util.WaitPeriod.{WaitPeriod, wait, at_most, no_wait}
use rinklers.Util.RunnerState.{
  Phase, entering, waiting, ready, ended, Next, sleep, quit, new_state, notify, update, enter,
  after, make_round, ThreadStep, locks, times_out, rounds,
}
use rinklers.Util.RunnerState.Driven.{ThreadState, Runner, Shared, thread_round, called_in, begin}

-- The thread waits, or is about to make a round.
abbrev pub IsAttentive : Phase → Type 0
IsAttentive (entering w) = ⊥
IsAttentive (waiting w) = Unit
IsAttentive ready = Unit
IsAttentive ended = Unit

module _ (r : Runner) where
  pub data PromptRuns (s : ThreadState r) : List r.Call → ThreadState r → Type 0 where
    begun : PromptRuns s [] s
    calls :
        {cs : List r.Call} {t : ThreadState r}
        → PromptRuns s cs t
        → IsAttentive t.phase
        → (x : r.Call)
        → PromptRuns s (cs ++ x ∷ []) (update (Shared r) (thread_round r) t (called_in r x))
    steps :
        {cs : List r.Call} {t u : ThreadState r}
        → PromptRuns s cs t
        → ThreadStep (Shared r) (thread_round r) t u
        → PromptRuns s cs u
    wakes_spuriously :
        {cs : List r.Call} {t : ThreadState r} (p : WaitPeriod)
        → PromptRuns s cs t
        → t.phase ≡ waiting p
        → PromptRuns s cs (record t { phase = ready })

  module _ (Q : r.System → WaitPeriod → Type 0) where
    -- what holds of the system and the wait that the thread has chosen
    abbrev Chosen : r.System → Phase → Type 0
    Chosen s (entering w) = Q s w
    Chosen s (waiting w) = Q s w
    Chosen s ready = Unit
    Chosen s ended = Unit

    Chosen-notify :
        (s s' : r.System) (x : Phase)
        → IsAttentive x
        → Chosen s' (notify (Shared r) (thread_round r) x)
    unfolding notify
    Chosen-notify s s' (entering w) h = elim h [ ]
    Chosen-notify s s' (waiting w) h = tt
    Chosen-notify s s' ready h = tt
    Chosen-notify s s' ended h = tt

    Chosen-enter :
        (s : r.System) (w : WaitPeriod) → Q s w → Chosen s (enter (Shared r) (thread_round r) w)
    unfolding enter
    Chosen-enter s wait h = h
    Chosen-enter s (at_most d) h = h
    Chosen-enter s no_wait h = tt

    module _
        (on_round : (o : r.Reading) (s : r.System) (w : WaitPeriod)
          → r.returned (r.woken o s w) ≡ false
          → Q (r.woken o s w) (r.period (r.woken o s w)))
        (at_start : Q r.start wait) where
      Chosen-after :
          (s : r.System) (w : WaitPeriod) (b : Bool)
          → (b ≡ false → Q s (r.period s))
          → let next : Next = if b then quit else sleep (r.period s) in
            Chosen s (after (Shared r) (thread_round r) next w)
      Chosen-after s w true h = tt
      Chosen-after s w false h = h refl

      Chosen-steps :
          (t u : ThreadState r)
          → ThreadStep (Shared r) (thread_round r) t u
          → Chosen t.content.sys t.phase
          → Chosen u.content.sys u.phase
      unfolding make_round
      Chosen-steps t u (locks w e) v =
          Chosen-enter t.content.sys w (subst (λ x. Chosen t.content.sys x) e v)
      Chosen-steps t u (times_out d e) v = tt
      Chosen-steps t u (rounds e) v =
          let s = r.woken (t.content.readings 0) t.content.sys t.period in
          Chosen-after s t.period (r.returned s)
            (on_round (t.content.readings 0) t.content.sys t.period)

      PromptRuns-Chosen :
          (readings : ℕ → r.Reading) (cs : List r.Call) (t : ThreadState r)
          → PromptRuns (begin r readings) cs t
          → Chosen t.content.sys t.phase
      unfolding new_state update
      PromptRuns-Chosen readings cs t begun = at_start
      PromptRuns-Chosen readings cs t (calls {cs = cs'} {t = t'} h attentive x) =
          Chosen-notify t'.content.sys (r.called x t'.content.sys) t'.phase attentive
      PromptRuns-Chosen readings cs t (steps {cs = cs'} {t = t'} h step) =
          Chosen-steps t' t step (PromptRuns-Chosen readings cs' t' h)
      PromptRuns-Chosen readings cs t (wakes_spuriously p h e) = tt

      -- The rule: what each round achieves for the wait that it chooses holds while the thread waits.
      pub PromptRuns-waiting :
          (readings : ℕ → r.Reading) (cs : List r.Call) (t : ThreadState r) (w : WaitPeriod)
          → PromptRuns (begin r readings) cs t
          → t.phase ≡ waiting w
          → Q t.content.sys w
      PromptRuns-waiting readings cs t w h at =
          subst (λ x. Chosen t.content.sys x) at (PromptRuns-Chosen readings cs t h)
