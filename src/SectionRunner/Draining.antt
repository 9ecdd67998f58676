-- ===== src/SectionRunner/Draining.antt =====
-- Left to itself the thread serves its whole queue: each round comes when the wait ends that the
-- round before it asked for.
use rinklers.Prelude.{
  ℕ, zero, suc, ◌+◌, ◌-◌, ◌*◌, ◌≡◌, ap, ◌∙◌, Option, none, some, List, [], ◌∷◌, ◌++◌, true, false,
  arith, leb, append_assoc, length,
}
use rinklers.Util.WaitPeriod.{WaitPeriod, wait, at_most, no_wait}
use rinklers.SectionRunner.{Effect, SecRun, round, running_round, idle_round}
use rinklers.SectionRunner.System.{System, woken, handle}
use rinklers.SectionRunner.Invariant.{begin, end}

-- when the wait ends with no notification
abbrev pub timeout : WaitPeriod → Option ℕ
timeout wait = none
timeout (at_most d) = some d
timeout no_wait = some 0

-- at most `rounds` rounds, as long as the thread waits with a timeout
unfoldable pub serve : ℕ → System → System
unfolding handle
serve zero s = s
serve (suc rounds) s = elim (timeout s.period) [
  | none ↦ s
  | some d ↦ serve rounds (handle s (woken d))
]

-- The runs one right after the other, from the time `t` on.
abbrev pub back_to_back : ℕ → List SecRun → List (ℕ × Effect)
back_to_back t [] = []
back_to_back t (x ∷ q) =
    begin t x.sec x.notification_sender
    ++ (end (t + x.dur) x.sec x.notification_sender ++ back_to_back (t + x.dur) q)

abbrev pub total : List SecRun → ℕ
total [] = 0
total (x ∷ q) = x.dur + total q

abbrev pub idle_at : ℕ → List SecRun → WaitPeriod → List (ℕ × Effect) → System
idle_at now q w log = record {
  state = record { quit = false; queue = q };
  current = none;
  period = w;
  returned = false;
  now = now;
  log = log;
}

pub idle_step :
    (now : ℕ) (q : List SecRun) (x : SecRun) (log : List (ℕ × Effect)) (rounds : ℕ)
    → serve (suc (suc rounds)) (idle_at now (x ∷ q) no_wait log)
      ≡ serve rounds (
          idle_at (now + x.dur) q no_wait (
            log
            ++ (begin now x.sec x.notification_sender
                ++ end (now + x.dur) x.sec x.notification_sender)))
unfolding serve round running_round idle_round
idle_step now q x log rounds =
    let at : now + 0 ≡ now = omega arith in
    let over : leb x.dur (now + x.dur - now) ≡ true = ground arith in
    rw (at, running_round, over)
      (ap (λ l. serve rounds (idle_at (now + x.dur) q no_wait l))
        (append_assoc log (begin now x.sec x.notification_sender)
          (end (now + x.dur) x.sec x.notification_sender)))

-- With the queue `q` and no run under way, the thread serves each request for exactly its duration, one right after
-- the other, in `2 * length q + 1` rounds, and then waits for a notification.
pub serve-queue :
    (now : ℕ) (q : List SecRun) (log : List (ℕ × Effect))
    → serve (2 * length q + 1) (idle_at now q no_wait log)
      ≡ idle_at (now + total q) [] wait (log ++ back_to_back now q)
unfolding serve round idle_round
serve-queue now [] log = let at : now + 0 ≡ now = omega arith in rw at
serve-queue now (x ∷ q) log =
    let more : 2 * length (x ∷ q) + 1 ≡ suc (suc (2 * length q + 1)) = omega arith in
    let later : now + total (x ∷ q) ≡ now + x.dur + total q = omega arith in
    rw (more, later)
      (idle_step now q x log (2 * length q + 1)
        ∙ serve-queue (now + x.dur) q _
        ∙ ap (idle_at (now + x.dur + total q) [] wait) (append_assoc log _ _))
