-- ===== src/Program/Sequence.antt =====
-- A program and the section runner together.
use rinklers.Prelude.{
  ℕ, suc, ◌+◌, ◌*◌, ◌≡◌, refl, sym, ap, List, [], ◌∷◌, ◌++◌, map, false, append_assoc, append-nil,
  if◌then◌else◌, ◌==◌, length,
}
use rinklers.Util.WaitPeriod.{wait, no_wait}
use rinklers.SectionRunner.{
  SecRun, RunnerData, RunNotification, Effect, set_state, send, run_section,
}
use rinklers.SectionRunner.Draining.{serve, idle_at, back_to_back, total, serve-queue}
use rinklers.Program.{ProgItem, Program, queue_items, queue_run, execute}

-- the requests that a sequence makes, with channels from `chan` on
abbrev pub requests : List ProgItem → (chan : ℕ) → List SecRun
requests [] chan = []
requests (item ∷ items) chan =
    record { sec = item.section; dur = item.duration; notification_sender = chan }
    ∷ requests items (chan + 1)

abbrev pub senders : List SecRun → List ℕ
senders = map (λ r. r.notification_sender)

queue_items-requests :
    (items : List ProgItem) (d : RunnerData) (chan : ℕ)
    → queue_items items d chan
      ≡ (record d { queue = d.queue ++ requests items chan }, senders (requests items chan))
unfolding queue_items run_section
queue_items-requests [] d chan = ap (λ q. (record d { queue = q }, [])) (sym (append-nil d.queue))
queue_items-requests (item ∷ items) d chan =
    rw (queue_items-requests items (run_section d item.section item.duration chan) (chan + 1)) (
      ap (λ q. (record d { queue = q }, chan ∷ senders (requests items (chan + 1))))
        (append_assoc d.queue _ (requests items (chan + 1))))

-- what the log sends to a channel
abbrev pub messages : ℕ → List (ℕ × Effect) → List RunNotification
messages chan [] = []
messages chan ((_, set_state _ _) ∷ l) = messages chan l
messages chan ((_, send ch n) ∷ l) = if ch == chan then n ∷ messages chan l else messages chan l

-- the durations of the items, one after the other
abbrev pub length_of : List ProgItem → ℕ
length_of [] = 0
length_of (item ∷ items) = item.duration + length_of items

total-requests : (items : List ProgItem) (chan : ℕ) → total (requests items chan) ≡ length_of items
total-requests [] chan = refl
total-requests (item ∷ items) chan = ap (◌+◌ item.duration) (total-requests items (chan + 1))

length-requests : (items : List ProgItem) (chan : ℕ) → length (requests items chan) ≡ length items
length-requests [] chan = refl
length-requests (item ∷ items) chan = ap suc (length-requests items (chan + 1))

pub execute-requests :
    {Schedule : Type 0} (p : Program Schedule) (d : RunnerData) (chan : ℕ)
    → execute Schedule p d chan ≡ record d { queue = d.queue ++ requests p.sequence chan }
unfolding execute queue_run
execute-requests p d chan = ap (λ r. r.0) (queue_items-requests p.sequence d chan)

pub notifiers-requests :
    {Schedule : Type 0} (p : Program Schedule) (d : RunnerData) (chan : ℕ)
    → (queue_run Schedule p d chan).1 ≡ senders (requests p.sequence chan)
unfolding queue_run
notifiers-requests p d chan = ap (λ r. r.1) (queue_items-requests p.sequence d chan)

-- A program executed while the section runner is idle with an empty queue: the sections of its sequence
-- run in order, each for its duration, one right after the other, and after the sum of the durations the
-- runner is idle again.
pub serve-execute :
    {Schedule : Type 0} (p : Program Schedule) (chan now : ℕ) (log : List (ℕ × Effect))
    → serve (2 * length p.sequence + 1) (
        idle_at now
          (execute Schedule p (record { quit = false; queue = [] }) chan).queue
          no_wait
          log)
      ≡ idle_at
          (now + length_of p.sequence)
          []
          wait
          (log ++ back_to_back now (requests p.sequence chan))
serve-execute p chan now log =
    rw
      (
        execute-requests p (record { quit = false; queue = [] }) chan,
        ← length-requests p.sequence chan,
        ← total-requests p.sequence chan,
      )
      (serve-queue now (requests p.sequence chan) log)
