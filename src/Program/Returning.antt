-- ===== src/Program/Returning.antt =====
-- `run_sync` while the section runner serves the program.
use rinklers.Prelude.{
  ℕ, zero, suc, ◌+◌, ◌*◌, ◌≤◌, ◌≡◌, refl, ap, ◌∙◌, none, some, List, [], ◌∷◌, ◌++◌, true, false,
  subst, ◌⊎◌, inl, inr, ◌<◌, append-nil, arith, if◌then◌else◌, ltb, length,
}
use rinklers.Util.WaitPeriod.{no_wait}
use rinklers.SectionRunner.{
  SecRun, RunnerData, RunNotification, Effect, set_state, send, start, finish, round,
}
use rinklers.SectionRunner.System.{System}
use rinklers.SectionRunner.Invariant.{begin, end}
use rinklers.SectionRunner.Draining.{serve, idle_at, idle_step}
use rinklers.Program.{
  ProgItem, Program, queue_run, execute, returned, blocked, await_end, last, run_sync,
}
use rinklers.Program.Sequence.{requests, senders, messages, notifiers-requests, execute-requests}
use rinklers.Program.Stopping.{last-senders}

messages-append :
    (c : ℕ) (l m : List (ℕ × Effect)) → messages c (l ++ m) ≡ messages c l ++ messages c m
messages-append c [] m = refl
messages-append c ((t, set_state s b) ∷ l) m = messages-append c l m
messages-append c ((t, send ch n) ∷ l) m = ground (arith, messages-append c l m)

serve-idle :
    (rounds now : ℕ) (log : List (ℕ × Effect))
    → (serve rounds (idle_at now [] no_wait log)).log ≡ log
unfolding serve round
serve-idle zero now log = refl
serve-idle (suc zero) now log = append-nil log
serve-idle (suc (suc rounds)) now log = append-nil log

serve_one :
    (now : ℕ) (x : SecRun) (q : List SecRun) (log : List (ℕ × Effect))
    → (serve 1 (idle_at now (x ∷ q) no_wait log)).log ≡ log ++ begin now x.sec x.notification_sender
unfolding serve round
serve_one now x q log = let at : now + 0 ≡ now = omega arith in rw at

-- what the log of a run sends to a channel
other_channel :
    (c t t' sec chan : ℕ) (log : List (ℕ × Effect))
    → messages c log ≡ []
    → chan + 1 ≤ c
    → (messages c (log ++ begin t sec chan) ≡ [])
      × (messages c (log ++ (begin t sec chan ++ end t' sec chan)) ≡ [])
other_channel c t t' sec chan log h lt =
    (messages-append c log _ ∙ ground (arith, h), messages-append c log _ ∙ ground (arith, h))

own_channel :
    (t t' sec chan : ℕ) (log : List (ℕ × Effect))
    → messages chan log ≡ []
    → (messages chan (log ++ begin t sec chan) ≡ start ∷ [])
      × (messages chan (log ++ (begin t sec chan ++ end t' sec chan)) ≡ start ∷ finish ∷ [])
own_channel t t' sec chan log h =
    (messages-append chan log _ ∙ ground (arith, h), messages-append chan log _ ∙ ground (arith, h))

serve_none : (s : System) → serve 0 s ≡ s
unfolding serve
serve_none s = refl

-- what `run_sync` comes to once the channel has delivered `ns`
early :
    (ns : List RunNotification) (rounds n : ℕ)
    → (ns ≡ []) ⊎ (ns ≡ start ∷ [])
    → rounds < n
    → await_end ns false ≡ (if ltb rounds n then blocked else returned)
unfolding await_end
early ns rounds n (inl e) lt =
    let less : ltb rounds n ≡ true = ground (arith, lt) in rw (less, e) refl
early ns rounds n (inr e) lt =
    let less : ltb rounds n ≡ true = ground (arith, lt) in rw (less, e) refl

late :
    (ns : List RunNotification) (rounds n : ℕ)
    → ns ≡ start ∷ finish ∷ []
    → n ≤ rounds
    → await_end ns false ≡ (if ltb rounds n then blocked else returned)
unfolding await_end
late ns rounds n e le = let less : ltb rounds n ≡ false = ground (arith, le) in rw (less, e) refl

-- The last channel of the requests is told of its finish by the last round that serves them, and not before.
await_last :
    (items : List ProgItem) (x : ProgItem) (chan now c rounds : ℕ) (log : List (ℕ × Effect))
    → last (senders (requests (x ∷ items) chan)) ≡ some c
    → ((ch : ℕ) → chan ≤ ch → messages ch log ≡ [])
    → await_end
        (messages c (serve rounds (idle_at now (requests (x ∷ items) chan) no_wait log)).log)
        false
      ≡ (if ltb rounds (2 * length (x ∷ items)) then blocked else returned)
await_last items x chan now c zero log h fresh =
    let (ch, e, le) = last-senders (x ∷ items) chan (λ k. cc k) in
    let same : ch ≡ c = cc (h, e) in
    early _ 0 (2 * length (x ∷ items))
      (inl (ap (λ s. messages c s.log) (serve_none _) ∙ fresh c (omega (arith, le, same))))
      (omega arith)
await_last [] x chan now c (suc zero) log h fresh =
    let own : chan ≡ c = cc h in
    early _ 1 2
      (inr (
        subst
          (λ ch.
            messages ch (serve 1 (idle_at now (requests (x ∷ []) chan) no_wait log)).log
            ≡ start ∷ [])
          own
          (ap (messages chan) (serve_one now _ [] log)
            ∙ (own_channel now now x.section chan log (fresh chan (omega arith))).0)))
      (omega arith)
await_last [] x chan now c (suc (suc rounds)) log h fresh =
    let own : chan ≡ c = cc h in
    late _ (suc (suc rounds)) 2
      (subst
        (λ ch.
          messages ch
            (serve (suc (suc rounds)) (idle_at now (requests (x ∷ []) chan) no_wait log)).log
          ≡ start ∷ finish ∷ [])
        own
        (ap (λ s. messages chan s.log) (idle_step now [] _ log rounds)
          ∙ ap (messages chan) (serve-idle rounds _ _)
          ∙ (own_channel now (now + x.duration) x.section chan log (fresh chan (omega arith))).1))
      (omega arith)
await_last (y ∷ items) x chan now c (suc zero) log h fresh =
    let (ch, e, le) = last-senders (y ∷ items) (chan + 1) (λ k. cc k) in
    let same : ch ≡ c = cc (h, e) in
    early _ 1 (2 * length (x ∷ y ∷ items))
      (inl (
        ap (messages c) (serve_one now _ (requests (y ∷ items) (chan + 1)) log)
        ∙ (other_channel c now now x.section chan log (fresh c (omega (arith, le, same)))
            (omega (arith, le, same))).0))
      (omega arith)
await_last (y ∷ items) x chan now c (suc (suc rounds)) log h fresh =
    ap (λ s. await_end (messages c s.log) false)
      (idle_step now (requests (y ∷ items) (chan + 1)) _ log rounds)
    ∙ await_last items y (chan + 1) (now + x.duration) c rounds _ h (λ ch le.
      (other_channel ch now (now + x.duration) x.section chan log (fresh ch (omega arith)) le).1)
    ∙ ap (λ b. if b then blocked else returned) (ground arith)

-- A program is queued on new channels while the runner is idle with an empty queue, and the runner then
-- serves it for a number of rounds. `run_sync`, which waits for the last notifier, still blocks as long as
-- these are fewer than two for each item, and returns from then on; an empty sequence returns at once.
pub run_sync-serve :
    {Schedule : Type 0} (p : Program Schedule) (chan now : ℕ) (log : List (ℕ × Effect)) (rounds : ℕ)
    → ((ch : ℕ) → chan ≤ ch → messages ch log ≡ [])
    → let queued = queue_run Schedule p (record { quit = false; queue = [] }) chan in
      run_sync queued.1
        (λ ch. messages ch (serve rounds (idle_at now queued.0.queue no_wait log)).log)
        false
      ≡ (if ltb rounds (2 * length p.sequence) then blocked else returned)
unfolding execute run_sync
run_sync-serve {Schedule} p chan now log rounds fresh =
    let d : RunnerData = record { quit = false; queue = [] } in
    let told = λ (r : RunnerData) (ch : ℕ).
      messages ch (serve rounds (idle_at now r.queue no_wait log)).log in
    ap (λ n. run_sync n (told (queue_run Schedule p d chan).0) false) (notifiers-requests p d chan)
    ∙ ap (λ r. run_sync (senders (requests p.sequence chan)) (told r) false)
        (execute-requests p d chan)
    ∙ by_items p.sequence
  where
    by_items :
        (items : List ProgItem)
        → elim (last (senders (requests items chan))) [
          | none ↦ returned
          | some c ↦
              await_end
                (messages c (serve rounds (idle_at now (requests items chan) no_wait log)).log)
                false
        ]
          ≡ (if ltb rounds (2 * length items) then blocked else returned)
    by_items [] = ground arith
    by_items (x ∷ items) =
        let (c, e, le) = last-senders (x ∷ items) chan (λ k. cc k) in
        rw e (await_last items x chan now c rounds log e fresh)
