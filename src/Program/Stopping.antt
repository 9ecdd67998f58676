-- ===== src/Program/Stopping.antt =====
-- What becomes of a program's requests if the section runner is stopped between two runs.
use rinklers.Prelude.{
  ℕ, ◌+◌, ◌≡◌, refl, sym, ap, ◌∙◌, none, some, List, [], ◌∷◌, ◌++◌, true, false, append_assoc,
  append-nil, arith, ◌≢◌, ◌≤◌,
}
use rinklers.SectionRunner.{round, run_section}
use rinklers.SectionRunner.System.{System, Event, requested, stopped, woken, handle, run, asked}
use rinklers.Program.{ProgItem, Program, queue_run, execute, blocked, await_end, last, run_sync}
use rinklers.Program.Sequence.{requests, senders, messages, execute-requests, notifiers-requests}

quiet_round :
    (s : System) (later : ℕ)
    → s.current ≡ none
    → s.state.quit ≡ true
    → let s' = handle s (woken later) in
      (s'.current ≡ none) × (s'.state ≡ s.state) × (s'.log ≡ s.log)
unfolding handle round
quiet_round s later c q = ground (arith, append-nil s.log)

-- The runner is told to quit while no run is under way: it never does anything again, and keeps its
-- queue, to which later requests are added.
stopped_idle :
    (s : System) (es : List Event)
    → s.current ≡ none
    → s.state.quit ≡ true
    → ((run s es).log ≡ s.log) × ((run s es).state.queue ≡ s.state.queue ++ asked es)
unfolding run run_section
stopped_idle s [] c q = (refl, sym (append-nil s.state.queue))
stopped_idle s (requested sec dur chan ∷ es) c q =
    let (same, queued) = stopped_idle (handle s (requested sec dur chan)) es c q in
    (same, queued ∙ append_assoc s.state.queue _ (asked es))
stopped_idle s (stopped ∷ es) c q = stopped_idle (handle s stopped) es c refl
stopped_idle s (woken later ∷ es) c q =
    let (c', d', l') = quiet_round s later c q in
    let (same, queued) = stopped_idle (handle s (woken later)) es c' (ap (λ d. d.quit) d' ∙ q) in
    (same ∙ l', queued ∙ ap (λ d. d.queue ++ asked es) d')

pub last-senders :
    (items : List ProgItem) (chan : ℕ)
    → items ≢ []
    → (ch : ℕ) × (last (senders (requests items chan)) ≡ some ch) × (chan ≤ ch)
last-senders [] chan h = absurd (h refl)
last-senders (x ∷ []) chan h = (chan, refl, omega arith)
last-senders (x ∷ y ∷ items) chan h =
    let (ch, e, le) = last-senders (y ∷ items) (chan + 1) (λ k. cc k) in (ch, e, omega arith)

-- A program with a non-empty sequence is queued on new channels while no section runs, and the runner is
-- told to quit before its next round. Whatever happens then, the program's requests stay in the queue,
-- with the senders of their channels, and `run_sync` never returns.
pub run_sync_never_returns :
    {Schedule : Type 0} (p : Program Schedule) (s : System) (chan : ℕ) (es : List Event)
    → s.current ≡ none
    → p.sequence ≢ []
    → ((ch : ℕ) → chan ≤ ch → messages ch s.log ≡ [])
    → let d = execute Schedule p s.state chan in
      let s' = run (record s { state = record d { quit = true } }) es in
      (s'.state.queue ≡ s.state.queue ++ requests p.sequence chan ++ asked es)
      × (run_sync (queue_run Schedule p s.state chan).1 (λ ch. messages ch s'.log) false ≡ blocked)
unfolding run_sync await_end
run_sync_never_returns {Schedule} p s chan es idle some_item fresh =
    let d = execute Schedule p s.state chan in
    let (same, queued) =
      stopped_idle (record s { state = record d { quit = true } }) es idle refl in
    let (ch, e, le) = last-senders p.sequence chan some_item in
    (
      queued ∙ ap (λ x. x.queue ++ asked es) (execute-requests p s.state chan),
      rw (notifiers-requests p s.state chan, run_sync, e, same, fresh ch le, await_end),
    )
