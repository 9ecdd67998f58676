-- ===== src/Application/Threads/Joining.antt =====
-- What happens while `main` waits for the section runner's thread.
use rinklers.Prelude.{
  ℕ, ◌≡◌, ◌≢◌, ◌⊎◌, ◌≤◌, ◌<◌, refl, ◌∙◌, inl, inr, List, Bool, true, false, ltb, length,
  if◌then◌else◌, subst, done, arith,
}
use rinklers.Util.WaitPeriod.{WaitPeriod, wait, at_most, no_wait}
use rinklers.Util.RunnerState.{Phase, entering, waiting, ready, ended, notify, enter}
use rinklers.Util.Durations.Library.{CharTables, Chrono}
use rinklers.Schedule.Chrono.{Calendar}
use rinklers.Schedule.{Schedule}
use rinklers.Config.{Config}
use rinklers.SectionRunner.{RunnerData}
use rinklers.MqttApi.{Payloads}
use rinklers.Application.{State, boot}
use rinklers.Application.System.{Event, program_queues}
use rinklers.Application.Threads.{
  joining_sections, notified, entered, told, behind, Threads, opened, handled, round_programs,
  round_sections, Step, receives, sections_locks, sections_times_out, sections_rounds,
  programs_locks, programs_times_out, programs_rounds, programs_queues, queue_program, main_panics,
  Panics, signalled, signal_fails, stops_sections, stops_programs, finishes, Reach,
}
use rinklers.Application.Threads.Crashes.{section_round-RoundKeeps, queued_shorter}
use rinklers.Application.Threads.Phases.{ended-behind_crash}
use rinklers.Application.Threads.Order.{Place, InOrder, boot-InOrder}
use rinklers.Application.Threads.Stopping.{IsPrompt}

-- how many steps of its own a thread makes at most until it has made its next round
abbrev pub left : Phase → ℕ
left (entering wait) = 0
left (entering (at_most d)) = 3
left (entering no_wait) = 2
left (waiting w) = 2
left ready = 1
left ended = 0

-- The thread still comes to its next round without a notification, and no later.
abbrev Goes : Phase → Phase → Type 0
Goes x y = IsPrompt y × (left y ≤ left x)

notified-Goes : (x : Phase) → IsPrompt x → Goes x (notified x)
unfolding notify
notified-Goes (entering wait) i = elim i [ ]
notified-Goes (entering (at_most d)) i = (tt, omega arith)
notified-Goes (entering no_wait) i = (tt, omega arith)
notified-Goes (waiting wait) i = elim i [ ]
notified-Goes (waiting (at_most d)) i = (tt, omega arith)
notified-Goes (waiting no_wait) i = elim i [ ]
notified-Goes ready i = (tt, omega arith)
notified-Goes ended i = elim i [ ]

told-Goes : (a b : RunnerData) (x : Phase) → IsPrompt x → Goes x (told a b x)
told-Goes a b x i = by_test (ltb (length a.queue) (length b.queue))
  where
    by_test : (t : Bool) → Goes x (if t then notified x else x)
    by_test true = notified-Goes x i
    by_test false = (i, omega arith)

entered-Goes :
    (w : WaitPeriod)
    → IsPrompt (entering w)
    → IsPrompt (entered w) × (left (entered w) < left (entering w))
unfolding enter
entered-Goes wait i = elim i [ ]
entered-Goes (at_most d) i = (tt, omega arith)
entered-Goes no_wait i = (tt, omega arith)

entered-moves : (w : WaitPeriod) → entered w ≢ entering w
unfolding enter
entered-moves wait h = cc h
entered-moves (at_most d) h = cc h
entered-moves no_wait h = cc h

behind-moves : (b : Bool) (w : WaitPeriod) → behind b w ≢ ready
behind-moves true w h = cc h
behind-moves false w h = cc h

module _ (c : Calendar) (p : Payloads) (ch : CharTables) (k : Chrono) (prefix_len : ℕ) where
  open c use {DateTime}

  -- `main` still waits, the section runner's thread goes on or has ended, and has come nearer to its end,
  -- or the program runner's thread has moved, or made a request of its round.
  abbrev pub Nearer : (before after : Threads c p ch k prefix_len) → Type 0
  Nearer t u =
      (u.main ≡ joining_sections)
      × (IsPrompt u.sections ⊎ (u.sections ≡ ended))
      × (left u.sections ≤ left t.sections)
      × ((left u.sections < left t.sections)
          ⊎ (u.programs ≢ t.programs)
          ⊎ (length u.app.pending < length t.app.pending))

  others_move :
      (t u : Threads c p ch k prefix_len)
      → u.main ≡ joining_sections
      → Goes t.sections u.sections
      → u.programs ≢ t.programs
      → Nearer t u
  others_move t u m g h = (m, inl g.0, g.1, inr (inl h))

  Step-Nearer :
      (t u : Threads c p ch k prefix_len) (es : List (Event c p ch k prefix_len))
      → t.main ≡ joining_sections
      → IsPrompt t.sections
      → InOrder c p ch k prefix_len t
      → Step c p ch k prefix_len t es u
      → Nearer t u
  unfolding round_programs round_sections queue_program
  Step-Nearer t u es m i v (receives msg e on) = cc (m, e)
  Step-Nearer t u es m i v (sections_locks w e) =
      let (prompt, less) = entered-Goes w (subst IsPrompt e i) in
      let less' : left u.sections < left t.sections = rw e less in
      (m, inl prompt, omega (arith, less'), inl less')
  Step-Nearer t u es m i v (sections_times_out d e) =
      (m, inl tt, rw e (omega arith), inl (rw e (omega arith)))
  Step-Nearer t u es m i v (sections_rounds l e) =
      let r = section_round-RoundKeeps c p ch k prefix_len t.app l v.flags in
      let told_to = (subst (λ q. Place c p ch k prefix_len q t) m v.place).0 in
      let over : u.sections ≡ ended = ended-behind_crash _ _ _ (r.last told_to) in
      let less : left u.sections < left t.sections = rw (over, e) (omega arith) in
      (m, inr over, omega (arith, less), inl less)
  Step-Nearer t u es m i v (programs_locks w e n) =
      others_move t u m (i, omega arith) (λ h. entered-moves w (h ∙ e))
  Step-Nearer t u es m i v (programs_times_out d e) =
      others_move t u m (i, omega arith) (λ h. cc (h, e))
  Step-Nearer t u es m i v (programs_rounds now l e) =
      others_move t u m (i, omega arith) (λ h. behind-moves _ _ (h ∙ e))
  Step-Nearer t u es m i v (programs_queues r rs e) =
      let app = handled c p ch k prefix_len program_queues t.app in
      let (prompt, less) = told-Goes t.app.runner.state app.runner.state t.sections i in
      (m, inl prompt, less, inr (inr (queued_shorter c p ch k prefix_len t.app r rs e)))
  Step-Nearer t u es m i v (signalled e) = cc (m, e)
  Step-Nearer t u es m i v (signal_fails e) = cc (m, e)
  Step-Nearer t u es m i v (stops_sections e e') = cc (m, e)
  Step-Nearer t u es m i v (stops_programs e e' e1 e2 e3) = elim (subst IsPrompt e' i) [ ]
  Step-Nearer t u es m i v (finishes e e' e1) = cc (m, e)
  Step-Nearer t u es m i v (main_panics e) =
      let over = (subst (λ q. Panics c p ch k prefix_len q t) m e).0 in
      elim (subst IsPrompt over i) [ ]

  -- a step that leaves the program runner's thread where it is
  abbrev pub OwnStep : Threads c p ch k prefix_len → Type 0
  OwnStep t =
      (es : List (Event c p ch k prefix_len)) × (u : Threads c p ch k prefix_len) × Step c p ch k
        prefix_len t es u
      × (u.programs ≡ t.programs)
      × (u.app.pending ≡ t.app.pending)

  prompt-OwnStep :
      (t : Threads c p ch k prefix_len)
      → InOrder c p ch k prefix_len t
      → IsPrompt t.sections
      → OwnStep t
  unfolding round_sections
  prompt-OwnStep t v i = by_phase t.sections refl i
    where
      by_phase : (x : Phase) → t.sections ≡ x → IsPrompt x → OwnStep t
      by_phase (entering w) e j = (_, _, sections_locks w e, refl, refl)
      by_phase (waiting wait) e j = elim j [ ]
      by_phase (waiting (at_most d)) e j = (_, _, sections_times_out d e, refl, refl)
      by_phase (waiting no_wait) e j = elim j [ ]
      by_phase ready e j =
          let r = section_round-RoundKeeps c p ch k prefix_len t.app 0 v.flags in
          (_, _, sections_rounds 0 e, refl, r.pending_same)
      by_phase ended e j = elim j [ ]

  -- While `main` waits for the section runner's thread, and as long as that thread needs no notification to
  -- come to its next round: it can make a step that leaves the program runner's thread where it is. Each step
  -- that can be made leaves `main` waiting, and the section runner's thread has then ended, perhaps by a panic,
  -- or still needs no notification; the step brings that thread nearer to its end, or moves the program
  -- runner's thread, or leaves that fewer requests to make, and brings the other no farther from its end.
  pub joining-Nearer :
      (at : ℕ → DateTime) (config : Config (Schedule c)) (st : State c) (x y : Phase)
      (es fs : List (Event c p ch k prefix_len)) (t u : Threads c p ch k prefix_len)
      → boot c at config ≡ done st
      → x ≢ ended
      → y ≢ ended
      → Reach c p ch k prefix_len (opened c p ch k prefix_len st x y) es t
      → t.main ≡ joining_sections
      → IsPrompt t.sections
      → Step c p ch k prefix_len t fs u
      → OwnStep t × Nearer t u
  joining-Nearer at config st x y es fs t u h a b reach m i step =
      let v = boot-InOrder c p ch k prefix_len at config st x y es t h a b reach in
      (prompt-OwnStep t v i, Step-Nearer t u fs m i v step)
