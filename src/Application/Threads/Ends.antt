-- ===== src/Application/Threads/Ends.antt =====
-- What holds when the program has ended.
use rinklers.Prelude.{◌≢◌, ℕ, ◌≡◌, ap, ◌∙◌, sym, List, false, subst, All, done}
use rinklers.Util.RunnerState.{Phase, ended}
use rinklers.Util.Durations.Library.{CharTables, Chrono}
use rinklers.Schedule.Chrono.{Calendar}
use rinklers.Schedule.{Schedule}
use rinklers.Config.{Config}
use rinklers.SectionRunner.Exclusion.{waters}
use rinklers.MqttApi.{Payloads}
use rinklers.Application.{State, boot}
use rinklers.Application.System.{Event}
use rinklers.Application.System.Shown.{Shows, QuietEvent, ShowsRun, boot-run-ShowsRun}
use rinklers.Application.Threads.{finished, Threads, opened, Reach}
use rinklers.Application.Threads.Follows.{reach-run}
use rinklers.Application.Threads.Order.{Place, boot-InOrder}

module _ (c : Calendar) (p : Payloads) (ch : CharTables) (k : Chrono) (prefix_len : ℕ) where
  open c use {DateTime}

  -- When `main` has returned, after any steps and spurious wake-ups from the start on, and no message was
  -- for a request `set_state`: both threads have ended, and every section is off.
  pub finished-Shows :
      (at : ℕ → DateTime) (config : Config (Schedule c)) (st : State c) (x y : Phase)
      (es : List (Event c p ch k prefix_len)) (t : Threads c p ch k prefix_len)
      → boot c at config ≡ done st
      → x ≢ ended
      → y ≢ ended
      → Reach c p ch k prefix_len (opened c p ch k prefix_len st x y) es t
      → t.main ≡ finished
      → All (QuietEvent c p ch k prefix_len) es
      → (t.sections ≡ ended) × (t.programs ≡ ended) × Shows (λ i. false) t.app.sections
  finished-Shows at config st x y es t h i j reach over quiet =
      let v = boot-InOrder c p ch k prefix_len at config st x y es t h i j reach in
      let (no_sections, no_programs, live) =
        subst (λ m. Place c p ch k prefix_len m t) over v.place in
      let shows : ShowsRun c p ch k prefix_len t.app =
        subst (ShowsRun c p ch k prefix_len) (sym (reach-run c p ch k prefix_len _ t es reach))
          (boot-run-ShowsRun c p ch k prefix_len at config st es h quiet) in
      let idle = v.flags.sections.idle (v.sections_end no_sections live) in
      (no_sections, no_programs, λ i sec found. shows i sec found ∙ ap (waters i) idle)
