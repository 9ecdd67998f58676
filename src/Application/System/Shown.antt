-- ===== src/Application/System/Shown.antt =====
-- What the sections show, as long as no message asks to set their state.
use rinklers.Prelude.{
  ℕ, zero, suc, ◌+◌, ◌≡◌, refl, sym, ap, ◌∙◌, inl, inr, Option, none, some, List, [], ◌∷◌, ◌++◌,
  map, Bool, true, false, if◌then◌else◌, Bool-cases, Option-cases, ◌||◌, get_elem?, set, All, subst,
  lt-length, arith,
}
use rinklers.Util.Durations.Library.{CharTables, Chrono}
use rinklers.Schedule.Chrono.{Calendar}
use rinklers.Section.{NoopSection, LogSection, noop_section, log_section}
use rinklers.SectionRunner
use rinklers.SectionRunner.{RunnerData, SecRun, Effect, set_state, send, run_section}
use rinklers.SectionRunner.System
use rinklers.SectionRunner.System.{System, requested, stopped, woken, asked}
use rinklers.SectionRunner.Invariant.{Inv}
use rinklers.Config.{SectionConfig}
use rinklers.MqttApi.{Payloads, Incoming, process_msg}
use rinklers.MqttApi
use rinklers.MqttApi.Changes.{Changes, nothing, sets, queues, IsQuiet, process_msg-Changes}
use rinklers.Application.System.{
  set_at, apply_effects, App, Event, message, program_round, program_queues, section_round, prints,
  refuse_message, take_message, queue_next, busy, section_round_of, serving_ends,
  section_runner_stopped, program_runner_stopped, effects_of, handle, run, added,
}
use rinklers.Application.System.Requests.{event-Inv}
use rinklers.Prelude.{done, ◌==◌, get_elem?-set}
use rinklers.SectionRunner.{Run, round}
use rinklers.SectionRunner.System.{stamped}
use rinklers.SectionRunner.Exclusion.{lit, waters, lit-append, lit-Inv}
use rinklers.Schedule.{Schedule}
use rinklers.Config.{Config}
use rinklers.Application.{State, boot}
use rinklers.Application.System.{launched}
use rinklers.Application.System.Soundness.{Sound, restored}
use rinklers.Application.System.Runs.{handle-Sound}
use rinklers.Application.System.Start.{boot-Begun, launched-Sound}

-- The sections show the states that are given, by index.
abbrev pub Shows : (ℕ → Bool) → List (LogSection NoopSection) → Type 0
Shows f ss =
    (i : ℕ) (sec : LogSection NoopSection) → get_elem? ss i ≡ some sec → log_section.state sec ≡ f i

set_at-Shows :
    (f : ℕ → Bool) (ss : List (LogSection NoopSection)) (j : ℕ) (b : Bool)
    → Shows f ss
    → Shows (λ i. if j == i then b else f i) (set_at ss j b)
set_at-Shows f ss j b h i sec at = by_elem (get_elem? ss j) refl at
  where
    by_elem :
        (o : Option (LogSection NoopSection))
        → get_elem? ss j ≡ o
        → get_elem? (elim o [ none ↦ ss | some x ↦ set ss j (log_section.set_state x b) ]) i
          ≡ some sec
        → log_section.state sec ≡ (if j == i then b else f i)
    by_elem none o e = elim (Bool-cases (j == i)) [
      | inl same ↦ let here : j ≡ i = ground (arith, same) in cc (here, o, e)
      | inr other ↦ rw other (h i sec e)
    ]
    by_elem (some x) o e =
        let here = sym (get_elem?-set ss j i (log_section.set_state x b) (lt-length ss j o)) ∙ e in
        elim (Bool-cases (j == i)) [
          | inl same ↦
              let set_here : log_section.set_state x b ≡ sec = cc (here, same) in
              rw same (ap (λ (s : LogSection NoopSection). log_section.state s) (sym set_here))
          | inr other ↦
              let kept : get_elem? ss i ≡ some sec = rw other at here in rw other (h i sec kept)
        ]

apply_effects-Shows :
    (time : ℕ) (es : List Effect) (f : ℕ → Bool) (ss : List (LogSection NoopSection))
    → Shows f ss
    → Shows (λ i. lit i (f i) (stamped time es)) (apply_effects es ss)
unfolding apply_effects
apply_effects-Shows time [] f ss h = h
apply_effects-Shows time (set_state j b ∷ es) f ss h =
    apply_effects-Shows time es _ (set_at ss j b) (set_at-Shows f ss j b h)
apply_effects-Shows time (send chan n ∷ es) f ss h = apply_effects-Shows time es f ss h

off-Shows :
    (ss : List (LogSection NoopSection)) (confs : List SectionConfig)
    → map (λ s. log_section.state s) ss ≡ map (λ _. false) confs
    → Shows (λ i. false) ss
off-Shows [] confs h i sec at = cc at
off-Shows (s ∷ ss) [] h i sec at = cc h
off-Shows (s ∷ ss) (x ∷ confs) h zero sec at =
    let same : s ≡ sec = cc at in
    let off : log_section.state s ≡ false = cc h in
    subst (λ (t : LogSection NoopSection). log_section.state t ≡ false) same off
off-Shows (s ∷ ss) (x ∷ confs) h (suc i) sec at =
    let offs : map (λ s. log_section.state s) ss ≡ map (λ _. false) confs = cc h in
    off-Shows ss confs offs i sec at

-- What a round of the section runner does switches from the section of the one run to that of the other.
lit-effects :
    (rs : List SecRun) (s : System) (later i : ℕ)
    → Inv rs s
    → let es =
        if s.returned then [] else (round (s.now + later) s.state s.current s.period).effects in
      lit i (waters i s.current) (stamped (s.now + later) es)
      ≡ waters i (SectionRunner.System.handle s (woken later)).current
unfolding SectionRunner.System.handle
lit-effects rs s later i v = by_returned s.returned refl
  where
    t : ℕ
    t = s.now + later

    by_returned :
        (b : Bool)
        → s.returned ≡ b
        → lit i
            (waters i s.current)
            (stamped t (if b then [] else (round t s.state s.current s.period).effects))
          ≡ waters i (SectionRunner.System.wake b s t).current
    by_returned true h = refl
    by_returned false h =
        let r = round t s.state s.current s.period in
        let after : Inv rs (SectionRunner.System.after_round s t r) =
          subst (λ b. Inv rs (SectionRunner.System.wake b s t)) h
            (event-Inv rs s (woken later) refl v) in
        ap (λ b. lit i b (stamped t r.effects)) (sym (lit-Inv i rs s v))
        ∙ sym (lit-append i false s.log (stamped t r.effects))
        ∙ lit-Inv i rs _ after

module _ (c : Calendar) (p : Payloads) (ch : CharTables) (k : Chrono) (prefix_len : ℕ) where
  -- The event is no message for a request `set_state`.
  abbrev pub QuietEvent : Event c p ch k prefix_len → Type 0
  QuietEvent (message m) = IsQuiet p ch k prefix_len m
  QuietEvent (program_round now later) = Unit
  QuietEvent program_queues = Unit
  QuietEvent (section_round later) = Unit
  QuietEvent serving_ends = Unit
  QuietEvent section_runner_stopped = Unit
  QuietEvent program_runner_stopped = Unit

  -- Exactly the section of the run under way is on.
  abbrev pub ShowsRun : App c p ch k prefix_len → Type 0
  ShowsRun app = Shows (λ i. waters i app.runner.current) app.sections

  message-ShowsRun :
      (A : Type 0) (app : App c p ch k prefix_len) (st : MqttApi.State) (b : Bool)
      → (¬ A)
      → ShowsRun app
      → Changes A
          (record { sections = app.sections; section_runner = app.runner.state })
          app.chan
          st
      → Shows (λ i. waters i app.runner.current) st.sections
  message-ShowsRun A app st b quiet h (nothing e) = rw e h
  message-ShowsRun A app st b quiet h (sets a idx sec v at e) = elim (quiet a) [ ]
  message-ShowsRun A app st b quiet h (queues idx sec dur at e) = rw e h

  messages-ShowsRun :
      (app : App c p ch k prefix_len) (m : Incoming p) (b : Bool) (o : Option (List SecRun))
      → IsQuiet p ch k prefix_len m
      → ShowsRun app
      → ShowsRun (
          if b
          then (elim o [
            | none ↦ take_message c p ch k prefix_len app m
            | some l ↦ refuse_message c p ch k prefix_len app m
          ])
          else app)
  messages-ShowsRun app m false o quiet h = h
  messages-ShowsRun app m true none quiet h =
      message-ShowsRun _ app _ true (λ f. f quiet) h
        (process_msg-Changes p ch k prefix_len
          (record { sections = app.sections; section_runner = app.runner.state }) m app.chan)
  messages-ShowsRun app m true (some l) quiet h =
      message-ShowsRun _ app _ true (λ f. f quiet) h
        (process_msg-Changes p ch k prefix_len
          (record { sections = app.sections; section_runner = app.runner.state }) m app.chan)

  queue_next-ShowsRun :
      (app : App c p ch k prefix_len) (pending : List SecRun) (o : Option (List SecRun))
      → ShowsRun app
      → ShowsRun (queue_next c p ch k prefix_len app pending o)
  queue_next-ShowsRun app [] o h = h
  queue_next-ShowsRun app (r ∷ rs) none h = h
  queue_next-ShowsRun app (r ∷ rs) (some l) h = h

  section_round-ShowsRun :
      (rs : List SecRun) (app : App c p ch k prefix_len) (later : ℕ) (o : Option (List SecRun))
      → Inv rs (restored c p ch k prefix_len (record app { crashed = o }))
      → ShowsRun app
      → ShowsRun (section_round_of c p ch k prefix_len (record app { crashed = o }) later o)
  section_round-ShowsRun rs app later (some l) v h = h
  section_round-ShowsRun rs app later none v h =
      elim (Bool-cases (prints c p ch k prefix_len app later)) [
        | inl printed ↦ rw printed (λ i sec at.
            apply_effects-Shows (app.runner.now + later)
              (effects_of c p ch k prefix_len app.runner later) _ app.sections h i sec at
            ∙ lit-effects rs app.runner later i v)
        | inr unprinted ↦ rw unprinted h
      ]

  handle-ShowsRun :
      (rs : List SecRun) (app : App c p ch k prefix_len) (e : Event c p ch k prefix_len)
      → QuietEvent e
      → Inv rs (restored c p ch k prefix_len app)
      → ShowsRun app
      → ShowsRun (handle c p ch k prefix_len app e)
  unfolding handle SectionRunner.System.handle SectionRunner.stop
  handle-ShowsRun rs app (message m) quiet v h =
      messages-ShowsRun app m app.serving app.crashed quiet h
  handle-ShowsRun rs app (program_round now later) q v h =
      elim (Bool-cases
        (app.returned || busy c p ch k prefix_len app.pending app.programs_crashed)) [
          | inl no_round ↦ rw no_round h
          | inr rounds ↦ rw rounds h
        ]
  handle-ShowsRun rs app program_queues q v h = queue_next-ShowsRun app app.pending app.crashed h
  handle-ShowsRun rs app (section_round later) q v h =
      section_round-ShowsRun rs app later app.crashed v h
  handle-ShowsRun rs app serving_ends q v h = h
  handle-ShowsRun rs app section_runner_stopped q v h = elim (Option-cases app.crashed) [
    | inl live ↦ rw live h
    | inr (l, lost) ↦ rw lost h
  ]
  handle-ShowsRun rs app program_runner_stopped q v h =
      elim (Bool-cases (busy c p ch k prefix_len app.pending app.programs_crashed)) [
        | inl is_busy ↦ rw is_busy h
        | inr free ↦ rw free h
      ]

  run-ShowsRun :
      (confs : List SectionConfig) (rs : List SecRun) (app : App c p ch k prefix_len)
      (es : List (Event c p ch k prefix_len))
      → All QuietEvent es
      → Sound c p ch k prefix_len confs rs app
      → ShowsRun app
      → ShowsRun (run c p ch k prefix_len app es)
  unfolding run
  run-ShowsRun confs rs app [] q v h = h
  run-ShowsRun confs rs app (e ∷ es) q v h =
      run-ShowsRun confs (rs ++ added c p ch k prefix_len app e) (handle c p ch k prefix_len app e)
        es q.1 (handle-Sound c p ch k prefix_len confs rs app e v)
        (handle-ShowsRun rs app e q.0 v.served h)

  -- After a start that succeeds, in any order of messages, rounds of both threads, requests of programs and
  -- stops, panics of the threads included, as long as no message is for a request `set_state`, each section is
  -- on exactly when the run under way is for it.
  pub boot-run-ShowsRun :
      (at : ℕ → c.DateTime) (config : Config (Schedule c)) (st : State c)
      (es : List (Event c p ch k prefix_len))
      → boot c at config ≡ done st
      → All QuietEvent es
      → ShowsRun (run c p ch k prefix_len (launched c p ch k prefix_len st) es)
  boot-run-ShowsRun at config st es h q =
      let b = boot-Begun c at config st h in
      run-ShowsRun config.sections [] _ es q (launched-Sound c p ch k prefix_len config st b)
        (off-Shows st.sections config.sections b.off)
