-- ===== src/Application/System/Soundness.antt =====
-- What holds in every run of the whole program.
use rinklers.Prelude.{
  ℕ, ◌+◌, ◌<◌, ◌≡◌, refl, sym, ap, ◌∙◌, Option, none, some, List, [], ◌∷◌, ◌++◌, Bool, length,
  get_elem?, append-nil, All, subst, lt-length, arith,
}
use rinklers.Util.Durations.Library.{CharTables, Chrono}
use rinklers.Schedule.Chrono.{Calendar}
use rinklers.Section.{NoopSection, LogSection, noop_section, log_section}
use rinklers.SectionRunner.{SecRun, run_section}
use rinklers.SectionRunner.Invariant.{Inv}
use rinklers.SectionRunner.System.{System}
use rinklers.ScheduleRunner.Items.{AllItems, All-append}
use rinklers.Program.Sequence.{requests}
use rinklers.ProgramRunner.{Prog}
use rinklers.ProgramRunner.Start.{requests_of}
use rinklers.Config.{SectionConfig}
use rinklers.MqttApi.{Payloads, Incoming, process_msg}
use rinklers.MqttApi
use rinklers.MqttApi.Changes.{Changes, nothing, sets, queues}
use rinklers.Application.System.{skip, App}
use rinklers.Application.System.Sections.{configs, configs-set, length-configs}
use rinklers.Application.System.Requests.{
  skip-append, skip-length, requests-Inv, InRange, ItemsInRange, requests-InRange,
}

module _ (c : Calendar) (p : Payloads) (ch : CharTables) (k : Chrono) (prefix_len : ℕ) where
  abbrev taken : Option (List SecRun) → List SecRun
  taken none = []
  taken (some lost) = lost

  -- The section runner, with the request put back that a panic of its thread has lost.
  abbrev pub restored : App c p ch k prefix_len → System
  restored app = record (app.runner) {
    state = record (app.runner.state) { queue = taken app.crashed ++ app.runner.state.queue };
  }

  abbrev pub live : App c p ch k prefix_len → App c p ch k prefix_len
  live app = record app { crashed = none }

  -- The requests `rs` have been made, all for sections that there are, and the section runner keeps its
  -- protocol for them, up to the panic that ends it, if there is one; all programs, and the requests that they
  -- have yet to make, are for sections that there are; and the sections are as configured.
  pub record Sound (confs : List SectionConfig) (rs : List SecRun) (app : App c p ch k prefix_len)
      : Type 0 where
    pub served : Inv rs (restored app)
    pub known : All (InRange (length confs)) rs
    pub asked : All (InRange (length confs)) app.pending
    pub items :
        AllItems (λ (q : Prog c). ItemsInRange (length confs) q.sequence) app.programs.runs.entries
    pub as_configured : configs app.sections ≡ confs

  pub requests_of-InRange :
      (n : ℕ) (qs : List (Prog c)) (chan : ℕ)
      → All (λ (q : Prog c). ItemsInRange n q.sequence) qs
      → All (InRange n) (requests_of c qs chan)
  requests_of-InRange n [] chan h = tt
  requests_of-InRange n (q ∷ qs) chan (h, hs) =
      All-append (InRange n) (requests q.sequence chan) _ (requests-InRange n q.sequence chan h)
        (requests_of-InRange n qs (chan + length q.sequence) hs)

  -- requests on the queue
  Sound-requests :
      (confs : List SectionConfig) (rs qs : List SecRun) (app : App c p ch k prefix_len) (chan : ℕ)
      (serving : Bool)
      → Sound confs rs (live app)
      → All (InRange (length confs)) qs
      → Sound confs (rs ++ qs) (record (live app) {
        runner = record (app.runner) {
          state = record (app.runner.state) { queue = app.runner.state.queue ++ qs };
        };
        serving = serving;
        chan = chan;
      })
  Sound-requests confs rs qs app chan serving v h = record {
    served = requests-Inv rs qs app.runner v.served;
    known = All-append (InRange (length confs)) rs qs v.known h;
    asked = v.asked;
    items = v.items;
    as_configured = v.as_configured;
  }

  -- the same requests
  pub Sound-same :
      (confs : List SectionConfig) (rs qs : List SecRun) (app : App c p ch k prefix_len)
      (ss : List (LogSection NoopSection)) (chan : ℕ) (serving : Bool)
      → Sound confs rs app
      → configs ss ≡ configs app.sections
      → qs ≡ []
      → Sound confs (rs ++ qs) (record app { sections = ss; serving = serving; chan = chan })
  Sound-same confs rs qs app ss chan serving v same none' =
      let rest : rs ++ qs ≡ rs = ap (◌++◌ rs) none' ∙ append-nil rs in
      rw rest (record {
        served = v.served;
        known = v.known;
        asked = v.asked;
        items = v.items;
        as_configured = same ∙ v.as_configured;
      })

  in_range :
      (confs : List SectionConfig) (ss : List (LogSection NoopSection)) (i : ℕ)
      (sec : LogSection NoopSection)
      → configs ss ≡ confs
      → get_elem? ss i ≡ some sec
      → i < length confs
  in_range confs ss i sec same h =
      omega
        (arith, lt-length ss i h, length-configs ss, ap (λ (l : List SectionConfig). length l) same)

  abbrev after_message : App c p ch k prefix_len → MqttApi.State → Bool → App c p ch k prefix_len
  after_message app st serving = record (live app) {
    sections = st.sections;
    runner = record (app.runner) { state = st.section_runner };
    serving = serving;
    chan = app.chan + 1;
  }

  pub message-Sound :
      (confs : List SectionConfig) (rs : List SecRun) (app : App c p ch k prefix_len) (A : Type 0)
      (st : MqttApi.State) (serving : Bool)
      → Sound confs rs (live app)
      → Changes A
          (record { sections = app.sections; section_runner = app.runner.state })
          app.chan
          st
      → Sound confs
          (rs ++ skip (length app.runner.state.queue) st.section_runner.queue)
          (after_message app st serving)
  unfolding run_section
  message-Sound confs rs app A st serving v (nothing e) =
      subst
        (λ x.
          Sound confs (rs ++ skip (length app.runner.state.queue) x.section_runner.queue)
            (after_message app x serving))
        (sym e)
        (Sound-same confs rs _ (live app) app.sections (app.chan + 1) serving v refl
          (skip-length app.runner.state.queue))
  message-Sound confs rs app A st serving v (sets a idx sec b at e) =
      subst
        (λ x.
          Sound confs (rs ++ skip (length app.runner.state.queue) x.section_runner.queue)
            (after_message app x serving))
        (sym e)
        (Sound-same confs rs _ (live app) _ (app.chan + 1) serving v
          (configs-set app.sections idx sec b at) (skip-length app.runner.state.queue))
  message-Sound confs rs app A st serving v (queues idx sec dur at e) =
      let r : SecRun = record { sec = idx; dur = dur; notification_sender = app.chan } in
      subst
        (λ x.
          Sound confs (rs ++ skip (length app.runner.state.queue) x.section_runner.queue)
            (after_message app x serving))
        (sym e)
        (subst
          (λ l. Sound confs (rs ++ l) (
            after_message app
              (record {
                sections = app.sections;
                section_runner = run_section app.runner.state idx dur app.chan;
              })
              serving))
          (sym (skip-append app.runner.state.queue (r ∷ [])))
          (Sound-requests confs rs (r ∷ []) app (app.chan + 1) serving v
            (in_range confs app.sections idx sec v.as_configured at, tt)))

  -- a message that the poisoned mutex may refuse
  pub message-configs :
      (A : Type 0) (st st' : MqttApi.State) (chan : ℕ)
      → Changes A st chan st'
      → configs st'.sections ≡ configs st.sections
  message-configs A st st' chan (nothing e) = ap (λ (x : MqttApi.State). configs x.sections) e
  message-configs A st st' chan (sets a idx sec b at e) =
      ap (λ (x : MqttApi.State). configs x.sections) e ∙ configs-set st.sections idx sec b at
  message-configs A st st' chan (queues idx sec dur at e) =
      ap (λ (x : MqttApi.State). configs x.sections) e
