-- ===== src/MqttApi/Changes.antt =====
-- What a message can change: a section's state, or the queue.
use Prim.Native.String.{String}
use rinklers.Prelude.{
  ℕ, ◌-◌, ◌≡◌, ◌⊎◌, refl, inl, inr, Option, none, some, List, Bool, true, false, get_elem?, set,
  Bool-cases, Option-cases,
}
use rinklers.Section.{NoopSection, LogSection, log_section, noop_section}
use rinklers.SectionRunner.{run_section}
use rinklers.Util.Durations.Library.{CharTables, Chrono}
use rinklers.MqttApi.{
  text_eq, names, skip, Payloads, State, Incoming, set_section_state, run_section_for, request,
  dispatch, index_of, process_msg,
}

-- The state that a message leaves: the same, or a section that there is has its state set, or a run of one
-- is queued with the new channel. `Asked` is what a request to set a state comes with.
pub data Changes (Asked : Type 0) (st : State) (chan : ℕ) (st' : State) : Type 0 where
  nothing : st' ≡ st → Changes Asked st chan st'
  sets :
      Asked
      → (idx : ℕ) (sec : LogSection NoopSection) (b : Bool) → get_elem? st.sections idx ≡ some sec
      → st' ≡ record st { sections = set st.sections idx (log_section.set_state sec b) }
      → Changes Asked st chan st'
  queues :
      (idx : ℕ) (sec : LogSection NoopSection) (dur : ℕ)
      → get_elem? st.sections idx ≡ some sec
      → st' ≡ record st { section_runner = run_section st.section_runner idx dur chan }
      → Changes Asked st chan st'

Changes-map :
    (A B : Type 0) (st st' : State) (chan : ℕ)
    → (A → B)
    → Changes A st chan st'
    → Changes B st chan st'
Changes-map A B st st' chan f (nothing e) = nothing e
Changes-map A B st st' chan f (sets a idx sec b at e) = sets (f a) idx sec b at e
Changes-map A B st st' chan f (queues idx sec dur at e) = queues idx sec dur at e

module _ (p : Payloads) (ch : CharTables) (k : Chrono) where
  -- The message is for no request `set_state`.
  abbrev pub IsQuiet : (prefix_len : ℕ) → Incoming p → Type 0
  IsQuiet n msg =
      (topics : List String) (request_type : String)
      → names (skip (n - 1) msg.topic) ≡ some topics
      → get_elem? topics 2 ≡ some request_type
      → text_eq request_type "set_state" ≡ false

  set_section_state-Changes :
      (st : State) (idx chan : ℕ) (sec : LogSection NoopSection) (r : p.JsonError ⊎ Bool)
      → get_elem? st.sections idx ≡ some sec
      → Changes (Unit {0}) st chan (set_section_state p ch k st idx sec r).1
  unfolding set_section_state
  set_section_state-Changes st idx chan sec (inl e) h = nothing refl
  set_section_state-Changes st idx chan sec (inr b) h = sets tt idx sec b h refl

  run_section_for-Changes :
      (A : Type 0) (st : State) (idx chan : ℕ) (sec : LogSection NoopSection) (r : p.JsonError ⊎ ℕ)
      → get_elem? st.sections idx ≡ some sec
      → Changes A st chan (run_section_for p ch k st idx sec chan r).1
  unfolding run_section_for
  run_section_for-Changes A st idx chan sec (inl e) h = nothing refl
  run_section_for-Changes A st idx chan sec (inr d) h = queues idx sec d h refl

  request-Changes :
      (st : State) (msg : Incoming p) (idx chan : ℕ) (sec : LogSection NoopSection)
      (request_type payload : String)
      → get_elem? st.sections idx ≡ some sec
      → Changes
          (text_eq request_type "set_state" ≡ true)
          st
          chan
          (request p ch k st msg idx sec request_type payload chan).1
  unfolding request
  request-Changes st msg idx chan sec request_type payload h =
      elim (Bool-cases (text_eq request_type "set_state")) [
        | inl set_state ↦ rw set_state (
            Changes-map _ _ _ _ chan (λ _. refl)
              (set_section_state-Changes st idx chan sec (p.bool_from_str payload) h))
        | inr other ↦ elim (Bool-cases (text_eq request_type "run_for")) [
          | inl runs ↦
              rw (other, runs)
                (run_section_for-Changes _ st idx chan sec (p.duration_from_json payload) h)
          | inr neither ↦ rw (other, neither) (nothing refl)
        ]
      ]

  dispatch-Changes :
      (st : State) (msg : Incoming p) (collection : Option String) (idx : Option ℕ)
      (request_type : Option String) (payload : String) (chan : ℕ)
      → Changes
          ((r : String) × (request_type ≡ some r) × (text_eq r "set_state" ≡ true))
          st
          chan
          (dispatch p ch k st msg collection idx request_type payload chan).1
  unfolding dispatch
  dispatch-Changes st msg (some s) (some i) (some r) payload chan =
      elim (Bool-cases (text_eq s "sections")) [
        | inr other ↦ rw other (nothing refl)
        | inl sections ↦ elim (Option-cases (get_elem? st.sections i)) [
          | inl e ↦ rw (sections, e) (nothing refl)
          | inr (sec, e) ↦
              rw (sections, e)
                (Changes-map _ _ _ _ chan (λ asked. (r, refl, asked))
                  (request-Changes st msg i chan sec r payload e))
        ]
      ]
  dispatch-Changes st msg (some s) (some i) none payload chan = nothing refl
  dispatch-Changes st msg (some s) none r payload chan = nothing refl
  dispatch-Changes st msg none i r payload chan = nothing refl

  pub process_msg-Changes :
      (n : ℕ) (st : State) (msg : Incoming p) (chan : ℕ)
      → Changes (¬ IsQuiet n msg) st chan (process_msg p ch k n st msg chan).1
  unfolding process_msg
  process_msg-Changes n st msg chan =
      by_parts (names (skip (n - 1) msg.topic)) (p.from_utf8 msg.payload) refl refl
    where
      by_parts :
          (o : Option (List String)) (u : p.Utf8Error ⊎ String)
          → names (skip (n - 1) msg.topic) ≡ o
          → p.from_utf8 msg.payload ≡ u
          → Changes (¬ IsQuiet n msg) st chan (process_msg p ch k n st msg chan).1
      by_parts none u h e = rw (h, process_msg) (nothing refl)
      by_parts (some ts) (inl x) h e = rw (h, e, process_msg) (nothing refl)
      by_parts (some ts) (inr payload) h e =
          rw (h, e, process_msg)
            (Changes-map _ _ _ _ chan (λ asked quiet. cc (asked.2, quiet ts asked.0 refl asked.1))
              (dispatch-Changes st msg (get_elem? ts 0) (index_of p ch k (get_elem? ts 1))
                (get_elem? ts 2) payload chan))
