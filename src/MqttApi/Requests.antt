-- ===== src/MqttApi/Requests.antt =====
-- What the requests do, and that a rejected message changes nothing.
use Prim.Native.String.{String}
use rinklers.Prelude.{
  ℕ, ◌-◌, ◌≤◌, ◌<◌, ◌≡◌, ◌⊎◌, refl, inl, inr, Option, none, some, List, [], ◌∷◌, ◌++◌, Bool, true,
  false, ◌==◌, ◌||◌, if◌then◌else◌, Outcome, done, panicked, get_elem?, get_elem?-set, lt-length,
  arith, Bool-cases, Option-cases, Sum-cases,
}
use rinklers.Section.{NoopSection, LogSection, log_section, noop_section}
use rinklers.SectionRunner.{run_section}
use rinklers.Util.Durations.Library.{CharTables, Chrono, max_size, bound}
use rinklers.Util.Durations.{duration_string, duration_from_str, ok}
use rinklers.Util.Durations.RoundTrip.{duration_from_str-duration_string}
use rinklers.MqttApi.{
  text_eq, from_str_radix, Topic, normal, names, skip, Payloads, State, setting_state, running,
  ApiError, invalid_path, invalid_payload_utf8, invalid_payload_json, section_not_found, Reply,
  accepted, rejected, Incoming, Processed, set_section_state, run_section_for, run_reply, request,
  dispatch, index_of, process_msg,
}
use rinklers.MqttApi.Responses.{JsonValue, null, string, ApiResponseData, from_error, response_data}

abbrev pub is_text : JsonValue → Bool
is_text null = false
is_text (string _) = true

-- The code of an error's data is one of those for errors, and tells whether there is a text of a cause.
abbrev pub IsError : ApiResponseData → Type 0
IsError r =
    (2000 ≤ r.code) × (r.code ≤ 2003) × (is_text r.data' ≡ (r.code == 2001) || (r.code == 2002))

module _ (p : Payloads) (ch : CharTables) (k : Chrono) where
  open p use {JsonError, Utf8Error, from_utf8, bool_from_str, duration_from_json}

  -- A message on the topic of a section that there is: the levels behind the prefix are `sections`, the
  -- section's index, the type of the request, and others that are normal.
  pub record Addresses (prefix_len : ℕ) (st : State) (msg : Incoming p)
      (request_type payload : String) (idx : ℕ) (sec : LogSection NoopSection) : Type 0 where
    pub idx_str : String
    pub rest : List Topic
    pub more : List String
    pub levels :
        skip (prefix_len - 1) msg.topic
        ≡ normal "sections" ∷ normal idx_str ∷ normal request_type ∷ rest
    pub all_normal : names rest ≡ some more
    pub index : from_str_radix idx_str ≡ some idx
    pub found : get_elem? st.sections idx ≡ some sec
    pub text : from_utf8 msg.payload ≡ inr payload

  process_msg-request :
      (n : ℕ) (st : State) (msg : Incoming p) (request_type payload : String) (idx chan : ℕ)
      (sec : LogSection NoopSection)
      → Addresses n st msg request_type payload idx sec
      → process_msg p ch k n st msg chan ≡ request p ch k st msg idx sec request_type payload chan
  unfolding process_msg names dispatch
  process_msg-request n st msg request_type payload idx chan sec a =
      rw (process_msg, a.levels, names, a.all_normal, a.text, dispatch, a.index, a.found) refl

  -- A request `set_state` for a section that there is, with a payload that reads as a Boolean value, sets
  -- the state of that section. The other sections and the section runner stay as they are, and the reply
  -- has the code 1000.
  pub set_state-sets :
      (n : ℕ) (st : State) (msg : Incoming p) (payload : String) (idx chan : ℕ)
      (sec : LogSection NoopSection) (b : Bool)
      → Addresses n st msg "set_state" payload idx sec
      → bool_from_str payload ≡ inr b
      → let r = process_msg p ch k n st msg chan in
        let reply = accepted (setting_state (log_section.name sec) b) in
        (r.0 ≡ done reply)
        × ((response_data p reply).code ≡ 1000)
        × ((j : ℕ)
            → get_elem? r.1.sections j
              ≡ (if idx == j then some (log_section.set_state sec b) else get_elem? st.sections j))
        × (r.1.section_runner ≡ st.section_runner)
  unfolding request set_section_state
  set_state-sets n st msg payload idx chan sec b a read =
      rw (process_msg-request n st msg "set_state" payload idx chan sec a, request, read)
        (
          refl,
          refl,
          λ j. get_elem?-set st.sections idx j _ (lt-length st.sections idx a.found),
          refl,
        )

  -- A request `run_for` for a section that there is, with a payload that reads as a duration of less than
  -- 2^63 nanoseconds, puts the section and the duration at the end of the section runner's queue. No
  -- section's state changes, and the reply names the section with a text that reads as the duration.
  pub run_for-queues :
      (n : ℕ) (st : State) (msg : Incoming p) (payload : String) (idx chan : ℕ)
      (sec : LogSection NoopSection) (duration : ℕ)
      → Addresses n st msg "run_for" payload idx sec
      → duration_from_json payload ≡ inr duration
      → duration < bound
      → let r = process_msg p ch k n st msg chan in
        (text : List ℕ) × (r.0 ≡ done (accepted (running (log_section.name sec) text)))
        × (duration_from_str ch k text ≡ ok duration)
        × (r.1.section_runner ≡ record (st.section_runner) {
          queue =
              st.section_runner.queue
              ++ record { sec = idx; dur = duration; notification_sender = chan } ∷ [];
        })
        × (r.1.sections ≡ st.sections)
  unfolding request run_section_for run_section
  run_for-queues n st msg payload idx chan sec duration a read short =
      let (text, made, back) = duration_from_str-duration_string ch k duration short in
      rw
        (
          process_msg-request n st msg "run_for" payload idx chan sec a,
          request,
          read,
          run_section_for,
          made,
        )
        (text, refl, back, refl, refl)

  -- A request `run_for` for a section that there is, with a duration of more than chrono's greatest,
  -- panics after it has queued the run.
  pub run_for-panics :
      (n : ℕ) (st : State) (msg : Incoming p) (payload : String) (idx chan : ℕ)
      (sec : LogSection NoopSection) (duration : ℕ)
      → Addresses n st msg "run_for" payload idx sec
      → duration_from_json payload ≡ inr duration
      → max_size < duration
      → process_msg p ch k n st msg chan
        ≡ (panicked, record st { section_runner = run_section st.section_runner idx duration chan })
  unfolding request run_section_for duration_string
  run_for-panics n st msg payload idx chan sec duration a read long =
      rw
        (
          process_msg-request n st msg "run_for" payload idx chan sec a,
          request,
          read,
          run_section_for,
          duration_string,
          k.from_std_none duration long,
        )
        refl

  -- The state is the same, if the reply is a rejection.
  abbrev Harmless : State → Processed p → Type 0
  Harmless st r = (e : ApiError p) → r.0 ≡ done (rejected e) → r.1 ≡ st

  harmless : (st : State) (o : Outcome (Reply p)) → Harmless st (o, st)
  harmless st o e h = refl

  set_section_state-Harmless :
      (st : State) (idx : ℕ) (sec : LogSection NoopSection) (j : JsonError ⊎ Bool)
      → Harmless st (set_section_state p ch k st idx sec j)
  unfolding set_section_state
  set_section_state-Harmless st idx sec (inl x) e h = refl
  set_section_state-Harmless st idx sec (inr b) e h = absurd (cc h)

  run_reply_accepts :
      (sec : LogSection NoopSection) (o : Outcome (List ℕ)) (e : ApiError p)
      → ¬ (run_reply p ch k sec o ≡ done (rejected e))
  run_reply_accepts sec (done text) e h = cc h
  run_reply_accepts sec panicked e h = cc h

  run_section_for-Harmless :
      (st : State) (idx : ℕ) (sec : LogSection NoopSection) (chan : ℕ) (j : JsonError ⊎ ℕ)
      → Harmless st (run_section_for p ch k st idx sec chan j)
  unfolding run_section_for
  run_section_for-Harmless st idx sec chan (inl x) e h = refl
  run_section_for-Harmless st idx sec chan (inr d) e h = absurd (run_reply_accepts sec _ e h)

  request-Harmless :
      (st : State) (msg : Incoming p) (idx : ℕ) (sec : LogSection NoopSection)
      (request_type payload : String) (chan : ℕ)
      → Harmless st (request p ch k st msg idx sec request_type payload chan)
  unfolding request
  request-Harmless st msg idx sec request_type payload chan =
      elim (Bool-cases (text_eq request_type "set_state")) [
        | inl is_set ↦ rw is_set (set_section_state-Harmless st idx sec (bool_from_str payload))
        | inr not_set ↦ rw not_set (elim (Bool-cases (text_eq request_type "run_for")) [
          | inl is_run ↦
              rw is_run (run_section_for-Harmless st idx sec chan (duration_from_json payload))
          | inr not_run ↦ rw not_run (λ e h. refl)
        ])
      ]

  dispatch-Harmless :
      (st : State) (msg : Incoming p) (collection : Option String) (idx : Option ℕ)
      (request_type : Option String) (payload : String) (chan : ℕ)
      → Harmless st (dispatch p ch k st msg collection idx request_type payload chan)
  unfolding dispatch
  dispatch-Harmless st msg (some collection) (some idx) (some request_type) payload chan =
      elim (Bool-cases (text_eq collection "sections")) [
        | inl same ↦ rw same (elim (Option-cases (get_elem? st.sections idx)) [
          | inl missing ↦ rw missing (λ e h. refl)
          | inr (sec, found) ↦ rw found (request-Harmless st msg idx sec request_type payload chan)
        ])
        | inr different ↦ rw different (λ e h. refl)
      ]
  dispatch-Harmless st msg (some collection) (some idx) none payload chan = λ e h. refl
  dispatch-Harmless st msg (some collection) none request_type payload chan = λ e h. refl
  dispatch-Harmless st msg none idx request_type payload chan = λ e h. refl

  process_msg-Harmless :
      (n : ℕ) (st : State) (msg : Incoming p) (chan : ℕ)
      → Harmless st (process_msg p ch k n st msg chan)
  unfolding process_msg
  process_msg-Harmless n st msg chan = elim (Option-cases (names (skip (n - 1) msg.topic))) [
    | inl other_levels ↦ rw (process_msg, other_levels) (λ e h. refl)
    | inr (topics, all_normal) ↦
        rw (process_msg, all_normal)
          (elim (Sum-cases (from_utf8 msg.payload)) [
            | inl (x, no_text) ↦ rw no_text (λ e h. refl)
            | inr (payload, text) ↦ rw text (
                dispatch-Harmless st msg (get_elem? topics 0) (index_of p ch k (get_elem? topics 1))
                  (get_elem? topics 2) payload chan)
          ])
  ]

  from_error-IsError : (e : ApiError p) → IsError (from_error p e)
  from_error-IsError (invalid_path t) = (omega arith, omega arith, refl)
  from_error-IsError (invalid_payload_utf8 x) = (omega arith, omega arith, refl)
  from_error-IsError (invalid_payload_json x s) = (omega arith, omega arith, refl)
  from_error-IsError (section_not_found i) = (omega arith, omega arith, refl)

  -- A message that is rejected, for whatever reason, leaves all sections and the section runner as they
  -- are. The data of the response has a code from 2000 to 2003, and the text of a cause exactly if the
  -- code is 2001 or 2002.
  pub rejected_unchanged :
      (n : ℕ) (st : State) (msg : Incoming p) (chan : ℕ) (e : ApiError p)
      → (process_msg p ch k n st msg chan).0 ≡ done (rejected e)
      → ((process_msg p ch k n st msg chan).1 ≡ st) × IsError (response_data p (rejected e))
  rejected_unchanged n st msg chan e h =
      (process_msg-Harmless n st msg chan e h, from_error-IsError e)
