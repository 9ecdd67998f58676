-- ===== src/MqttApi.antt =====
-- src/mqtt_api.rs: what a message does. The libraries that read and print are the record `Payloads`, and
-- a topic comes as mqttc's list of its levels. A reply's text is kept as its parts; `trace!` is left out.
-- What the thread does with its client is in Client and Thread.
pub mod Index
pub mod Topics
pub mod Responses
pub mod Client
pub mod Serving
pub mod Thread
pub mod Announce
pub mod Storage
pub mod Changes
pub mod Lifecycle
pub mod Requests
pub mod ClientExamples
pub mod Examples
use Prim.Native.Nat.{Ordering}
use Prim.Native.Char.{Char, code}
use Prim.Native.String.{String}
use Prim.Native.String
use rinklers.Prelude.{
  ℕ, zero, suc, ◌+◌, ◌*◌, ◌-◌, ◌⊎◌, inl, inr, Option, none, some, List, [], ◌∷◌, Bool, true, false,
  ltb, leb, ◌==◌, ◌&&◌, if◌then◌else◌, Outcome, done, panicked, get_elem?, set,
}
use rinklers.Section.{Section, NoopSection, LogSection, noop_section, log_section}
use rinklers.SectionRunner.{RunnerData, run_section}
use rinklers.Util.Durations.Library.{CharTables, Chrono}
use rinklers.Util.Durations.{duration_string}

-- the texts' `==`
abbrev pub text_eq : String → String → Bool
text_eq s t = elim (String.compare s t) [ Ordering.eq ↦ true | _ ↦ false ]

-- `usize::from_str_radix(_, 10)`, on 64 bits, from a number read so far
unfoldable pub read_digits : String → ℕ → Option ℕ
read_digits String.[] n = some n
read_digits (String.◌∷◌ c s) n =
    let rest = read_digits s (n * 10 + (code c - 48)) in
    if leb 48 (code c) && leb (code c) 57
    then (if ltb (n * 10 + (code c - 48)) 18446744073709551616 then rest else none)
    else none

-- behind a plus sign there is a digit
abbrev pub some_digits : String → Option ℕ
some_digits String.[] = none
some_digits (String.◌∷◌ c s) = read_digits (String.◌∷◌ c s) 0

abbrev pub from_str_radix : String → Option ℕ
from_str_radix String.[] = none
from_str_radix (String.◌∷◌ c s) =
    if code c == 43 then some_digits s else read_digits (String.◌∷◌ c s) 0

-- a level of a topic; of the wildcards and the empty levels only that they are not normal
pub data Topic : Type 0 where
  normal : String → Topic
  other : Topic

-- `str::from_utf8`, and serde_json's reading of a `bool` and of a `Duration`, in nanoseconds
pub record Payloads : Type 1 where
  pub Bytes : Type 0
  pub Utf8Error : Type 0
  pub JsonError : Type 0
  pub from_utf8 : Bytes → Utf8Error ⊎ String
  pub bool_from_str : String → JsonError ⊎ Bool
  pub duration_from_json : String → JsonError ⊎ ℕ
  -- the texts of errors, and of a topic
  pub utf8_error_text : Utf8Error → List ℕ
  pub json_error_text : JsonError → List ℕ
  pub path : List Topic → List ℕ

pub data ResponseCode : Type 0 where
  success invalid_path_code invalid_payload_utf8_code invalid_payload_json_code
        section_not_found_code :
      ResponseCode

-- the discriminants of `ResponseCode`
abbrev pub number : ResponseCode → ℕ
number success = 1000
number invalid_path_code = 2000
number invalid_payload_utf8_code = 2001
number invalid_payload_json_code = 2002
number section_not_found_code = 2003

-- an `ApiResponse`, by the parts of its text
pub data Message : Type 0 where
  setting_state : (name : String) → Bool → Message
  running : (name : String) → (duration : List ℕ) → Message

-- what a message can change of the state of src/main.rs; a section is known by its index
pub record State : Type 0 where
  pub sections : List (LogSection NoopSection)
  pub section_runner : RunnerData

-- the levels behind the prefix, if all are normal
unfoldable pub names : List Topic → Option (List String)
names [] = some []
names (other ∷ ts) = none
names (normal s ∷ ts) = elim (names ts) [ none ↦ none | some ss ↦ some (s ∷ ss) ]

abbrev pub skip : ℕ → List Topic → List Topic
skip zero ts = ts
skip (suc n) [] = []
skip (suc n) (t ∷ ts) = skip n ts

module _ (p : Payloads) where
  open p use {Bytes, Utf8Error, JsonError, from_utf8, bool_from_str, duration_from_json}

  pub data ApiError : Type 0 where
    invalid_path : List Topic → ApiError
    invalid_payload_utf8 : Utf8Error → ApiError
    invalid_payload_json : JsonError → String → ApiError
    section_not_found : ℕ → ApiError

  abbrev pub as_code : ApiError → ResponseCode
  as_code (invalid_path _) = invalid_path_code
  as_code (invalid_payload_utf8 _) = invalid_payload_utf8_code
  as_code (invalid_payload_json _ _) = invalid_payload_json_code
  as_code (section_not_found _) = section_not_found_code

  -- `Result<ApiResponse, ApiError>`
  pub data Reply : Type 0 where
    accepted : Message → Reply
    rejected : ApiError → Reply

  pub record Incoming : Type 0 where
    pub topic : List Topic
    pub payload : Bytes

  -- the reply or a panic, and the state
  abbrev pub Processed : Type 0
  Processed = Outcome Reply × State

  module _ (ch : CharTables) (k : Chrono) where
    -- the case "set_state"
    unfoldable pub set_section_state :
        State → ℕ → LogSection NoopSection → JsonError ⊎ Bool → Processed
    set_section_state st idx sec (inl e) =
        (done (rejected (invalid_payload_json e "set_state")), st)
    set_section_state st idx sec (inr b) = (
      done (accepted (setting_state (log_section.name sec) b)),
      record st { sections = set st.sections idx (log_section.set_state sec b) },
    )

    abbrev pub run_reply : LogSection NoopSection → Outcome (List ℕ) → Outcome Reply
    run_reply sec (done text) = done (accepted (running (log_section.name sec) text))
    run_reply sec panicked = panicked

    -- the case "run_for"; `chan` is a new channel
    unfoldable pub run_section_for :
        State → ℕ → LogSection NoopSection → (chan : ℕ) → JsonError ⊎ ℕ → Processed
    run_section_for st idx sec chan (inl e) =
        (done (rejected (invalid_payload_json e "run_for")), st)
    run_section_for st idx sec chan (inr duration) = (
      run_reply sec (duration_string ch k duration),
      record st { section_runner = run_section st.section_runner idx duration chan },
    )

    -- the `match` on the request type
    unfoldable pub request :
        State
        → Incoming
        → ℕ
        → LogSection NoopSection
        → String
        → (payload : String) (chan : ℕ) → Processed
    unfolding set_section_state run_section_for
    request st msg idx sec request_type payload chan =
        if text_eq request_type "set_state"
        then set_section_state st idx sec (bool_from_str payload)
        else if text_eq request_type "run_for"
        then run_section_for st idx sec chan (duration_from_json payload)
        else (done (rejected (invalid_path msg.topic)), st)

    -- the `match` on the collection, the index and the request type
    unfoldable pub dispatch :
        State
        → Incoming
        → Option String
        → Option ℕ
        → Option String
        → (payload : String) (chan : ℕ) → Processed
    unfolding request
    dispatch st msg (some collection) (some idx) (some request_type) payload chan =
        if text_eq collection "sections"
        then (elim (get_elem? st.sections idx) [
          | none ↦ (done (rejected (section_not_found idx)), st)
          | some sec ↦ request st msg idx sec request_type payload chan
        ])
        else (done (rejected (invalid_path msg.topic)), st)
    dispatch st msg (some collection) (some idx) none payload chan =
        (done (rejected (invalid_path msg.topic)), st)
    dispatch st msg (some collection) none request_type payload chan =
        (done (rejected (invalid_path msg.topic)), st)
    dispatch st msg none idx request_type payload chan =
        (done (rejected (invalid_path msg.topic)), st)

    abbrev pub index_of : Option String → Option ℕ
    index_of none = none
    index_of (some s) = from_str_radix s

    -- `process_msg`; `prefix_len` is the number of levels of the prefix, at least 1
    unfoldable pub process_msg : (prefix_len : ℕ) → State → Incoming → (chan : ℕ) → Processed
    unfolding dispatch names
    process_msg prefix_len st msg chan = elim (names (skip (prefix_len - 1) msg.topic)) [
      | none ↦ (done (rejected (invalid_path msg.topic)), st)
      | some topics ↦ elim (from_utf8 msg.payload) [
        | inl e ↦ (done (rejected (invalid_payload_utf8 e)), st)
        | inr payload ↦
            dispatch st msg (get_elem? topics 0) (index_of (get_elem? topics 1))
              (get_elem? topics 2) payload chan
      ]
    ]
