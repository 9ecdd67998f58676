-- ===== src/MqttApi/Examples.antt =====
-- Messages to two sections; a payload is a text, and JSON of it a number of seconds or a Boolean value.
use Prim.Native.String.{String}
use rinklers.Prelude.{
  ℕ, ◌*◌, ◌≡◌, refl, inl, inr, none, some, List, [], ◌∷◌, true, false, ◌==◌, if◌then◌else◌, done,
  panicked, get_elem?, arith,
}
use rinklers.Section.{NoopSection, LogSection, log_section, noop_section}
use rinklers.SectionRunner.{run_section}
use rinklers.Util.Durations.{duration_from_str, ok}
use rinklers.Util.Durations.Examples.{ascii, lengths}
use rinklers.MqttApi.{
  normal, Payloads, State, Incoming, setting_state, running, accepted, rejected, invalid_path,
  read_digits, from_str_radix, text_eq, process_msg, names,
}
use rinklers.MqttApi.Responses.{response_data}
use rinklers.MqttApi.Requests.{
  Addresses, IsError, set_state-sets, run_for-queues, run_for-panics, rejected_unchanged,
}

abbrev pub simple : Payloads
simple = record {
  Bytes = String;
  Utf8Error = Unit;
  JsonError = Unit;
  from_utf8 = λ s. inr s;
  bool_from_str =
      λ s. if text_eq s "true" then inr true else (if text_eq s "false" then inr false else inl tt);
  duration_from_json =
      λ s. elim (from_str_radix s) [ none ↦ inl tt | some n ↦ inr (n * 1000000000) ];
  utf8_error_text = λ e. [];
  json_error_text = λ e. [];
  path = λ topic. [];
}

abbrev lawn : LogSection NoopSection
lawn = record { section = record { name = "lawn"; state = false } }

abbrev pub beds : LogSection NoopSection
beds = record { section = record { name = "beds"; state = false } }

abbrev pub two_sections : State
two_sections = record {
  sections = lawn ∷ beds ∷ [];
  section_runner = record { quit = false; queue = [] };
}

-- to rinklers/sections/1/..., behind the prefix of two levels
abbrev pub to_beds : String → String → Incoming simple
to_beds request_type payload = record {
  topic = normal "rinklers" ∷ normal "sections" ∷ normal "1" ∷ normal request_type ∷ [];
  payload = payload;
}

abbrev to_beds-Addresses :
    (request_type payload : String)
    → Addresses simple ascii lengths 2 two_sections
        (to_beds request_type payload)
        request_type
        payload
        1
        beds
unfolding names read_digits
to_beds-Addresses request_type payload = record {
  idx_str = "1";
  rest = [];
  more = [];
  levels = refl;
  all_normal = refl;
  index = refl;
  found = refl;
  text = refl;
}

set_state-sets_example :
    let r = process_msg simple ascii lengths 2 two_sections (to_beds "set_state" "true") 7 in
    let reply = accepted (setting_state "beds" true) in
    (r.0 ≡ done reply)
    × ((response_data simple reply).code ≡ 1000)
    × ((j : ℕ)
        → get_elem? r.1.sections j ≡ (
            if 1 == j
            then some (log_section.set_state beds true)
            else get_elem? two_sections.sections j))
    × (r.1.section_runner ≡ two_sections.section_runner)
set_state-sets_example =
    set_state-sets simple ascii lengths 2 two_sections (to_beds "set_state" "true") "true" 1 7 beds
      true (to_beds-Addresses "set_state" "true") refl

run_for-queues_example :
    let r = process_msg simple ascii lengths 2 two_sections (to_beds "run_for" "90000") 7 in
    (text : List ℕ) × (r.0 ≡ done (accepted (running "beds" text)))
    × (duration_from_str ascii lengths text ≡ ok 90000000000000)
    × (r.1.section_runner ≡ record (two_sections.section_runner) {
      queue = record { sec = 1; dur = 90000000000000; notification_sender = 7 } ∷ [];
    })
    × (r.1.sections ≡ two_sections.sections)
unfolding read_digits
run_for-queues_example =
    run_for-queues simple ascii lengths 2 two_sections (to_beds "run_for" "90000") "90000" 1 7 beds
      90000000000000 (to_beds-Addresses "run_for" "90000") refl (omega arith)

-- 10^19 seconds are more than 2^63 milliseconds.
run_for-panics_example :
    process_msg simple ascii lengths 2 two_sections (to_beds "run_for" "10000000000000000000") 7 ≡ (
      panicked,
      record two_sections {
        section_runner = run_section two_sections.section_runner 1 10000000000000000000000000000 7;
      },
    )
unfolding read_digits
run_for-panics_example =
    run_for-panics simple ascii lengths 2 two_sections (to_beds "run_for" "10000000000000000000")
      "10000000000000000000" 1 7 beds 10000000000000000000000000000
      (to_beds-Addresses "run_for" "10000000000000000000") refl (omega arith)

rejected_unchanged_example :
    ((process_msg simple ascii lengths 2 two_sections (to_beds "open" "") 7).1 ≡ two_sections)
    × IsError (response_data simple (rejected (invalid_path (to_beds "open" "").topic)))
unfolding process_msg read_digits
rejected_unchanged_example =
    rejected_unchanged simple ascii lengths 2 two_sections (to_beds "open" "") 7
      (invalid_path (to_beds "open" "").topic) refl
