-- ===== src/MqttApi/ClientExamples.antt =====
-- A client that can send a number of messages more, and that has messages yet to give.
use rinklers.Prelude.{
  ℕ, zero, suc, ◌≡◌, ◌≢◌, ◌⊎◌, refl, inl, inr, Option, none, some, List, [], ◌∷◌, ◌++◌, Bool, true,
  false, ltb, if◌then◌else◌, arith, done, get_elem?, ◌==◌,
}
use rinklers.Util.Durations.{digits, to_string, duration_string}
use rinklers.Util.Durations.Examples.{ascii, lengths}
use rinklers.MqttApi.{names, setting_state, accepted, Incoming, read_digits, process_msg}
use rinklers.MqttApi.Topics.{announced-sets}
use rinklers.Section.{log_section, noop_section}
use rinklers.MqttApi.Examples.{simple, two_sections, to_beds, beds}
use rinklers.MqttApi.Index.{codes}
use rinklers.MqttApi.Client.{
  Outgoing, Json, Mqttc, going, crashed, publication, exactly_once, take_in, message_loop,
}
use rinklers.MqttApi.Serving.{Accounted, message_loop-Accounted}
use rinklers.MqttApi.Thread.{run_thread, run_thread_ends}
use rinklers.MqttApi.Storage.{
  StoredMessage, new_storage, stored, not_found, puts, deletes, store_calls, get, get-put,
  LocalStorage,
}

abbrev texts : Json
texts = record {
  indices = λ is. is;
  section_config = λ s. codes s.name;
  bool = λ b. if b then codes "true" else codes "false";
  response = λ r. to_string r.code;
}

record Wire : Type 0 where
  sent : List Outgoing
  received : List (Incoming simple)
  room : ℕ
  inbox : List (Incoming simple)

abbrev send_in : ℕ → Wire → Outgoing → (Unit {0} ⊎ Unit {0}) × Wire
send_in zero c o = (inl tt, c)
send_in (suc room) c o = (inr tt, record c { sent = c.sent ++ o ∷ []; room = room })

abbrev await_from : List (Incoming simple) → Wire → (Unit {0} ⊎ Option (Incoming simple)) × Wire
await_from [] c = (inr none, c)
await_from (m ∷ ms) c = (inr (some m), record c { received = c.received ++ m ∷ []; inbox = ms })

abbrev wired : Mqttc simple
wired = record {
  Client = Wire;
  Error = Unit;
  sent = λ c. c.sent;
  received = λ c. c.received;
  connect = λ o. inr (record { sent = []; received = []; room = 100; inbox = [] });
  reconnect = λ c. (inr tt, c);
  send = λ c o. send_in c.room c o;
  await = λ c. await_from c.inbox c;
  terminate = λ c. c;
  send_lem = λ c o. sends c.room c o;
  await_lem = λ c. awaits c.inbox c;
}
  where
    sends :
        (n : ℕ) (c : Wire) (o : Outgoing)
        → let (r, c') = send_in n c o in
          (c'.sent ≡ elim r [ inl _ ↦ c.sent | inr _ ↦ c.sent ++ o ∷ [] ])
          × (c'.received ≡ c.received)
    sends zero c o = (refl, refl)
    sends (suc n) c o = (refl, refl)

    awaits :
        (ms : List (Incoming simple)) (c : Wire)
        → let (r, c') = await_from ms c in
          (c'.sent ≡ c.sent)
          × (c'.received ≡ elim r [
            | inl _ ↦ c.received
            | inr none ↦ c.received
            | inr (some m) ↦ c.received ++ m ∷ []
          ])
    awaits [] c = (refl, refl)
    awaits (m ∷ ms) c = (refl, refl)

-- The first request is answered, the second has a path that is not known, and the third panics.
abbrev busy : Wire
busy = record {
  sent = [];
  received = [];
  room = 5;
  inbox =
      to_beds "set_state" "true"
      ∷ to_beds "open" ""
      ∷ to_beds "run_for" "10000000000000000000"
      ∷ [];
}

message_loop-Accounted_example :
    let r =
      message_loop simple texts wired ascii lengths
        (codes "rinklers/")
        2
        4
        (λ i. true)
        two_sections
        7
        busy in
    Accounted simple texts wired ascii lengths
      (codes "rinklers/")
      2
      r.end
      two_sections
      7
      busy
      r.state
      r.client
message_loop-Accounted_example =
    message_loop-Accounted simple texts wired ascii lengths (codes "rinklers/") 2 4 (λ i. true)
      two_sections 7 busy

-- `running` is set in one round of the thread, and there in two rounds of the loop over the messages.
abbrev unset_soon : ℕ → ℕ → Bool
unset_soon zero l = ltb l 3
unset_soon (suc i) l = false

run_thread_ends_example :
    (run_thread simple texts wired ascii lengths
      (codes "rinklers/")
      2
      2
      (λ i. 5)
      unset_soon
      two_sections
      7
      none).end
    ≢ going
run_thread_ends_example =
    run_thread_ends simple texts wired ascii lengths (codes "rinklers/") 2 0 2 (λ i. 5) unset_soon
      two_sections 7 none (omega arith) refl refl

announced-sets_example :
    let r = process_msg simple ascii lengths 2 two_sections (to_beds "set_state" "true") 7 in
    (r.0 ≡ done (accepted (setting_state "beds" true)))
    × ((l : ℕ)
        → get_elem? r.1.sections l ≡ (
            if 1 == l
            then some (log_section.set_state beds true)
            else get_elem? two_sections.sections l))
unfolding digits names
announced-sets_example =
    announced-sets simple texts wired ascii lengths 2 (codes "rinklers/") two_sections
      (to_beds "set_state" "true") "1" "true" 1 7 beds true refl (omega arith) refl refl refl refl

abbrev third : StoredMessage ℕ
third = record { pid = some 3; rest = 50 }

abbrev fourth : StoredMessage ℕ
fourth = record { pid = some 4; rest = 60 }

put_and_deleted :
    (s1 : LocalStorage ℕ) × (s2 : LocalStorage ℕ) × (store_calls ℕ
        (new_storage ℕ)
        (puts third ∷ puts fourth ∷ [])
      ≡ done s1)
    × (get ℕ s1 3 ≡ stored third)
    × (store_calls ℕ s1 (deletes 3 ∷ deletes 4 ∷ []) ≡ done s2)
    × (get ℕ s2 3 ≡ not_found 3)
put_and_deleted =
    get-put ℕ (new_storage ℕ) third 3 (puts fourth ∷ []) (deletes 4 ∷ []) refl ((4, refl, refl), tt)
      (refl, tt)

-- The two replies of these rounds; the third one crashes.
two_replies_and_a_crash :
    let r =
      message_loop simple texts wired ascii lengths
        (codes "rinklers/")
        2
        4
        (λ i. true)
        two_sections
        7
        busy in
    (r.end ≡ crashed)
    × (r.client.sent
        ≡ publication (codes "rinklers/responses") (codes "1000") exactly_once
          ∷ publication (codes "rinklers/responses") (codes "2000") exactly_once
          ∷ [])
unfolding message_loop process_msg take_in read_digits duration_string digits
two_replies_and_a_crash = (refl, refl)
