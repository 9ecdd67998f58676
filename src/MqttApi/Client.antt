-- ===== src/MqttApi/Client.antt =====
-- src/mqtt_api.rs: what the thread does with its client. mqttc's client is the record `Mqttc`; JSON texts
-- are the record `Json`. A text is the list of its code points. Whether `running` is still set is asked
-- once in each round of a loop, and the answers are the argument `flags`. Logging is left out.
use rinklers.Prelude.{
  ℕ, zero, suc, ◌+◌, ◌≡◌, ◌⊎◌, inl, inr, Option, none, some, List, [], ◌∷◌, ◌++◌, Bool, true, false,
  done, panicked, indices_from,
}
use rinklers.Section.{NoopSection, LogSection, noop_section, log_section}
use rinklers.Config.{SectionConfig, from_section}
use rinklers.Util.Durations.{to_string}
use rinklers.Util.Durations.Library.{CharTables, Chrono}
use rinklers.MqttApi.{Payloads, State, Incoming, Reply, Processed, process_msg}
use rinklers.MqttApi.Index.{codes}
use rinklers.MqttApi.Responses.{ApiResponseData, response_data}

-- `PubOpt::at_least_once() | PubOpt::retain()`, and `PubOpt::exactly_once()`
pub data PubOpt : Type 0 where
  at_least_once_retained : PubOpt
  exactly_once : PubOpt

-- what is handed to the client: a publication, or a subscription, for which only `QoS::ExactlyOnce` is used
pub data Outgoing : Type 0 where
  publication : (topic data' : List ℕ) → PubOpt → Outgoing
  subscription : (topic : List ℕ) → Outgoing

-- the options of `init_client`: the last will, which is published as the initial publications are, the
-- clean session, and the store, which is `LocalStorage`
pub record ClientOptions : Type 0 where
  pub last_will : Outgoing
  pub clean_session : Bool

-- how the loop of `run_on_client` ends: by the flag or an error of the client, by a panic, or, in the
-- rounds that are looked at, not at all
pub data LoopEnd : Type 0 where
  left crashed going : LoopEnd

-- the texts of `serde_json::to_string`
pub record Json : Type 0 where
  pub indices : List ℕ → List ℕ
  pub section_config : SectionConfig → List ℕ
  pub bool : Bool → List ℕ
  pub response : ApiResponseData → List ℕ

-- mqttc's client. `sent` and `received` are what it has taken from its user and given to it so far,
-- oldest first; a call that fails has taken nothing.
-- `connect` stands for the whole of `init_client`'s calls, `set_last_will` included, any of which may fail.
pub record Mqttc (p : Payloads) : Type 1 where
  pub Client : Type 0
  pub Error : Type 0
  pub sent : Client → List Outgoing
  pub received : Client → List (Incoming p)
  pub connect : ClientOptions → Error ⊎ Client
  pub reconnect : Client → (Error ⊎ Unit {0}) × Client
  -- `publish` and `subscribe`
  pub send : Client → Outgoing → (Error ⊎ Unit {0}) × Client
  pub await : Client → (Error ⊎ Option (Incoming p)) × Client
  pub terminate : Client → Client
  pub send_lem :
      (c : Client) (o : Outgoing)
      → let (r, c') = send c o in
        (sent c' ≡ elim r [ inl _ ↦ sent c | inr _ ↦ sent c ++ o ∷ [] ])
        × (received c' ≡ received c)
  pub await_lem :
      (c : Client)
      → let (r, c') = await c in
        (sent c' ≡ sent c)
        × (received c' ≡ elim r [
          | inl _ ↦ received c
          | inr none ↦ received c
          | inr (some m) ↦ received c ++ m ∷ []
        ])

module _ (p : Payloads) (j : Json) (q : Mqttc p) where
  open q use {Client, Error, connect, reconnect, send, await, terminate}

  -- a call on the client that may fail
  abbrev pub Call : Type 0
  Call = (Error ⊎ Unit {0}) × Client

  abbrev pub then_do : Call → (Client → Call) → Call
  then_do (inl e, c) f = (inl e, c)
  then_do (inr _, c) f = f c

  abbrev pub connected : (prefix data' : List ℕ) → Outgoing
  connected prefix data' = publication (prefix ++ codes "connected") data' at_least_once_retained

  -- `init_client`
  unfoldable pub init_client : (prefix : List ℕ) → Error ⊎ Client
  init_client prefix =
      connect (record { last_will = connected prefix (codes "false"); clean_session = true })

  abbrev pub section_topic : (prefix : List ℕ) → ℕ → List ℕ
  section_topic prefix i = prefix ++ (codes "sections/" ++ to_string i)

  -- the loop of `initial_pubs` over the sections, from the index `i` on
  unfoldable pub publish_sections :
      (prefix : List ℕ) → ℕ → List (LogSection NoopSection) → Client → Call
  publish_sections prefix i [] c = (inr tt, c)
  publish_sections prefix i (s ∷ ss) c =
      then_do
        (send c (
          publication (section_topic prefix i) (j.section_config (from_section s))
            at_least_once_retained))
        (λ c1.
          then_do
            (send c1 (
              publication (section_topic prefix i ++ codes "/state") (j.bool (log_section.state s))
                at_least_once_retained))
            (λ c2. publish_sections prefix (i + 1) ss c2))

  unfoldable pub initial_pubs : (prefix : List ℕ) → State → Client → Call
  initial_pubs prefix st c = then_do (send c (connected prefix (codes "true"))) (λ c1.
      then_do
        (send c1 (
          publication (prefix ++ codes "sections") (j.indices (indices_from 0 st.sections))
            at_least_once_retained))
        (λ c2. publish_sections prefix 0 st.sections c2))

  unfoldable pub initial_subs : (prefix : List ℕ) → Client → Call
  initial_subs prefix c =
      then_do (send c (subscription (prefix ++ codes "sections/+/set_state")))
        (λ c1. send c1 (subscription (prefix ++ codes "sections/+/run_for")))

  -- `chan` is the next channel that is new.
  pub record Served : Type 0 where
    pub end : LoopEnd
    pub state : State
    pub client : Client
    pub chan : ℕ

  -- the publication of a response
  abbrev pub response : (prefix : List ℕ) → Reply p → Outgoing
  response prefix r =
      publication (prefix ++ codes "responses") (j.response (response_data p r)) exactly_once

  -- `publish` is unwrapped.
  abbrev pub unwrapped : State → (chan : ℕ) → Call → Served
  unwrapped st chan (inl e, c) = record { end = crashed; state = st; client = c; chan = chan }
  unwrapped st chan (inr _, c) = record { end = going; state = st; client = c; chan = chan }

  abbrev pub reply_to : (prefix : List ℕ) → (chan : ℕ) → Client → Processed p → Served
  reply_to prefix chan c (panicked, st) = record {
    end = crashed;
    state = st;
    client = c;
    chan = chan;
  }
  reply_to prefix chan c (done r, st) = unwrapped st chan (send c (response prefix r))

  module _ (ch : CharTables) (k : Chrono) (prefix : List ℕ) (prefix_len : ℕ) where
    -- what the loop of `run_on_client` does with the result of `await`
    unfoldable pub take_in : State → (chan : ℕ) → (Error ⊎ Option (Incoming p)) × Client → Served
    take_in st chan (inl e, c) = record { end = left; state = st; client = c; chan = chan }
    take_in st chan (inr none, c) = record { end = going; state = st; client = c; chan = chan }
    take_in st chan (inr (some m), c) =
        reply_to prefix (chan + 1) c (process_msg p ch k prefix_len st m chan)

    abbrev pub proceed : (rest : State → ℕ → Client → Served) → Served → Served
    proceed rest r = elim r.end [ going ↦ rest r.state r.chan r.client | left ↦ r | crashed ↦ r ]

    -- the loop of `run_on_client`, for a number of rounds; `flags` says whether `running` is set
    unfoldable pub message_loop :
        (rounds : ℕ) → (flags : ℕ → Bool) → State → (chan : ℕ) → Client → Served
    message_loop zero flags st chan c = record { end = going; state = st; client = c; chan = chan }
    message_loop (suc n) flags st chan c = elim (flags 0) [
      | false ↦ record { end = left; state = st; client = c; chan = chan }
      | true ↦ proceed (message_loop n (λ i. flags (suc i))) (take_in st chan (await c))
    ]

    abbrev pub terminated : Served → Served
    terminated r = elim r.end [
      | left ↦ record r { client = terminate r.client }
      | crashed ↦ r
      | going ↦ r
    ]

    abbrev pub run_initialized :
        (rounds : ℕ) → (flags : ℕ → Bool) → State → (chan : ℕ) → Call → Served
    run_initialized rounds flags st chan (inl e, c) = record {
      end = left;
      state = st;
      client = c;
      chan = chan;
    }
    run_initialized rounds flags st chan (inr _, c) =
        terminated (message_loop rounds flags st chan c)

    unfoldable pub run_on_client :
        (rounds : ℕ) → (flags : ℕ → Bool) → State → (chan : ℕ) → Client → Served
    unfolding message_loop initial_pubs initial_subs
    run_on_client rounds flags st chan c =
        run_initialized rounds flags st chan
          (then_do (initial_pubs prefix st c) (initial_subs prefix))

    -- the `match` of `MqttApi::run`; after an error the thread sleeps
    unfoldable pub connect_again : Option Client → Option Client
    unfolding init_client
    connect_again none = elim (init_client prefix) [ inl e ↦ none | inr c ↦ some c ]
    connect_again (some c) = some (reconnect c).1
