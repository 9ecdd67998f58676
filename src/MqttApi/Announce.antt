-- ===== src/MqttApi/Announce.antt =====
-- What the client is handed before the loop.
use rinklers.Prelude.{ℕ, ◌+◌, ◌≡◌, inl, inr, List, [], ◌∷◌, ◌++◌, indices_from}
use rinklers.Section.{NoopSection, LogSection, noop_section, log_section}
use rinklers.Config.{from_section}
use rinklers.MqttApi.{Payloads, State}
use rinklers.MqttApi.Index.{codes}
use rinklers.MqttApi.Client.{
  Json, Mqttc, Outgoing, publication, subscription, at_least_once_retained, Call, connected,
  section_topic,
}

module _ (p : Payloads) (j : Json) (q : Mqttc p) (prefix : List ℕ) where
  open q use {Client, Error, send, sent, received, send_lem}

  -- The specification: for each section its configuration and its state, under its index.
  abbrev pub section_pubs : ℕ → List (LogSection NoopSection) → List Outgoing
  section_pubs i [] = []
  section_pubs i (s ∷ ss) =
      publication (section_topic p j q prefix i) (j.section_config (from_section s))
        at_least_once_retained
      ∷ publication (section_topic p j q prefix i ++ codes "/state") (j.bool (log_section.state s))
          at_least_once_retained
      ∷ section_pubs (i + 1) ss

  -- Everything, in order.
  abbrev pub announcements : State → List Outgoing
  announcements st =
      connected p j q prefix (codes "true")
      ∷ publication (prefix ++ codes "sections") (j.indices (indices_from 0 st.sections))
          at_least_once_retained
      ∷ (section_pubs 0 st.sections
          ++ subscription (prefix ++ codes "sections/+/set_state")
            ∷ subscription (prefix ++ codes "sections/+/run_for")
            ∷ [])

  -- A call that succeeds has handed over all of the list, one that fails a part of it from its start.
  abbrev pub HandsOver : Client → List Outgoing → Call p j q → Type 0
  HandsOver c os (inr _, c') = (sent c' ≡ sent c ++ os) × (received c' ≡ received c)
  HandsOver c os (inl e, c') =
      (first : List Outgoing) × (others : List Outgoing) × (os ≡ first ++ others)
      × (sent c' ≡ sent c ++ first)
      × (received c' ≡ received c)
