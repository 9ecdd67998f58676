-- ===== src/MqttApi/Topics.antt =====
-- src/mqtt_api.rs: the topic of a section, as `initial_pubs` announces it and as `process_msg` reads it.
use Prim.Native.String.{String}
use rinklers.Prelude.{
  ℕ, ◌-◌, ◌<◌, ◌≡◌, refl, ◌∙◌, inr, some, List, [], ◌∷◌, ◌++◌, Bool, true, ltb, ◌==◌, if◌then◌else◌,
  done, get_elem?, arith,
}
use rinklers.Section.{NoopSection, LogSection, log_section, noop_section}
use rinklers.Util.Durations.Library.{CharTables, Chrono}
use rinklers.Util.Durations.{to_string}
use rinklers.MqttApi.{
  from_str_radix, normal, names, skip, Payloads, State, setting_state, accepted, Incoming,
  process_msg,
}
use rinklers.MqttApi.Index.{codes, usize_bound, from_str_radix-to_string}
use rinklers.MqttApi.Client.{Json, Mqttc, section_topic}
use rinklers.MqttApi.Requests.{Addresses, set_state-sets}

append-cancel : {A : Type 0} (l a b : List A) → l ++ a ≡ l ++ b → a ≡ b
append-cancel [] a b h = h
append-cancel (x ∷ l) a b h = append-cancel l a b (cc h)

module _ (p : Payloads) (j : Json) (q : Mqttc p) (ch : CharTables) (k : Chrono) where
  open p use {from_utf8, bool_from_str}

  -- what stands for the index in the announced topic of a section is read as the index
  announced_index :
      (prefix : List ℕ) (i : ℕ) (idx_str : String)
      → section_topic p j q prefix i ≡ prefix ++ (codes "sections/" ++ codes idx_str)
      → i < usize_bound
      → from_str_radix idx_str ≡ some i
  announced_index prefix i idx_str announced lt =
      let printed : to_string i ≡ codes idx_str =
        append-cancel (codes "sections/") _ _ (append-cancel prefix _ _ announced) in
      let fits : ltb i usize_bound ≡ true = ground (arith, lt) in
      from_str_radix-to_string idx_str i (cc printed) ∙ rw fits refl

  -- A section has an index below 2^64, and its announced topic is the prefix, `sections/` and a level without
  -- more. A message whose levels behind the prefix are `sections`, that level and `set_state`, with a
  -- payload that reads as a Boolean value, sets the state of this section and of no other, and is accepted
  -- under the section's name.
  pub announced-sets :
      (n : ℕ) (prefix : List ℕ) (st : State) (msg : Incoming p) (idx_str payload : String)
      (i chan : ℕ) (sec : LogSection NoopSection) (b : Bool)
      → section_topic p j q prefix i ≡ prefix ++ (codes "sections/" ++ codes idx_str)
      → i < usize_bound
      → skip (n - 1) msg.topic ≡ normal "sections" ∷ normal idx_str ∷ normal "set_state" ∷ []
      → get_elem? st.sections i ≡ some sec
      → from_utf8 msg.payload ≡ inr payload
      → bool_from_str payload ≡ inr b
      → let r = process_msg p ch k n st msg chan in
        (r.0 ≡ done (accepted (setting_state (log_section.name sec) b)))
        × ((l : ℕ)
            → get_elem? r.1.sections l
              ≡ (if i == l then some (log_section.set_state sec b) else get_elem? st.sections l))
  unfolding names
  announced-sets n prefix st msg idx_str payload i chan sec b announced lt levels found text read =
      let a : Addresses p ch k n st msg "set_state" payload i sec = record {
        idx_str = idx_str;
        rest = [];
        more = [];
        levels = levels;
        all_normal = refl;
        index = announced_index prefix i idx_str announced lt;
        found = found;
        text = text;
      } in
      let sets = set_state-sets p ch k n st msg payload i chan sec b a read in (sets.0, sets.2)
