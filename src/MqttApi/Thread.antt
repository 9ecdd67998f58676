-- ===== src/MqttApi/Thread.antt =====
-- src/mqtt_api.rs: `MqttApi::run`, the loop of the thread, which connects and then serves the client. In
-- its round `i` the answer to whether `running` is set is `flags i 0`, and `flags i (suc n)` in the round
-- `n` of the loop of `run_on_client` then; of these rounds `messages i` are looked at. The sleep after an
-- error is left out.
use rinklers.Prelude.{
  ℕ, zero, suc, ◌<◌, ◌≡◌, ◌≢◌, refl, inl, inr, Option, none, some, List, Bool, true, false,
  Bool-cases,
}
use rinklers.Util.Durations.Library.{CharTables, Chrono}
use rinklers.MqttApi.{Payloads, State}
use rinklers.MqttApi.Client.{
  Json, Mqttc, LoopEnd, left, crashed, going, Served, Call, then_do, initial_pubs, initial_subs,
  run_initialized, terminated, run_on_client, connect_again,
}
use rinklers.MqttApi.Serving.{message_loop_ends}

module _ (p : Payloads) (j : Json) (q : Mqttc p) (ch : CharTables) (k : Chrono) (prefix : List ℕ)
    (prefix_len : ℕ) where
  open q use {Client, Error}

  -- the thread after some rounds
  pub record Thread : Type 0 where
    pub end : LoopEnd
    pub state : State
    pub client : Option Client
    pub chan : ℕ

  abbrev pub stands : LoopEnd → State → (chan : ℕ) → Option Client → Thread
  stands end st chan client = record { end = end; state = st; client = client; chan = chan }

  -- The loop goes on when `run_on_client` returns.
  abbrev resume : (rest : State → (chan : ℕ) → Option Client → Thread) → Served p j q → Thread
  resume rest r = elim r.end [
    | left ↦ rest r.state r.chan (some r.client)
    | crashed ↦ stands crashed r.state r.chan (some r.client)
    | going ↦ stands going r.state r.chan (some r.client)
  ]

  abbrev with_client :
      (rest : State → (chan : ℕ) → Option Client → Thread)
      → (messages : ℕ) → (flags : ℕ → Bool) → State
      → (chan : ℕ) → Option Client
      → Thread
  with_client rest messages flags st chan none = rest st chan none
  with_client rest messages flags st chan (some c) =
      resume rest (run_on_client p j q ch k prefix prefix_len messages flags st chan c)

  -- `MqttApi::run`, for a number of rounds
  unfoldable pub run_thread :
      (rounds : ℕ)
      → (messages : ℕ → ℕ) → (flags : ℕ → ℕ → Bool) → State
      → (chan : ℕ) → Option Client
      → Thread
  run_thread zero messages flags st chan client = stands going st chan client
  run_thread (suc n) messages flags st chan client = elim (flags 0 0) [
    | false ↦ stands left st chan client
    | true ↦
        with_client (run_thread n (λ i. messages (suc i)) (λ i. flags (suc i))) (messages 0)
          (λ i. flags 0 (suc i)) st chan (connect_again p j q ch k prefix prefix_len client)
  ]

  terminated_ends :
      (r : Served p j q) → r.end ≢ going → (terminated p j q ch k prefix prefix_len r).end ≢ going
  terminated_ends r h = by_end r.end refl
    where
      by_end : (e : LoopEnd) → r.end ≡ e → (terminated p j q ch k prefix prefix_len r).end ≢ going
      by_end left e = rw e (λ x. cc x)
      by_end crashed e = rw e (λ x. cc x)
      by_end going e = absurd (h e)

  -- Serving a client ends in the first round that finds `running` not set, if not before.
  pub run_on_client_ends :
      (messages i : ℕ) (flags : ℕ → Bool) (st : State) (chan : ℕ) (c : Client)
      → i < messages
      → flags i ≡ false
      → (run_on_client p j q ch k prefix prefix_len messages flags st chan c).end ≢ going
  unfolding run_on_client
  run_on_client_ends messages i flags st chan c lt off =
      by_call (then_do p j q (initial_pubs p j q prefix st c) (initial_subs p j q prefix))
    where
      by_call :
          (y : Call p j q)
          → (run_initialized p j q ch k prefix prefix_len messages flags st chan y).end ≢ going
      by_call (inl e, c1) = λ h. cc h
      by_call (inr u, c1) =
          terminated_ends _
            (message_loop_ends p j q ch k prefix prefix_len messages i flags st chan c1 lt off)

  with_client_ends :
      (rest : State → ℕ → Option Client → Thread) (messages : ℕ) (flags : ℕ → Bool) (st : State)
      (chan : ℕ) (client : Option Client)
      → ((st' : State) (chan' : ℕ) (client' : Option Client) → (rest st' chan' client').end ≢ going)
      → ((c : Client)
          → (run_on_client p j q ch k prefix prefix_len messages flags st chan c).end ≢ going)
      → (with_client rest messages flags st chan client).end ≢ going
  with_client_ends rest messages flags st chan none rest_ends ends = rest_ends st chan none
  with_client_ends rest messages flags st chan (some c) rest_ends ends =
      by_end (run_on_client p j q ch k prefix prefix_len messages flags st chan c) _ refl (ends c)
    where
      by_end :
          (x : Served p j q) (e : LoopEnd) → x.end ≡ e → x.end ≢ going → (resume rest x).end ≢ going
      by_end x left e ends = rw e (rest_ends x.state x.chan (some x.client))
      by_end x crashed e ends = rw e (λ h. cc h)
      by_end x going e ends = absurd (ends e)

  -- From any state of the thread at the start of a round: if `running` is found not set in a round `l` of the
  -- loop over the messages, which is one of those looked at, and again when the next round of the thread
  -- starts, the thread ends, whatever the client, the messages and the earlier answers are.
  pub run_thread_ends :
      (rounds l : ℕ) (messages : ℕ → ℕ) (flags : ℕ → ℕ → Bool) (st : State) (chan : ℕ)
      (client : Option Client)
      → l < messages 0
      → flags 0 (suc l) ≡ false
      → flags 1 0 ≡ false
      → (run_thread (suc (suc rounds)) messages flags st chan client).end ≢ going
  unfolding run_thread
  run_thread_ends rounds l messages flags st chan client lt off out =
      elim (Bool-cases (flags 0 0)) [
        | inr off' ↦ rw (run_thread, off') (λ h. cc h)
        | inl on ↦
            rw (run_thread, on)
              (with_client_ends
                (run_thread (suc rounds) (λ i. messages (suc i)) (λ i. flags (suc i))) (messages 0)
                (λ i. flags 0 (suc i)) st chan (connect_again p j q ch k prefix prefix_len client)
                (λ st' chan' client'. rw (run_thread, out) (λ h. cc h))
                (λ c. run_on_client_ends (messages 0) l (λ i. flags 0 (suc i)) st chan c lt off))
      ]
