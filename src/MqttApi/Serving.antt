-- ===== src/MqttApi/Serving.antt =====
-- The loop of `run_on_client`: which replies the client is handed for the messages it gives.
use rinklers.Prelude.{
  ℕ, zero, suc, ◌+◌, ◌<◌, ◌≡◌, ◌≢◌, ◌⊎◌, refl, sym, ap, ◌∙◌, inl, inr, Option, none, some, List, [],
  ◌∷◌, ◌++◌, map, Bool, false, Outcome, done, panicked, length, append_assoc, append-nil, arith,
  Bool-cases,
}
use rinklers.Util.Durations.Library.{CharTables, Chrono}
use rinklers.MqttApi.{Payloads, State, Incoming, Reply, Processed, process_msg}
use rinklers.MqttApi.Client.{
  Json, Mqttc, LoopEnd, left, crashed, going, Served, response, unwrapped, reply_to, take_in,
  message_loop, proceed, Call,
}

module _ (p : Payloads) (j : Json) (q : Mqttc p) (ch : CharTables) (k : Chrono) (prefix : List ℕ)
    (prefix_len : ℕ) where
  open q use {Client, Error, send, await, sent, received, send_lem, await_lem}

  -- The specification: the messages processed one after the other, on channels from `chan` on.
  abbrev pub handle_all : State → (chan : ℕ) → List (Incoming p) → List (Outcome (Reply p)) × State
  handle_all st chan [] = ([], st)
  handle_all st chan (m ∷ ms) =
      let (r, st') = process_msg p ch k prefix_len st m chan in
      let (rs, st'') = handle_all st' (chan + 1) ms in (r ∷ rs, st'')

  -- From the client `c` on, the messages `ms` have come in, they have been processed without a panic,
  -- their replies `rs` have been handed over in order and nothing else, and the state is what they leave.
  abbrev pub Replied : State → ℕ → Client → State → Client → Type 0
  Replied st chan c st' c' =
      (ms : List (Incoming p)) × (rs : List (Reply p)) × (handle_all st chan ms
        ≡ (map done rs, st'))
      × (received c' ≡ received c ++ ms)
      × (sent c' ≡ sent c ++ map (response p j q prefix) rs)

  -- The same, and then the message `m` has come in and has been processed, without a reply.
  abbrev pub Broken : State → ℕ → Client → State → Client → Type 0
  Broken st chan c st' c' =
      (ms : List (Incoming p)) × (rs : List (Reply p)) × (m : Incoming p) × (st1 : State)
      × (handle_all st chan ms ≡ (map done rs, st1))
      × (st' ≡ (process_msg p ch k prefix_len st1 m (chan + length ms)).1)
      × (received c' ≡ received c ++ (ms ++ m ∷ []))
      × (sent c' ≡ sent c ++ map (response p j q prefix) rs)

  abbrev pub Accounted : LoopEnd → State → ℕ → Client → State → Client → Type 0
  Accounted left = Replied
  Accounted going = Replied
  Accounted crashed = Broken

  -- A message with its reply comes before the rest.
  Accounted-cons :
      (e : LoopEnd) (st st1 st' : State) (chan : ℕ) (c c1 c' : Client) (m : Incoming p)
      (r : Reply p)
      → process_msg p ch k prefix_len st m chan ≡ (done r, st1)
      → received c1 ≡ received c ++ m ∷ []
      → sent c1 ≡ sent c ++ response p j q prefix r ∷ []
      → Accounted e st1 (chan + 1) c1 st' c'
      → Accounted e st chan c st' c'
  Accounted-cons e st st1 st' chan c c1 c' m r done_r in_m out_r a = by_end e a
    where
      replied : Replied st1 (chan + 1) c1 st' c' → Replied st chan c st' c'
      replied (ms, rs, h, i, o) = (
        m ∷ ms,
        r ∷ rs,
        rw (done_r, h) refl,
        i ∙ ap (λ l. l ++ ms) in_m ∙ append_assoc (received c) (m ∷ []) ms,
        o
            ∙ ap (λ l. l ++ map (response p j q prefix) rs) out_r
            ∙ append_assoc (sent c) (response p j q prefix r ∷ []) (map (response p j q prefix) rs),
      )

      broken : Broken st1 (chan + 1) c1 st' c' → Broken st chan c st' c'
      broken (ms, rs, m', st2, h, e', i, o) = (
        m ∷ ms,
        r ∷ rs,
        m',
        st2,
        rw (done_r, h) refl,
        (let next : chan + 1 + length ms ≡ chan + suc (length ms) = omega arith in rw next at e'),
        i
            ∙ ap (λ l. l ++ (ms ++ m' ∷ [])) in_m
            ∙ append_assoc (received c) (m ∷ []) (ms ++ m' ∷ []),
        o
            ∙ ap (λ l. l ++ map (response p j q prefix) rs) out_r
            ∙ append_assoc (sent c) (response p j q prefix r ∷ []) (map (response p j q prefix) rs),
      )

      by_end : (e : LoopEnd) → Accounted e st1 (chan + 1) c1 st' c' → Accounted e st chan c st' c'
      by_end left = replied
      by_end going = replied
      by_end crashed = broken

  Accounted-skip :
      (e : LoopEnd) (st st' : State) (chan : ℕ) (c c1 c' : Client)
      → received c1 ≡ received c
      → sent c1 ≡ sent c
      → Accounted e st chan c1 st' c'
      → Accounted e st chan c st' c'
  Accounted-skip left st st' chan c c1 c' i o (ms, rs, h, i', o') =
      (ms, rs, h, i' ∙ ap (λ l. l ++ ms) i, o' ∙ ap (λ l. l ++ map (response p j q prefix) rs) o)
  Accounted-skip going st st' chan c c1 c' i o (ms, rs, h, i', o') =
      (ms, rs, h, i' ∙ ap (λ l. l ++ ms) i, o' ∙ ap (λ l. l ++ map (response p j q prefix) rs) o)
  Accounted-skip crashed st st' chan c c1 c' i o (ms, rs, m, st1, h, e', i', o') = (
    ms,
    rs,
    m,
    st1,
    h,
    e',
    i' ∙ ap (λ l. l ++ (ms ++ m ∷ [])) i,
    o' ∙ ap (λ l. l ++ map (response p j q prefix) rs) o,
  )

  nothing : (st : State) (chan : ℕ) (c : Client) → Replied st chan c st c
  nothing st chan c = ([], [], refl, sym (append-nil (received c)), sym (append-nil (sent c)))

  module _ (rest : State → ℕ → Client → Served p j q)
      (rest_lem : (st : State) (chan : ℕ) (c : Client)
        → Accounted
            (rest st chan c).end
            st
            chan
            c
            (rest st chan c).state
            (rest st chan c).client) where
    abbrev Goes : State → ℕ → Client → Served p j q → Type 0
    Goes st chan c r =
        let r' = proceed p j q ch k prefix prefix_len rest r in
        Accounted r'.end st chan c r'.state r'.client

    sent-Goes :
        (st st1 : State) (chan : ℕ) (c c1 : Client) (m : Incoming p) (r : Reply p) (y : Call p j q)
        → process_msg p ch k prefix_len st m chan ≡ (done r, st1)
        → received c1 ≡ received c ++ m ∷ []
        → sent c1 ≡ sent c
        → send c1 (response p j q prefix r) ≡ y
        → Goes st chan c (unwrapped p j q st1 (chan + 1) y)
    sent-Goes st st1 chan c c1 m r (inl e, c2) processed i o h =
        let (out, in_same) = rw h at (send_lem c1 (response p j q prefix r)) in
        (
          [],
          [],
          m,
          st,
          refl,
          (let start : chan + 0 ≡ chan = omega arith in rw (start, processed) refl),
          in_same ∙ i,
          out ∙ o ∙ sym (append-nil (sent c)),
        )
    sent-Goes st st1 chan c c1 m r (inr u, c2) processed i o h =
        let (out, in_same) = rw h at (send_lem c1 (response p j q prefix r)) in
        let r' = rest st1 (chan + 1) c2 in
        Accounted-cons r'.end st st1 r'.state chan c c2 r'.client m r processed (in_same ∙ i)
          (out ∙ ap (λ l. l ++ response p j q prefix r ∷ []) o) (rest_lem st1 (chan + 1) c2)

    processed-Goes :
        (st : State) (chan : ℕ) (c c1 : Client) (m : Incoming p) (x : Processed p)
        → process_msg p ch k prefix_len st m chan ≡ x
        → received c1 ≡ received c ++ m ∷ []
        → sent c1 ≡ sent c
        → Goes st chan c (reply_to p j q prefix (chan + 1) c1 x)
    processed-Goes st chan c c1 m (panicked, st1) h i o = (
      [],
      [],
      m,
      st,
      refl,
      (let start : chan + 0 ≡ chan = omega arith in rw (start, h) refl),
      i,
      o ∙ sym (append-nil (sent c)),
    )
    processed-Goes st chan c c1 m (done r, st1) h i o =
        sent-Goes st st1 chan c c1 m r (send c1 (response p j q prefix r)) h i o refl

    awaited-Goes :
        (st : State) (chan : ℕ) (c : Client) (w : (Error ⊎ Option (Incoming p)) × Client)
        → await c ≡ w
        → Goes st chan c (take_in p j q ch k prefix prefix_len st chan w)
    unfolding take_in
    awaited-Goes st chan c (inl e, c1) h =
        let (out, in_same) = rw h at (await_lem c) in
        Accounted-skip left st st chan c c1 c1 in_same out (nothing st chan c1)
    awaited-Goes st chan c (inr none, c1) h =
        let (out, in_same) = rw h at (await_lem c) in
        let r' = rest st chan c1 in
        Accounted-skip r'.end st r'.state chan c c1 r'.client in_same out (rest_lem st chan c1)
    awaited-Goes st chan c (inr (some m), c1) h =
        let (out, in_more) = rw h at (await_lem c) in
        processed-Goes st chan c c1 m (process_msg p ch k prefix_len st m chan) refl in_more out

  -- In any number of rounds of the loop of `run_on_client`: the messages that have come in are processed
  -- in order, each once; as long as nothing panics each of them has been answered with its own reply, in
  -- order, and nothing else has been handed to the client. If the loop has crashed, this holds of all
  -- messages but the last, which has been processed and not answered.
  pub message_loop-Accounted :
      (rounds : ℕ) (flags : ℕ → Bool) (st : State) (chan : ℕ) (c : Client)
      → let r = message_loop p j q ch k prefix prefix_len rounds flags st chan c in
        Accounted r.end st chan c r.state r.client
  unfolding message_loop
  message_loop-Accounted zero flags st chan c = nothing st chan c
  message_loop-Accounted (suc n) flags st chan c = elim (Bool-cases (flags 0)) [
    | inl on ↦
        rw (message_loop, on)
          (awaited-Goes (message_loop p j q ch k prefix prefix_len n (λ i. flags (suc i)))
            (message_loop-Accounted n (λ i. flags (suc i))) st chan c (await c) refl)
    | inr off ↦ rw (message_loop, off) (nothing st chan c)
  ]

  -- The loop ends in the first round that finds `running` not set, if not before.
  pub message_loop_ends :
      (rounds i : ℕ) (flags : ℕ → Bool) (st : State) (chan : ℕ) (c : Client)
      → i < rounds
      → flags i ≡ false
      → (message_loop p j q ch k prefix prefix_len rounds flags st chan c).end ≢ going
  unfolding message_loop
  message_loop_ends zero i flags st chan c lt off = elim lt [ ]
  message_loop_ends (suc n) zero flags st chan c lt off = rw (message_loop, off) (λ h. cc h)
  message_loop_ends (suc n) (suc i) flags st chan c lt off = elim (Bool-cases (flags 0)) [
    | inl on ↦
        rw (message_loop, on)
          (by_end (take_in p j q ch k prefix prefix_len st chan (await c)) _ refl
            (message_loop_ends n i (λ x. flags (suc x)) _ _ _ (omega arith) off))
    | inr off' ↦ rw (message_loop, off') (λ h. cc h)
  ]
    where
      by_end :
          (r : Served p j q) (e : LoopEnd)
          → r.end ≡ e
          → (message_loop p j q ch k prefix prefix_len n
              (λ x. flags (suc x))
              r.state
              r.chan
              r.client).end
            ≢ going
          → (proceed p j q ch k prefix prefix_len
              (message_loop p j q ch k prefix prefix_len n (λ x. flags (suc x)))
              r).end
            ≢ going
      by_end r going h rest = rw h rest
      by_end r left h rest = rw h (λ x. cc x)
      by_end r crashed h rest = rw h (λ x. cc x)
