-- ===== src/MqttApi/Lifecycle/Ends.antt =====
-- How `stop` ends.
use rinklers.Prelude.{
  ℕ, zero, suc, ◌≡◌, ◌⊎◌, refl, inl, inr, none, some, Bool, true, false, ◌==◌, Outcome, done,
  panicked, subst, Bool-cases,
}
use rinklers.MqttApi.Lifecycle.{
  Place, polling, calling, blocked, Thread, serving, releasing, gone, MqttApiResult, ok,
  thread_join_error, Call, not_called, holding, cleared, joining, stopped, kill_failed, MqttApi,
  start_new, upgrade, joined, signalled, stop_from, stop, Cause, by_itself, answered, crashing,
  move_from, move_thread, of_stop, of_thread, Steps, here, then_step, take_back,
}

-- The thread has ended by a panic, if at all.
abbrev Unreturned : Thread → Type 0
Unreturned (serving place) = Unit
Unreturned (releasing r) = r ≡ panicked
Unreturned (gone r) = r ≡ panicked

-- The thread has ended by a panic.
abbrev pub Crashed : Thread → Type 0
Crashed (serving place) = ⊥
Crashed (releasing r) = r ≡ panicked
Crashed (gone r) = r ≡ panicked

-- What `stop` has returned: what the thread has, which has ended; or `Ok`, after a panic of the thread
-- which may still hold the state.
abbrev pub Settled : MqttApiResult → Thread → Type 0
Settled r thread =
    ((o : Outcome (Unit {0})) × (thread ≡ gone o) × (r ≡ joined o)) ⊎ ((r ≡ ok) × Crashed thread)

abbrev Agrees : Call → Thread → Bool → Type 0
Agrees not_called t b = (b ≡ true) × Unreturned t
Agrees holding t b = (b ≡ true) × Unreturned t
Agrees cleared t b = b ≡ false
Agrees joining t b = b ≡ false
Agrees (stopped r) t b = Settled r t
Agrees kill_failed t b = Unit

abbrev AgreesOn : MqttApi → Type 0
AgreesOn s = Agrees s.call s.thread s.running

step_to : (s t : MqttApi) → AgreesOn s → some s ≡ some t → AgreesOn t
step_to s t v h = let same : s ≡ t = cc h in subst (λ x. AgreesOn x) same v

stop-AgreesOn : (ret : ℕ) (s t : MqttApi) → AgreesOn s → stop ret s ≡ some t → AgreesOn t
unfolding stop upgrade
stop-AgreesOn ret s t = by_call s.call s.thread s.running
  where
    by_call :
        (c : Call) (th : Thread) (b : Bool)
        → Agrees c th b
        → stop_from ret (record { thread = th; running = b; call = c }) c ≡ some t
        → AgreesOn t
    by_call not_called (serving place) b v h = step_to _ t v h
    by_call not_called (releasing r) b v h = step_to _ t (inr (refl, v.1)) h
    by_call not_called (gone r) b v h = step_to _ t (inr (refl, v.1)) h
    by_call holding th b v h =
        step_to (record { thread = th; running = false; call = cleared }) t refl h
    by_call cleared th b v h = elim (Bool-cases (ret == 0)) [
      | inl sent ↦
          step_to (record { thread = signalled th; running = b; call = joining }) t v (rw sent at h)
      | inr failed ↦
          step_to (record { thread = th; running = b; call = kill_failed }) t tt (rw failed at h)
    ]
    by_call joining (serving place) b v h = cc h
    by_call joining (releasing r) b v h = cc h
    by_call joining (gone r) b v h = step_to _ t (inl (r, refl, refl)) h
    by_call (stopped r) th b v h = cc h
    by_call kill_failed th b v h = cc h

-- what the thread does next, when `running` is `b`
data Moving (b : Bool) : Thread → Thread → Type 0 where
  serves : (place place' : Place) → Moving b (serving place) (serving place')
  crashes : (place : Place) → Moving b (serving place) (releasing panicked)
  returns : (place : Place) → b ≡ false → Moving b (serving place) (releasing (done tt))
  releases : (o : Outcome (Unit {0})) → Moving b (releasing o) (gone o)

Unreturned-Moving :
    (b : Bool) (th th' : Thread) → Moving b th th' → b ≡ true → Unreturned th → Unreturned th'
Unreturned-Moving b th th' (serves place place') on v = tt
Unreturned-Moving b th th' (crashes place) on v = refl
Unreturned-Moving b th th' (returns place off) on v = cc (on, off)
Unreturned-Moving b th th' (releases o) on v = v

Settled-Moving :
    (b : Bool) (r : MqttApiResult) (th th' : Thread)
    → Moving b th th'
    → Settled r th
    → Settled r th'
Settled-Moving b r th th' (serves place place') (inl (o, ended, same)) = cc ended
Settled-Moving b r th th' (serves place place') (inr (same, v)) = elim v [ ]
Settled-Moving b r th th' (crashes place) (inl (o, ended, same)) = cc ended
Settled-Moving b r th th' (crashes place) (inr (same, v)) = elim v [ ]
Settled-Moving b r th th' (returns place off) (inl (o, ended, same)) = cc ended
Settled-Moving b r th th' (returns place off) (inr (same, v)) = elim v [ ]
Settled-Moving b r th th' (releases o) (inl (o', ended, same)) = cc ended
Settled-Moving b r th th' (releases o) (inr (same, v)) = inr (same, v)

Agrees-Moving :
    (b : Bool) (c : Call) (th th' : Thread) → Moving b th th' → Agrees c th b → Agrees c th' b
Agrees-Moving b not_called th th' e (on, v) = (on, Unreturned-Moving b th th' e on v)
Agrees-Moving b holding th th' e (on, v) = (on, Unreturned-Moving b th th' e on v)
Agrees-Moving b cleared th th' e v = v
Agrees-Moving b joining th th' e v = v
Agrees-Moving b (stopped r) th th' e v = Settled-Moving b r th th' e v
Agrees-Moving b kill_failed th th' e v = tt

move_thread-AgreesOn :
    (cause : Cause) (s t : MqttApi) → AgreesOn s → move_thread cause s ≡ some t → AgreesOn t
unfolding move_thread
move_thread-AgreesOn cause s t v = by_thread cause s.thread s.running v
  where
    moves :
        (b : Bool) (th th' : Thread)
        → Moving b th th'
        → Agrees s.call th b
        → some (record { thread = th'; running = b; call = s.call }) ≡ some t
        → AgreesOn t
    moves b th th' e v h = step_to _ t (Agrees-Moving b s.call th th' e v) h

    by_thread :
        (cause : Cause) (th : Thread) (b : Bool)
        → Agrees s.call th b
        → move_from cause (record { thread = th; running = b; call = s.call }) th ≡ some t
        → AgreesOn t
    by_thread by_itself (serving polling) true v h = moves true _ _ (serves polling calling) v h
    by_thread by_itself (serving polling) false v h = moves false _ _ (returns polling refl) v h
    by_thread by_itself (serving calling) b v h = moves b _ _ (serves calling blocked) v h
    by_thread by_itself (serving blocked) b v h = cc h
    by_thread by_itself (releasing o) b v h = moves b _ _ (releases o) v h
    by_thread by_itself (gone o) b v h = cc h
    by_thread answered (serving polling) b v h = cc h
    by_thread answered (serving calling) b v h = cc h
    by_thread answered (serving blocked) b v h = moves b _ _ (serves blocked polling) v h
    by_thread answered (releasing o) b v h = cc h
    by_thread answered (gone o) b v h = cc h
    by_thread crashing (serving place) b v h = moves b _ _ (crashes place) v h
    by_thread crashing (releasing o) b v h = cc h
    by_thread crashing (gone o) b v h = cc h

Steps-AgreesOn : (n : ℕ) (t : MqttApi) → Steps start_new n t → AgreesOn t
unfolding start_new
Steps-AgreesOn _ t here = (refl, tt)
Steps-AgreesOn _ u (then_step {n} {t} before (of_stop ret e)) =
    stop-AgreesOn ret t u (Steps-AgreesOn n t before) e
Steps-AgreesOn _ u (then_step {n} {t} before (of_thread cause e)) =
    move_thread-AgreesOn cause t u (Steps-AgreesOn n t before) e

-- What there is when `stop` has returned `r`. The last part of each case is what `main` then comes to.
abbrev pub Returned : MqttApiResult → Thread → Type 0
Returned r (serving place) = ⊥
Returned r (releasing o) = (o ≡ panicked) × (r ≡ ok) × (take_back r (releasing o) ≡ panicked)
Returned r (gone (done u)) = (r ≡ ok) × (take_back r (gone (done u)) ≡ done tt)
Returned r (gone panicked) =
    ((r ≡ ok) × (take_back r (gone panicked) ≡ done tt))
    ⊎ ((r ≡ thread_join_error) × (take_back r (gone panicked) ≡ panicked))

Settled-Returned : (r : MqttApiResult) (th : Thread) → Settled r th → Returned r th
unfolding take_back joined
Settled-Returned r (serving place) (inl (o, ended, same)) = cc ended
Settled-Returned r (serving place) (inr (same, v)) = elim v [ ]
Settled-Returned r (releasing o) (inl (o', ended, same)) = cc ended
Settled-Returned r (releasing o) (inr (same, v)) = (v, same, rw same refl)
Settled-Returned r (gone (done u)) (inl (done u', ended, same)) = (same, rw same refl)
Settled-Returned r (gone (done u)) (inl (panicked, ended, same)) = cc ended
Settled-Returned r (gone (done u)) (inr (same, v)) = cc v
Settled-Returned r (gone panicked) (inl (done u', ended, same)) = cc ended
Settled-Returned r (gone panicked) (inl (panicked, ended, same)) = inr (same, rw same refl)
Settled-Returned r (gone panicked) (inr (same, v)) = inl (same, rw same refl)

-- Once `stop` has returned, after any steps of it and of the thread, the thread serves no more. If it has ended
-- without a panic, the result is `Ok` and `main` gets the state back. If it has panicked, the result is either
-- the error, or `Ok`; and in the latter case the thread may still hold the state, and then `main` panics.
pub stop-Returned :
    (n : ℕ) (t : MqttApi) (r : MqttApiResult)
    → Steps start_new n t
    → t.call ≡ stopped r
    → Returned r t.thread
stop-Returned n t r steps h =
    Settled-Returned r t.thread
      (subst (λ c. Agrees c t.thread t.running) h (Steps-AgreesOn n t steps))

-- One step of `stop`, if it can make one, or else one of the thread by itself; pthread_kill returns 0.
abbrev pub turn : MqttApi → MqttApi
turn t = elim (stop 0 t) [
  | some u ↦ u
  | none ↦ elim (move_thread by_itself t) [ some u ↦ u | none ↦ t ]
]

-- What becomes of `stop` and the thread when the broker never answers and nothing panics.
abbrev pub alone : ℕ → MqttApi → MqttApi
alone zero t = t
alone (suc n) t = alone n (turn t)

-- `stop` waits for the thread, which is blocked in a call.
abbrev pub waiting : MqttApi
waiting = record { thread = serving blocked; running = false; call = joining }

-- The thread has looked at `running`, and the call that it then makes is not interrupted.
abbrev pub Missed : MqttApi → Type 0
Missed t = (t.thread ≡ serving calling) ⊎ ((t.thread ≡ serving blocked) × (t.call ≡ joining))

abbrev pub Settles : MqttApi → Type 0
Settles t =
    ((r : MqttApiResult) × ((alone 6 t).call ≡ stopped r))
    ⊎ (t.call ≡ kill_failed)
    ⊎ (Missed t × (alone 6 t ≡ waiting))
