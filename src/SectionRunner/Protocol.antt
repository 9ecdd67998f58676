-- ===== src/SectionRunner/Protocol.antt =====
-- Every event keeps the description of the log, so it holds after any sequence of events.
use rinklers.Prelude.{
  ℕ, ◌+◌, ◌-◌, ◌≤◌, ◌≡◌, refl, sym, subst, ◌∙◌, inl, inr, Option, none, some, List, [], ◌∷◌, ◌++◌,
  true, false, append_assoc, append-nil, arith, leb, leb→le, Bool-cases, extend,
}
use rinklers.Util.WaitPeriod.{WaitPeriod}
use rinklers.SectionRunner.{RunnerData, SecRun, Run, round, quit_round, running_round, idle_round}
use rinklers.SectionRunner.System.{
  System, Event, init, requested, stopped, woken, after_round, handle, run, asked,
}
use rinklers.SectionRunner.Invariant.{
  Served, history, requests_of, begun, request_of, Timed, TimedRun, Serving, Stopped, Inv,
}

-- A request joins the end of the queue, whatever stands before it.
join_queue {ℓ} :
    {A : Type ℓ} (a b q rs : List A) (x : A)
    → a ++ (b ++ q) ≡ rs
    → a ++ (b ++ (q ++ x ∷ [])) ≡ rs ++ x ∷ []
join_queue a b q rs x h = rw (← h) (simp append_assoc)

Timed-mono : (a b : ℕ) (vs : List Served) → a ≤ b → Timed a vs → Timed b vs
Timed-mono a b [] h t = tt
Timed-mono a b (v ∷ vs) h t = (omega arith, t.1, t.2)

TimedRun-mono :
    (a b : ℕ) (c : Option Run) (vs : List Served) → a ≤ b → TimedRun a c vs → TimedRun b c vs
TimedRun-mono a b none vs h t = Timed-mono a b vs h t
TimedRun-mono a b (some r) vs h t = (omega arith, t.1)

requested-Inv :
    (rs : List SecRun) (s : System) (sec dur chan : ℕ)
    → Inv rs s
    → Inv
        (rs ++ record { sec = sec; dur = dur; notification_sender = chan } ∷ [])
        (handle s (requested sec dur chan))
unfolding handle
requested-Inv rs s sec dur chan (inl (on, v)) = inl (
  on,
  record {
    served = v.served;
    order = join_queue (requests_of v.served) (request_of s.current) s.state.queue rs _ v.order;
    logged = v.logged;
    timed = v.timed;
  },
)
requested-Inv rs s sec dur chan (inr (off, v)) = inr (
  off,
  record {
    served = v.served;
    last = v.last;
    told = v.told;
    time = v.time;
    order = rw (← append_assoc v.told s.state.queue _) (
        join_queue (requests_of v.served) (request_of v.last) (v.told ++ s.state.queue) rs _
          v.order);
    logged = v.logged;
    only = v.only;
    idle = v.idle;
    timed = v.timed;
  },
)

-- The cases of one round of a thread that serves; `c` is the run under way.
quit-Stopped :
    (rs : List SecRun) (s : System) (now : ℕ) (c : Option Run)
    → s.current ≡ c
    → s.now ≤ now
    → Serving rs s
    → Stopped rs (after_round s now (quit_round s.state c s.period))
unfolding quit_round
quit-Stopped rs s now none e later v = record {
  served = v.served;
  last = none;
  told = [];
  time = now;
  order = rw e at v.order;
  logged = append-nil s.log ∙ rw e at v.logged;
  only = refl;
  idle = refl;
  timed = Timed-mono s.now now v.served later (rw e at v.timed);
}
quit-Stopped rs s now (some r) e later v = record {
  served = v.served;
  last = some r;
  told = s.state.queue;
  time = now;
  order = rw append-nil (rw e at v.order);
  logged = extend s.log (history v.served) (begun (some r)) _ (rw e at v.logged);
  only = tt;
  idle = refl;
  timed = TimedRun-mono s.now now (some r) v.served later (rw e at v.timed);
}

-- The request of a run that has been served moves from the second list to the first.
serve_one {ℓ} : {A : Type ℓ} (a q rs : List A) (x : A) → a ++ (x ∷ q) ≡ rs → (a ++ x ∷ []) ++ q ≡ rs
serve_one a q rs x h = append_assoc a (x ∷ []) q ∙ h

running-Serving :
    (rs : List SecRun) (s : System) (now : ℕ) (r : Run)
    → s.current ≡ some r
    → s.now ≤ now
    → Serving rs s
    → Serving rs (after_round s now (running_round now s.state r))
unfolding running_round
running-Serving rs s now r e later v = elim (Bool-cases (leb r.dur (now - r.start_time))) [
  | inl over ↦ rw over (record {
    served =
        record {
          request = record { sec = r.sec; dur = r.dur; notification_sender = r.notify };
          from = r.start_time;
          until = now;
        }
        ∷ v.served;
    order = serve_one (requests_of v.served) s.state.queue rs _ (rw e at v.order);
    logged =
        extend s.log (history v.served) (begun (some r)) _ (rw e at v.logged) ∙ sym (append-nil _);
    timed =
        let t : TimedRun s.now (some r) v.served = rw e at v.timed in
        (omega arith, omega (arith, leb→le r.dur (now - r.start_time) over), t.1);
  })
  | inr under ↦ rw under (record {
    served = v.served;
    order = rw e at v.order;
    logged = append-nil s.log ∙ rw e at v.logged;
    timed = TimedRun-mono s.now now (some r) v.served later (rw e at v.timed);
  })
]

idle-Serving :
    (rs : List SecRun) (s : System) (now : ℕ) (q : List SecRun)
    → s.current ≡ none
    → s.state.queue ≡ q
    → s.now ≤ now
    → Serving rs s
    → Serving rs (after_round s now (idle_round now s.state q))
unfolding idle_round
idle-Serving rs s now [] e f later v = record {
  served = v.served;
  order = rw e at v.order;
  logged = append-nil s.log ∙ rw e at v.logged;
  timed = Timed-mono s.now now v.served later (rw e at v.timed);
}
idle-Serving rs s now (x ∷ q) e f later v = record {
  served = v.served;
  order = rw f at (rw e at v.order);
  logged = extend s.log (history v.served) [] _ (rw e at v.logged);
  timed = (omega arith, Timed-mono s.now now v.served later (rw e at v.timed));
}

round-quit :
    (now : ℕ) (d : RunnerData) (c : Option Run) (w : WaitPeriod)
    → d.quit ≡ true
    → round now d c w ≡ quit_round d c w
unfolding round
round-quit now d c w h = ground arith

round-some :
    (now : ℕ) (d : RunnerData) (r : Run) (w : WaitPeriod)
    → d.quit ≡ false
    → round now d (some r) w ≡ running_round now d r
unfolding round
round-some now d r w h = ground arith

round-none :
    (now : ℕ) (d : RunnerData) (w : WaitPeriod)
    → d.quit ≡ false
    → round now d none w ≡ idle_round now d d.queue
unfolding round
round-none now d w h = ground arith

current-Serving :
    (rs : List SecRun) (s : System) (now : ℕ) (c : Option Run)
    → s.current ≡ c
    → s.state.quit ≡ false
    → s.now ≤ now
    → Serving rs s
    → Serving rs (after_round s now (round now s.state c s.period))
current-Serving rs s now none e on later v =
    subst (λ r. Serving rs (after_round s now r)) (sym (round-none now s.state s.period on))
      (idle-Serving rs s now s.state.queue e refl later v)
current-Serving rs s now (some r) e on later v =
    subst (λ k. Serving rs (after_round s now k)) (sym (round-some now s.state r s.period on))
      (running-Serving rs s now r e later v)

pub round-returned :
    (now : ℕ) (s : System) → (round now s.state s.current s.period).returned ≡ s.state.quit
unfolding round quit_round running_round idle_round
round-returned now s = ground arith

woken-Inv : (rs : List SecRun) (s : System) (later : ℕ) → Inv rs s → Inv rs (handle s (woken later))
unfolding handle
woken-Inv rs s later (inr (off, v)) = rw off (
    inr (
      refl,
      record {
        served = v.served;
        last = v.last;
        told = v.told;
        time = v.time;
        order = v.order;
        logged = v.logged;
        only = v.only;
        idle = v.idle;
        timed = v.timed;
      },
    ))
woken-Inv rs s later (inl (on, v)) = rw on (elim (Bool-cases s.state.quit) [
  | inl quits ↦ inr (round-returned now s ∙ quits, quits_with quits)
  | inr stays ↦
      inl (
        round-returned now s ∙ stays,
        current-Serving rs s now s.current refl stays (omega arith) v,
      )
])
  where
    now : ℕ
    now = s.now + later

    quits_with :
        s.state.quit ≡ true → Stopped rs (after_round s now (round now s.state s.current s.period))
    quits_with quits =
        subst (λ k. Stopped rs (after_round s now k))
          (sym (round-quit now s.state s.current s.period quits))
          (quit-Stopped rs s now s.current refl (omega arith) v)

stopped-Inv : (rs : List SecRun) (s : System) → Inv rs s → Inv rs (handle s stopped)
unfolding handle
stopped-Inv rs s (inl (on, v)) =
    inl (on, record { served = v.served; order = v.order; logged = v.logged; timed = v.timed })
stopped-Inv rs s (inr (off, v)) = inr (
  off,
  record {
    served = v.served;
    last = v.last;
    told = v.told;
    time = v.time;
    order = v.order;
    logged = v.logged;
    only = v.only;
    idle = v.idle;
    timed = v.timed;
  },
)

pub run-Inv :
    (rs : List SecRun) (s : System) (es : List Event) → Inv rs s → Inv (rs ++ asked es) (run s es)
unfolding run
run-Inv rs s [] v = rw append-nil v
run-Inv rs s (requested sec dur chan ∷ es) v =
    subst (λ l. Inv l (run (handle s (requested sec dur chan)) es)) (append_assoc rs _ (asked es))
      (run-Inv (rs ++ record { sec = sec; dur = dur; notification_sender = chan } ∷ []) _ es
        (requested-Inv rs s sec dur chan v))
run-Inv rs s (stopped ∷ es) v = run-Inv rs _ es (stopped-Inv rs s v)
run-Inv rs s (woken later ∷ es) v = run-Inv rs _ es (woken-Inv rs s later v)

-- After any sequence of requests, stops and rounds: the log is, in order of the requests, the
-- complete run of each that was served (section on, `Start`, at least its duration later section off,
-- `Finish`, and only then the next), and then what the return cut short. No request is lost, served
-- twice or served out of turn; a stop tells the run under way and the whole queue, or, if no run is
-- under way, nobody.
pub run-init-Inv : (es : List Event) → Inv (asked es) (run init es)
run-init-Inv es =
    run-Inv [] init es (inl (refl, record { served = []; order = refl; logged = refl; timed = tt }))
