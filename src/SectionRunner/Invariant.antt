-- ===== src/SectionRunner/Invariant.antt =====
-- What the thread has done at any time, in terms of the requests made.
use rinklers.Prelude.{
  ℕ, ◌+◌, ◌≤◌, ◌≡◌, ◌⊎◌, Option, none, some, List, [], ◌∷◌, ◌++◌, map, true, false,
}
use rinklers.SectionRunner.{
  SecRun, Run, Effect, set_state, send, start, finish, interrupted, discard,
}
use rinklers.SectionRunner.System.{System, stamped}

-- A run that has been served from start to finish.
pub record Served : Type 0 where
  pub request : SecRun
  pub from : ℕ
  pub until : ℕ

abbrev pub begin : (time sec chan : ℕ) → List (ℕ × Effect)
begin time sec chan = (time, set_state sec true) ∷ (time, send chan start) ∷ []

abbrev pub end : (time sec chan : ℕ) → List (ℕ × Effect)
end time sec chan = (time, set_state sec false) ∷ (time, send chan finish) ∷ []

-- Served runs are listed newest first.
abbrev pub history : List Served → List (ℕ × Effect)
history [] = []
history (v ∷ vs) =
    history vs
    ++ (begin v.from v.request.sec v.request.notification_sender
        ++ end v.until v.request.sec v.request.notification_sender)

abbrev pub requests_of : List Served → List SecRun
requests_of [] = []
requests_of (v ∷ vs) = requests_of vs ++ v.request ∷ []

-- The run under way.
abbrev pub begun : Option Run → List (ℕ × Effect)
begun none = []
begun (some r) = begin r.start_time r.sec r.notify

abbrev pub request_of : Option Run → List SecRun
request_of none = []
request_of (some r) = record { sec = r.sec; dur = r.dur; notification_sender = r.notify } ∷ []

-- Each run took its duration at least, and one ended before the next began.
abbrev pub Timed : ℕ → List Served → Type 0
Timed limit [] = Unit
Timed limit (v ∷ vs) = (v.until ≤ limit) × (v.from + v.request.dur ≤ v.until) × Timed v.from vs

abbrev pub TimedRun : ℕ → Option Run → List Served → Type 0
TimedRun now none vs = Timed now vs
TimedRun now (some r) vs = (r.start_time ≤ now) × Timed r.start_time vs

-- While the thread runs: the requests are, in order, those served, the one under way and the queue;
-- and the log is that of the served runs and the beginning of the one under way.
pub record Serving (rs : List SecRun) (s : System) : Type 0 where
  pub served : List Served
  pub order : requests_of served ++ (request_of s.current ++ s.state.queue) ≡ rs
  pub logged : s.log ≡ history served ++ begun s.current
  pub timed : TimedRun s.now s.current served

-- The end of the log when the thread has returned at `time` with the run `r` under way.
abbrev pub cut_short : ℕ → Option Run → List SecRun → List (ℕ × Effect)
cut_short time none told = []
cut_short time (some r) told =
    begin r.start_time r.sec r.notify
    ++ stamped time (set_state r.sec false ∷ send r.notify interrupted ∷ map discard told)

abbrev pub ToldOnly : Option Run → List SecRun → Type 0
ToldOnly none told = told ≡ []
ToldOnly (some r) told = Unit

-- After the return: the requests are those served, the one that was under way, those told of the
-- interruption, and those left in the queue. If no run was under way nobody is told.
pub record Stopped (rs : List SecRun) (s : System) : Type 0 where
  pub served : List Served
  pub last : Option Run
  pub told : List SecRun
  pub time : ℕ
  pub order : requests_of served ++ (request_of last ++ (told ++ s.state.queue)) ≡ rs
  pub logged : s.log ≡ history served ++ cut_short time last told
  pub only : ToldOnly last told
  pub idle : s.current ≡ none
  pub timed : TimedRun time last served

abbrev pub Inv : List SecRun → System → Type 0
Inv rs s = ((s.returned ≡ false) × Serving rs s) ⊎ ((s.returned ≡ true) × Stopped rs s)
