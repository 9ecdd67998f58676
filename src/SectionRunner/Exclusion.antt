-- ===== src/SectionRunner/Exclusion.antt =====
-- At most one section is on at a time.
use rinklers.Prelude.{
  ℕ, ◌≡◌, refl, ◌∙◌, inl, inr, Option, none, some, List, [], ◌∷◌, ◌++◌, Bool, false, ◌==◌, arith,
  if◌then◌else◌, map,
}
use rinklers.SectionRunner.{Run, SecRun, Effect, set_state, send, discard}
use rinklers.SectionRunner.System.{System, Event, init, run, stamped}
use rinklers.SectionRunner.Invariant.{Served, history, begun, cut_short, Inv}
use rinklers.SectionRunner.Protocol.{run-init-Inv}

-- whether the section `sec` is on after the log, if it was `b` before
abbrev pub lit : (sec : ℕ) → Bool → List (ℕ × Effect) → Bool
lit sec b [] = b
lit sec b ((_, set_state s v) ∷ l) = lit sec (if s == sec then v else b) l
lit sec b ((_, send _ _) ∷ l) = lit sec b l

-- whether `sec` is the section of the run under way
abbrev pub waters : ℕ → Option Run → Bool
waters sec none = false
waters sec (some r) = r.sec == sec

pub lit-append :
    (sec : ℕ) (b : Bool) (k l : List (ℕ × Effect)) → lit sec b (k ++ l) ≡ lit sec (lit sec b k) l
lit-append sec b [] l = refl
lit-append sec b ((_, set_state s v) ∷ k) l = lit-append sec (if s == sec then v else b) k l
lit-append sec b ((_, send _ _) ∷ k) l = lit-append sec b k l

lit-discard :
    (sec time : ℕ) (b : Bool) (q : List SecRun) → lit sec b (stamped time (map discard q)) ≡ b
lit-discard sec time b [] = refl
lit-discard sec time b (x ∷ q) = lit-discard sec time b q

lit-history : (sec : ℕ) (vs : List Served) → lit sec false (history vs) ≡ false
lit-history sec [] = refl
lit-history sec (v ∷ vs) = lit-append sec false (history vs) _ ∙ ground (arith, lit-history sec vs)

lit-begun : (sec : ℕ) (c : Option Run) → lit sec false (begun c) ≡ waters sec c
lit-begun sec none = refl
lit-begun sec (some r) = ground arith

lit-cut_short :
    (sec time : ℕ) (c : Option Run) (told : List SecRun)
    → lit sec false (cut_short time c told) ≡ false
lit-cut_short sec time none told = refl
lit-cut_short sec time (some r) told = lit-discard sec time _ told ∙ ground arith

pub lit-Inv :
    (sec : ℕ) (rs : List SecRun) (s : System)
    → Inv rs s
    → lit sec false s.log ≡ waters sec s.current
lit-Inv sec rs s (inl (_, v)) =
    rw
      (
        v.logged,
        lit-append sec false (history v.served) (begun s.current),
        lit-history sec v.served,
      )
      (lit-begun sec s.current)
lit-Inv sec rs s (inr (_, v)) =
    rw
      (
        v.logged,
        lit-append sec false (history v.served) (cut_short v.time v.last v.told),
        lit-history sec v.served,
        v.idle,
      )
      (lit-cut_short sec v.time v.last v.told)

-- After any events, exactly the section of the run under way is on, and with no such run none is: two
-- sections are never on together, and after the thread has returned all are off.
pub run_one_section :
    (es : List Event) (sec : ℕ) → lit sec false (run init es).log ≡ waters sec (run init es).current
run_one_section es sec = lit-Inv sec _ (run init es) (run-init-Inv es)
