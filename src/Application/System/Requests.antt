-- ===== src/Application/System/Requests.antt =====
-- What is put on the section runner's queue, as calls on the section runner.
use rinklers.Prelude.{
  ℕ, ◌+◌, ◌<◌, ◌≡◌, refl, sym, ap, ◌∙◌, List, [], ◌∷◌, ◌++◌, map, length, append_assoc, append-nil,
  All, subst,
}
use rinklers.Section.{noop_section, log_section}
use rinklers.SectionRunner
use rinklers.SectionRunner.{RunnerData, SecRun, Effect, set_state, send, run_section}
use rinklers.SectionRunner.System
use rinklers.SectionRunner.System.{System, requested, stopped, woken, asked}
use rinklers.SectionRunner.Invariant.{Inv}
use rinklers.SectionRunner.Protocol.{run-Inv}
use rinklers.Program.{ProgItem}
use rinklers.Program.Sequence.{requests}
use rinklers.Application.System.{skip}

pub skip-append {ℓ} : {A : Type ℓ} (xs ys : List A) → skip (length xs) (xs ++ ys) ≡ ys
skip-append [] ys = refl
skip-append (x ∷ xs) ys = skip-append xs ys

pub skip-length {ℓ} : {A : Type ℓ} (xs : List A) → skip (length xs) xs ≡ []
skip-length [] = refl
skip-length (x ∷ xs) = skip-length xs

-- The requests as events of the section runner.
abbrev request_event : SecRun → SectionRunner.System.Event
request_event r = requested r.sec r.dur r.notification_sender

run-requests :
    (rs : List SecRun) (s : System)
    → SectionRunner.System.run s (map (λ r. request_event r) rs)
      ≡ record s { state = record (s.state) { queue = s.state.queue ++ rs } }
unfolding SectionRunner.System.run run_section
run-requests [] s =
    ap (λ q. record s { state = record (s.state) { queue = q } }) (sym (append-nil s.state.queue))
run-requests (r ∷ rs) s =
    run-requests rs (record s { state = record (s.state) { queue = s.state.queue ++ r ∷ [] } })
    ∙ ap (λ q. record s { state = record (s.state) { queue = q } })
        (append_assoc s.state.queue (r ∷ []) rs)

asked-requests : (rs : List SecRun) → asked (map (λ r. request_event r) rs) ≡ rs
asked-requests [] = refl
asked-requests (r ∷ rs) = ap (◌∷◌ r) (asked-requests rs)

pub requests-Inv :
    (rs qs : List SecRun) (s : System)
    → Inv rs s
    → Inv (rs ++ qs) (record s { state = record (s.state) { queue = s.state.queue ++ qs } })
requests-Inv rs qs s v =
    subst (λ t. Inv (rs ++ qs) t) (run-requests qs s)
      (subst (λ l. Inv (rs ++ l) (SectionRunner.System.run s (map (λ r. request_event r) qs)))
        (asked-requests qs) (run-Inv rs s (map (λ r. request_event r) qs) v))

pub event-Inv :
    (rs : List SecRun) (s : System) (e : SectionRunner.System.Event)
    → asked (e ∷ []) ≡ []
    → Inv rs s
    → Inv rs (SectionRunner.System.handle s e)
unfolding SectionRunner.System.run
event-Inv rs s e h v =
    subst (λ l. Inv l (SectionRunner.System.handle s e)) (ap (◌++◌ rs) h ∙ append-nil rs)
      (run-Inv rs s (e ∷ []) v)

-- The section is one of so many.
abbrev pub InRange : ℕ → SecRun → Type 0
InRange n r = r.sec < n

abbrev pub ItemsInRange : ℕ → List ProgItem → Type 0
ItemsInRange n items = All (λ x. x.section < n) items

pub requests-InRange :
    (n : ℕ) (items : List ProgItem) (chan : ℕ)
    → ItemsInRange n items
    → All (InRange n) (requests items chan)
requests-InRange n [] chan h = tt
requests-InRange n (x ∷ xs) chan (h, hs) = (h, requests-InRange n xs (chan + 1) hs)
