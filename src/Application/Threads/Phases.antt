-- ===== src/Application/Threads/Phases.antt =====
-- Which threads have ended, after notifications, locks and rounds.
use rinklers.Prelude.{
  Option, none, some, List, ◌≡◌, ◌≢◌, refl, Bool, true, false, ltb, length, if◌then◌else◌,
}
use rinklers.Util.WaitPeriod.{WaitPeriod, wait, at_most, no_wait}
use rinklers.Util.RunnerState.{Phase, entering, waiting, ready, ended, notify, enter}
use rinklers.SectionRunner.{RunnerData, SecRun}
use rinklers.Application.Threads.{notified, entered, told, behind, behind_crash}

-- A notification ends no thread, and none that has ended comes back.
pub notified-ended : (x : Phase) → notified x ≡ ended → x ≡ ended
unfolding notify
notified-ended (entering w) h = cc h
notified-ended (waiting w) h = cc h
notified-ended ready h = cc h
notified-ended ended h = refl

pub ended-notified : (x : Phase) → x ≡ ended → notified x ≡ ended
unfolding notify
ended-notified x h = rw h refl

pub told-ended : (a b : RunnerData) (x : Phase) → told a b x ≡ ended → x ≡ ended
told-ended a b x = by_test (ltb (length a.queue) (length b.queue))
  where
    by_test : (t : Bool) → (if t then notified x else x) ≡ ended → x ≡ ended
    by_test true h = notified-ended x h
    by_test false h = h

pub ended-told : (a b : RunnerData) (x : Phase) → x ≡ ended → told a b x ≡ ended
ended-told a b x h = by_test (ltb (length a.queue) (length b.queue))
  where
    by_test : (t : Bool) → (if t then notified x else x) ≡ ended
    by_test true = ended-notified x h
    by_test false = h

pub entered-running : (w : WaitPeriod) → entered w ≢ ended
unfolding enter
entered-running wait h = cc h
entered-running (at_most d) h = cc h
entered-running no_wait h = cc h

pub behind-ended : (b : Bool) (w : WaitPeriod) → behind b w ≡ ended → b ≡ true
behind-ended true w h = refl
behind-ended false w h = cc h

pub behind_crash-ended :
    (o : Option (List SecRun)) (b : Bool) (w : WaitPeriod)
    → behind_crash o b w ≡ ended
    → o ≡ none
    → b ≡ true
behind_crash-ended none b w h e = behind-ended b w h
behind_crash-ended (some l) b w h e = cc e

pub ended-behind_crash :
    (o : Option (List SecRun)) (b : Bool) (w : WaitPeriod)
    → (o ≡ none → b ≡ true)
    → behind_crash o b w ≡ ended
ended-behind_crash none b w h = rw (h refl) refl
ended-behind_crash (some l) b w h = refl

-- where the program runner's thread stands after a request
pub after_request-ended :
    (b : Bool) (x : Phase) → (if b then ended else x) ≡ ended → b ≡ false → x ≡ ended
after_request-ended true x h e = cc e
after_request-ended false x h e = h

pub ended-after_request : (b : Bool) (x : Phase) → x ≡ ended → (if b then ended else x) ≡ ended
ended-after_request true x h = refl
ended-after_request false x h = h

pub after_request-entering :
    (b : Bool) (w : WaitPeriod) (x : Phase) → (if b then ended else x) ≡ entering w → x ≡ entering w
after_request-entering true w x h = cc h
after_request-entering false w x h = h
