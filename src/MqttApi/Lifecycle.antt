-- ===== src/MqttApi/Lifecycle.antt =====
-- src/mqtt_api.rs: `MqttApi`, its `start_new` and `stop`, and the end of `main` in src/main.rs, which wants
-- the state back. What the thread does while it serves is in Thread; here it serves, between a look at
-- `running` and a call of the client that may block, such as `await`. The signal of `stop` makes a blocked call
-- return, as the source means it to; at another place it has no effect. The thread ends when it finds
-- `running` not set, or by a panic. `run` then drops its arguments in the reverse order, `running` before
-- `state`. A call of pthread_kill is its return value.
pub mod Ends
pub mod Examples
use rinklers.Prelude.{
  ℕ, suc, Option, none, some, Bool, true, false, if◌then◌else◌, ◌==◌, Outcome, done, panicked,
  ◌>>=◌, ◌≡◌,
}

-- where the thread is: about to look at `running`, about to call the client, and in the call
pub data Place : Type 0 where
  polling calling blocked : Place

-- the thread, with what it has returned
pub data Thread : Type 0 where
  serving : Place → Thread
  -- it has dropped `running`, and still holds the state
  releasing : Outcome (Unit {0}) → Thread
  gone : Outcome (Unit {0}) → Thread

pub data MqttApiResult : Type 0 where
  ok thread_join_error : MqttApiResult

-- how far the call of `stop` is
pub data Call : Type 0 where
  not_called : Call
  -- it has a reference to `running`
  holding : Call
  -- it has cleared `running`
  cleared : Call
  -- it waits for the thread
  joining : Call
  stopped : MqttApiResult → Call
  kill_failed : Call

pub record MqttApi : Type 0 where
  pub thread : Thread
  -- the value of the `AtomicBool`
  pub running : Bool
  pub call : Call

unfoldable pub start_new : MqttApi
start_new = record { thread = serving polling; running = true; call = not_called }

-- `Weak::upgrade`: before the call, only the thread has a reference to `running`
unfoldable pub upgrade : Thread → Call
upgrade (serving place) = holding
upgrade (releasing r) = stopped ok
upgrade (gone r) = stopped ok

unfoldable pub joined : Outcome (Unit {0}) → MqttApiResult
joined (done r) = ok
joined panicked = thread_join_error

-- `JoinHandle::join`
abbrev pub join : MqttApi → Thread → Option MqttApi
join api (serving place) = none
join api (releasing r) = none
join api (gone r) = some (record api { call = stopped (joined r) })

-- the signal of pthread_kill
abbrev pub signalled : Thread → Thread
signalled (serving polling) = serving polling
signalled (serving calling) = serving calling
signalled (serving blocked) = serving polling
signalled (releasing r) = releasing r
signalled (gone r) = gone r

-- the next step of `stop`, if it can make one
abbrev pub stop_from : (ret : ℕ) → MqttApi → Call → Option MqttApi
stop_from ret api not_called = some (record api { call = upgrade api.thread })
stop_from ret api holding = some (record api { running = false; call = cleared })
stop_from ret api cleared =
    if ret == 0
    then some (record api { thread = signalled api.thread; call = joining })
    else some (record api { call = kill_failed })
stop_from ret api joining = join api api.thread
stop_from ret api (stopped r) = none
stop_from ret api kill_failed = none

unfoldable pub stop : (ret : ℕ) → MqttApi → Option MqttApi
stop ret api = stop_from ret api api.call

-- why the thread moves
pub data Cause : Type 0 where
  -- its own next instruction
  by_itself : Cause
  -- the call of the client returns, with an answer, an error or after some time
  answered : Cause
  crashing : Cause

abbrev pub move_from : Cause → MqttApi → Thread → Option MqttApi
move_from by_itself api (serving polling) =
    some (record api { thread = if api.running then serving calling else releasing (done tt) })
move_from by_itself api (serving calling) = some (record api { thread = serving blocked })
move_from by_itself api (serving blocked) = none
move_from by_itself api (releasing r) = some (record api { thread = gone r })
move_from by_itself api (gone r) = none
move_from answered api (serving polling) = none
move_from answered api (serving calling) = none
move_from answered api (serving blocked) = some (record api { thread = serving polling })
move_from answered api (releasing r) = none
move_from answered api (gone r) = none
move_from crashing api (serving place) = some (record api { thread = releasing panicked })
move_from crashing api (releasing r) = none
move_from crashing api (gone r) = none

-- the next step of the thread, if it can make one
unfoldable pub move_thread : Cause → MqttApi → Option MqttApi
move_thread cause api = move_from cause api api.thread

pub data Step (s t : MqttApi) : Type 0 where
  of_stop : (ret : ℕ) → stop ret s ≡ some t → Step s t
  of_thread : (cause : Cause) → move_thread cause s ≡ some t → Step s t

-- so many steps, of `stop` and of the thread, in any order
pub data Steps (s : MqttApi) : ℕ → MqttApi → Type 0 where
  here : Steps s 0 s
  then_step : {n : ℕ} {t u : MqttApi} → Steps s n t → Step t u → Steps s (suc n) u

-- `unwrap_or_else` in `main`
abbrev pub checked : MqttApiResult → Outcome (Unit {0})
checked ok = done tt
checked thread_join_error = panicked

-- `Arc::try_unwrap` on the state, whose other reference is the thread's
abbrev pub try_unwrap : Thread → Outcome (Unit {0})
try_unwrap (serving place) = panicked
try_unwrap (releasing r) = panicked
try_unwrap (gone r) = done tt

-- `main` after `stop` has returned: whether it gets the state back
unfoldable pub take_back : MqttApiResult → Thread → Outcome (Unit {0})
take_back r thread = do _ ← checked r; try_unwrap thread
