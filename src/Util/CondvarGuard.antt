-- ===== src/Util/CondvarGuard.antt =====
-- src/util.rs: `LockCondvarGuard` for a mutex, its `CondvarGuard`, and `RunnerState::update` and
-- `wait_update_for_period` with the poisoning of the mutex. A mutex is poisoned when a guard of it is dropped
-- by a panic. An update is the code between the lock and the drop of the guard: it gives what it computes, or a
-- panic, and what it has made of the data by then.
pub mod Poisoning
pub mod Examples
use rinklers.Prelude.{
  ℕ, ◌+◌, List, [], ◌∷◌, Bool, true, false, if◌then◌else◌, Outcome, done, panicked,
}

-- `LockResult`
pub data LockResult (G : Type 0) : Type 0 where
  ok : G → LockResult G
  poison_error : G → LockResult G

pub record Mutex (D : Type 0) : Type 0 where
  pub content : D
  pub poisoned : Bool

-- A guard gives access to the content of its mutex.
pub record MutexGuard (D : Type 0) : Type 0 where
  pub content : D

pub record CondvarGuard (D : Type 0) : Type 0 where
  pub mutex_guard : MutexGuard D

-- the mutex, and how often its condition variable has been notified
pub record Guarded (D : Type 0) : Type 0 where
  pub mutex : Mutex D
  pub notified : ℕ

-- whether the thread unwinds
abbrev pub unwinds : {A : Type 0} → Outcome A → Bool
unwinds (done a) = false
unwinds panicked = true

module _ {D : Type 0} where
  unfoldable pub new_mutex : D → Mutex D
  new_mutex d = record { content = d; poisoned = false }

  -- `Mutex::lock`
  abbrev pub lock : Mutex D → LockResult (MutexGuard D)
  lock m =
      let guard : MutexGuard D = record { content = m.content } in
      if m.poisoned then poison_error guard else ok guard

  -- `CondvarGuard::new`
  abbrev pub new_guard : MutexGuard D → CondvarGuard D
  new_guard g = record { mutex_guard = g }

  -- `Deref::deref` and, with what is assigned, `DerefMut::deref_mut`
  abbrev pub deref : CondvarGuard D → D
  deref g = g.mutex_guard.content

  abbrev pub deref_mut : CondvarGuard D → D → CondvarGuard D
  deref_mut g d = record g { mutex_guard = record { content = d } }

  -- the `map` and the `map_err` of `lock_condvar`
  abbrev guarded : LockResult (MutexGuard D) → LockResult (CondvarGuard D)
  guarded (ok g) = ok (new_guard g)
  guarded (poison_error g) = poison_error (new_guard g)

  unfoldable pub lock_condvar : Mutex D → LockResult (CondvarGuard D)
  lock_condvar m = guarded (lock m)

  -- The drop of the mutex guard unlocks the mutex, and poisons it if the thread unwinds.
  abbrev unlock : Mutex D → MutexGuard D → (unwinds : Bool) → Mutex D
  unlock m g unwinds = record {
    content = g.content;
    poisoned = if unwinds then true else m.poisoned;
  }

  -- `Drop::drop` of the guard, and then of what is in it
  abbrev pub drop_guard : Guarded D → CondvarGuard D → (unwinds : Bool) → Guarded D
  drop_guard s g unwinds = record {
    mutex = unlock s.mutex g.mutex_guard unwinds;
    notified = s.notified + 1;
  }

  -- `RunnerState::update` by its caller: `unwrap` of the lock, which drops an error with the guard that it
  -- holds, or the update and the drop of the guard
  abbrev update_with :
      {A : Type 0}
      → Guarded D
      → (D → Outcome A × D)
      → LockResult (CondvarGuard D)
      → Outcome A × Guarded D
  update_with s f (ok g) = let (r, d) = f (deref g) in (r, drop_guard s (deref_mut g d) (unwinds r))
  update_with s f (poison_error g) = (panicked, drop_guard s g true)

  unfoldable pub update : {A : Type 0} → Guarded D → (D → Outcome A × D) → Outcome A × Guarded D
  update s f = update_with s f (lock_condvar s.mutex)

  -- updates one after the other, each by a thread of its own
  unfoldable pub update_all :
      {A : Type 0} → Guarded D → List (D → Outcome A × D) → List (Outcome A) × Guarded D
  unfolding update
  update_all s [] = ([], s)
  update_all s (f ∷ fs) =
      let (r, s') = update s f in let (rs, s'') = update_all s' fs in (r ∷ rs, s'')
