-- ===== src/Util/WaitPeriod.antt =====
-- src/util.rs: `WaitPeriod`, its order, and `wait_receiver`. A `Duration` is a number of nanoseconds.
use Prim.Native.Nat.{compare, Ordering}
use rinklers.Prelude.{ℕ, ◌≤◌, ◌≡◌, ◌⊎◌, Option, none, some, Outcome, done, panicked, arith}

-- `no_wait` is the source's `None`.
pub data WaitPeriod : Type 0 where
  wait : WaitPeriod
  at_most : ℕ → WaitPeriod
  no_wait : WaitPeriod

-- `Ord::cmp`
unfoldable pub cmp : WaitPeriod → WaitPeriod → Ordering
cmp wait wait = Ordering.eq
cmp no_wait no_wait = Ordering.eq
cmp wait (at_most _) = Ordering.gt
cmp wait no_wait = Ordering.gt
cmp (at_most _) no_wait = Ordering.gt
cmp (at_most _) wait = Ordering.lt
cmp no_wait wait = Ordering.lt
cmp no_wait (at_most _) = Ordering.lt
cmp (at_most d₁) (at_most d₂) = compare d₁ d₂

-- `cmp::min` of the standard library: the first argument where the two are equal
unfoldable pub min : WaitPeriod → WaitPeriod → WaitPeriod
unfolding cmp
min a b = elim (cmp a b) [ Ordering.gt ↦ b | _ ↦ a ]

-- The shorter the wait, the smaller the period.
abbrev pub Within : WaitPeriod → WaitPeriod → Type 0
Within a wait = Unit
Within (at_most d) (at_most e) = d ≤ e
Within no_wait (at_most e) = Unit
Within wait (at_most e) = ⊥
Within no_wait no_wait = Unit
Within (at_most d) no_wait = ⊥
Within wait no_wait = ⊥

-- `cmp` is the order by length of the wait: it says `gt` exactly where the first is not within the
-- second, and `eq` exactly for equal periods.
pub cmp-Within :
    (a b : WaitPeriod)
    → ((cmp a b ≡ Ordering.gt) ⊎ Within a b)
      × (cmp a b ≡ Ordering.gt → ¬ Within a b)
      × (cmp a b ≡ Ordering.eq → a ≡ b)
      × (a ≡ b → cmp a b ≡ Ordering.eq)
unfolding cmp
cmp-Within a b = ground arith

-- The shorter of two periods is one of them, and within both.
pub min-Within :
    (a b : WaitPeriod) → Within (min a b) a × Within (min a b) b × ((min a b ≡ a) ⊎ (min a b ≡ b))
unfolding min
min-Within a b = ground arith

pub Within-refl : (a : WaitPeriod) → Within a a
Within-refl wait = tt
Within-refl (at_most d) = omega arith
Within-refl no_wait = tt

pub Within-trans : (a b c : WaitPeriod) → Within a b → Within b c → Within a c
Within-trans a b wait h k = tt
Within-trans (at_most x) (at_most y) (at_most z) h k = omega arith
Within-trans wait (at_most y) (at_most z) h k = h
Within-trans (at_most x) wait (at_most z) h k = elim k [ ]
Within-trans wait wait (at_most z) h k = k
Within-trans no_wait b (at_most z) h k = tt
Within-trans (at_most x) no_wait (at_most z) h k = elim h [ ]
Within-trans wait no_wait (at_most z) h k = h
Within-trans no_wait b no_wait h k = tt
Within-trans a no_wait no_wait h k = h
Within-trans a wait no_wait h k = elim k [ ]
Within-trans a (at_most y) no_wait h k = elim k [ ]

-- What a channel's `recv_timeout` returns.
pub data Received {ℓ} (T : Type ℓ) : Type ℓ where
  message : T → Received T
  timed_out : Received T
  disconnected : Received T

abbrev unwrap {ℓ} : {T : Type ℓ} → Option T → Outcome (Option T)
unwrap (some t) = done (some t)
unwrap none = panicked

abbrev settle {ℓ} : {T : Type ℓ} → Received T → Outcome (Option T)
settle (message t) = done (some t)
settle timed_out = done none
settle disconnected = panicked

-- `recv` is the result of the channel's `recv` (none: the sender is gone), `recv_timeout` that of
-- `recv_timeout` for each duration.
unfoldable pub wait_receiver {ℓ} :
    {T : Type ℓ} → Option T → (ℕ → Received T) → WaitPeriod → Outcome (Option T)
wait_receiver recv recv_timeout wait = unwrap recv
wait_receiver recv recv_timeout (at_most dur) = settle (recv_timeout dur)
wait_receiver recv recv_timeout no_wait = done none
