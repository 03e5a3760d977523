-- ===== src/Thread.antt =====
-- The locks and condition variables of cos318-project6/thread.c over the ring of jobs. A job that
-- finds a spinlock taken yields until it is free: here it gets `none`. A call that blocks is its part
-- up to the next job.
pub mod Lines
pub mod Served
pub mod Safety
use operativsystemer.Base.{
  ℕ, zero, suc, Bool, true, false, Option, none, some, ◌>>=◌, ◌==◌, if◌then◌else◌,
}
use operativsystemer.Queue.{Ptr, null}
use operativsystemer.Jobs.{Machine, schedule, join, unblock}

abbrev pub unlocked : ℕ
unlocked = 0

abbrev pub locked : ℕ
locked = 1

-- `lock_t` and `condition_t`.
pub record JobLock : Type 0 where
  pub waiting : Ptr
  pub status : ℕ
  pub spinlock : ℕ

pub record Condition : Type 0 where
  pub spinlock : ℕ
  pub waiting : Ptr

-- The value that was there, and the new one.
abbrev pub test_and_set : ℕ → ℕ × ℕ
test_and_set s = (s, locked)

abbrev pub spinlock_init : ℕ
spinlock_init = unlocked

abbrev pub spinlock_acquire : ℕ → Option ℕ
spinlock_acquire s = let (old, new) = test_and_set s in if old == unlocked then some new else none

abbrev pub spinlock_release : ℕ → Option ℕ
spinlock_release s = if s == locked then some unlocked else none

abbrev pub lock_init : JobLock
lock_init = record { waiting = null; status = unlocked; spinlock = spinlock_init }

-- `block` of scheduler.c, with the waiting list and the spinlock that it gets.
unfoldable pub block : ℕ → (ℕ → ℕ) → Ptr → ℕ → Machine → Option (Ptr × ℕ × Machine)
block fuel timer q spinlock m = spinlock_release spinlock >>= (λ s.
    let joined = join q m in schedule fuel timer joined.1 >>= (λ n. some (joined.0, s, n)))

unfoldable pub lock_acquire : ℕ → (ℕ → ℕ) → JobLock → Machine → Option (JobLock × Machine)
lock_acquire fuel timer l m = spinlock_acquire l.spinlock >>= (λ s.
    if l.status == unlocked
    then spinlock_release s >>= (λ s'. some (record l { status = locked; spinlock = s' }, m))
    else block fuel timer l.waiting s m
      >>= (λ r. some (record l { waiting = r.0; spinlock = r.1 }, r.2)))

unfoldable pub lock_release : ℕ → JobLock → Machine → Option (JobLock × Machine)
lock_release fuel l m = spinlock_acquire l.spinlock >>= (λ s.
    released >>= (λ r. spinlock_release s >>= (λ s'. some (record r.0 { spinlock = s' }, r.1))))
  where
    released : Option (JobLock × Machine)
    released =
        if l.waiting == null
        then some (record l { status = unlocked }, m)
        else unblock fuel l.waiting m >>= (λ r. some (record l { waiting = r.0 }, r.1))

abbrev pub condition_init : Condition
condition_init = record { spinlock = spinlock_init; waiting = null }

-- Up to the next job: when the caller runs again, it goes on with `lock_acquire` of the lock.
unfoldable pub condition_wait :
    ℕ → (ℕ → ℕ) → JobLock → Condition → Machine → Option (JobLock × Condition × Machine)
condition_wait fuel timer l c m = spinlock_acquire c.spinlock >>= (λ s.
    lock_release fuel l m >>= (λ r.
      block fuel timer c.waiting s r.1
      >>= (λ b. some (r.0, record { spinlock = b.1; waiting = b.0 }, b.2))))

unfoldable pub condition_signal : ℕ → Condition → Machine → Option (Condition × Machine)
condition_signal fuel c m = spinlock_acquire c.spinlock >>= (λ s.
    woken
    >>= (λ r. spinlock_release s >>= (λ s'. some (record { spinlock = s'; waiting = r.0 }, r.1))))
  where
    woken : Option (Ptr × Machine)
    woken = if c.waiting == null then some (null, m) else unblock fuel c.waiting m

-- The loop of `condition_broadcast`, on fuel.
unfoldable pub unblock_each : ℕ → Ptr → Machine → Option (Ptr × Machine)
unblock_each zero q m = none
unblock_each (suc fuel) q m =
    if q == null then some (q, m) else unblock fuel q m >>= (λ r. unblock_each fuel r.0 r.1)

unfoldable pub condition_broadcast : ℕ → Condition → Machine → Option (Condition × Machine)
condition_broadcast fuel c m = spinlock_acquire c.spinlock >>= (λ s.
    unblock_each fuel c.waiting m
    >>= (λ r. spinlock_release s >>= (λ s'. some (record { spinlock = s'; waiting = r.0 }, r.1))))
