-- ===== src/Thread/Lines.antt =====
-- A lock of cos318-project6/thread.c is a line of jobs: the first one has the lock, the others wait
-- for it in the order of their arrival.
use operativsystemer.Base.{
  ℕ, ◌≤◌, ◌≡◌, ◌≢◌, refl, some, List, [], ◌∷◌, ◌++◌, length, arith, ==_ne, ==_refl,
}
use operativsystemer.Queue.{Ptr, null, update}
use operativsystemer.Queue.Chain.{◌∉◌, Distinct}
use operativsystemer.Jobs.{Machine, schedule, join, unblock, wake}
use operativsystemer.Jobs.Waiting.{Line, Line-frame, Line-snoc, Line-ne_null, unblock-oldest}
use operativsystemer.Thread.{JobLock, unlocked, locked, block, lock_acquire, lock_release}

-- The state of a lock that the jobs of the line have asked for.
abbrev pub IsLine : (Ptr → Ptr) → JobLock → List Ptr → Type 0
IsLine nb l [] = (l.spinlock ≡ unlocked) × (l.status ≡ unlocked) × (l.waiting ≡ null)
IsLine nb l (o ∷ ws) = (l.spinlock ≡ unlocked) × (l.status ≡ locked) × Line nb null ws l.waiting

-- lock_acquire of a free lock.
pub lock_acquire-free :
    (fuel : ℕ) (timer : ℕ → ℕ) (l : JobLock) (m : Machine)
    → IsLine m.next_blocked l []
    → (k : JobLock) × (lock_acquire fuel timer l m ≡ some (k, m))
      × IsLine m.next_blocked k (m.current_running ∷ [])
unfolding lock_acquire
lock_acquire-free fuel timer l m h = (
  record { waiting = l.waiting; status = locked; spinlock = unlocked },
  rw (h.0) (rw (h.1) refl),
  (refl, refl, h.2),
)

-- lock_acquire of a lock that is taken is the part of block up to the next job.
pub lock_acquire-taken :
    (fuel : ℕ) (timer : ℕ → ℕ) (l : JobLock) (m n : Machine) (o : Ptr) (ws : List Ptr)
    → IsLine m.next_blocked l (o ∷ ws)
    → schedule fuel timer (join l.waiting m).1 ≡ some n
    → lock_acquire fuel timer l m
      ≡ some (record { waiting = m.current_running; status = l.status; spinlock = unlocked }, n)
unfolding lock_acquire block join
lock_acquire-taken fuel timer l m n o ws h e = rw (h.0) (rw (h.1) (rw e refl))

pub lock_acquire-IsLine :
    (nb : Ptr → Ptr) (l : JobLock) (c : Ptr) (o : Ptr) (ws : List Ptr)
    → IsLine nb l (o ∷ ws)
    → c ≢ null
    → c ∉ ws
    → IsLine
        (update nb c l.waiting)
        (record { waiting = c; status = l.status; spinlock = unlocked })
        (o ∷ (ws ++ c ∷ []))
lock_acquire-IsLine nb l c o ws h n out = (
  refl,
  h.1,
  Line-snoc (update nb c l.waiting) null ws l.waiting c n (rw (==_refl c) refl)
      (Line-frame nb (update nb c l.waiting) null ws l.waiting (λ p i. ground arith) h.2),
)

-- lock_release with no job waiting.
pub lock_release-last :
    (fuel : ℕ) (l : JobLock) (m : Machine) (o : Ptr)
    → IsLine m.next_blocked l (o ∷ [])
    → (k : JobLock) × (lock_release fuel l m ≡ some (k, m)) × IsLine m.next_blocked k []
unfolding lock_release
lock_release-last fuel l m o h = (
  record { waiting = l.waiting; status = unlocked; spinlock = unlocked },
  rw (h.0) (rw (h.2) refl),
  (refl, refl, h.2),
)

-- lock_release hands the lock to the job that has waited longest, and wakes it.
pub lock_release-next :
    (fuel : ℕ) (l : JobLock) (m : Machine) (o w : Ptr) (ws : List Ptr)
    → IsLine m.next_blocked l (o ∷ w ∷ ws)
    → Distinct (w ∷ ws)
    → length ws ≤ fuel
    → (k : JobLock) × (nb : Ptr → Ptr) × (lock_release fuel l m
        ≡ some (k, wake w (record m { next_blocked = nb })))
      × IsLine nb k (w ∷ ws)
unfolding lock_release
lock_release-next fuel l m o w ws h d f =
    let taken : (r : Ptr) × (nb : Ptr → Ptr) × (unblock fuel l.waiting m
          ≡ some (r, wake w (record m { next_blocked = nb })))
        × Line nb null ws r
        × ((p : Ptr) → p ∉ ws → nb p ≡ m.next_blocked p) =
      unblock-oldest fuel m w ws l.waiting h.2 d f in
    (
      record { waiting = taken.0; status = l.status; spinlock = unlocked },
      taken.1,
      rw (h.0) (
          rw (==_ne l.waiting null (Line-ne_null m.next_blocked w ws l.waiting h.2.0.0 h.2.1))
            (rw (taken.2) refl)),
      (refl, h.1, taken.3),
    )
