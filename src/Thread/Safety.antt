-- ===== src/Thread/Safety.antt =====
-- Mutual exclusion by a lock of cos318-project6/thread.c, in every order of the jobs' steps.
use operativsystemer.Base.{
  ◌≡◌, inl, inr, refl, sym, ap, true, List, [], ◌∷◌, arith, ◌==◌, Bool-cases,
}
use operativsystemer.Queue.{Ptr}
use operativsystemer.Queue.Chain.{has}
use operativsystemer.Jobs.{JobStatus}
use operativsystemer.Jobs.Keeps.{can_run}
use operativsystemer.Thread.{JobLock, locked}
use operativsystemer.Thread.Lines.{IsLine}
use operativsystemer.Thread.Served.{
  System, Step, acquires, releases, yields, exits, Reach, here, next, IsParked, IsServed,
  acquire-IsServed, release-IsServed, yield-IsServed, exit-IsServed, can_run-ne,
}

-- The current job stands in no place of the line but the first.
current-first :
    (f : Ptr → JobStatus) (nb : Ptr → Ptr) (l : JobLock) (c : Ptr) (line : List Ptr)
    → can_run (f c) ≡ true
    → IsParked f line
    → IsLine nb l line
    → has c line ≡ true
    → (rest : List Ptr) × (line ≡ c ∷ rest) × (l.status ≡ locked)
current-first f nb l c [] can parked served i = absurd (ground arith)
current-first f nb l c (o ∷ ws) can parked served i = elim (Bool-cases (c == o)) [
  | inl e ↦ (let same : c ≡ o = ground arith in (ws, ap (λ a. a ∷ ws) (sym same), served.1))
  | inr n ↦ absurd (can_run-ne f c c can (parked c (ground arith)) refl)
]

-- Every step leads from a line that is served to one that is.
pub Step-IsServed : {s t : System} → Step s t → IsServed s → IsServed t
Step-IsServed (acquires fuel timer m n l k line out r) inv =
    acquire-IsServed fuel timer m n l k line inv out r
Step-IsServed (releases fuel m n l k line f r) inv = release-IsServed fuel m n l k line inv f r
Step-IsServed (yields fuel timer m n l line r) inv = yield-IsServed fuel timer m n l line inv r
Step-IsServed (exits fuel timer m n l line out r) inv = exit-IsServed fuel timer m n l line inv r

pub Reach-IsServed : {s t : System} → IsServed s → Reach s t → IsServed t
Reach-IsServed inv here = inv
Reach-IsServed inv (next r step) = Step-IsServed step (Reach-IsServed inv r)

-- From a ring of jobs that may run and a lock that serves its line, in every order of calls of
-- lock_acquire, lock_release, yield and exit by the current jobs, where a job asks for the lock and exits only
-- while it neither has the lock nor waits for it, and only the first of the line, which has the
-- lock, releases it: a job that runs and has asked for the lock is the first of the line, and the lock
-- is locked; so no two jobs have it, and the lock goes from job to job in the order in which they
-- asked for it.
pub Reach-current_first :
    (s t : System)
    → IsServed s
    → Reach s t
    → has t.machine.current_running t.line ≡ true
    → (rest : List Ptr) × (t.line ≡ t.machine.current_running ∷ rest) × (t.lock.status ≡ locked)
Reach-current_first s t inv r i =
    let after : IsServed t = Reach-IsServed inv r in
    current-first t.machine.status t.machine.next_blocked t.lock t.machine.current_running t.line
      (after.can t.machine.current_running (ground arith)) after.parked after.served i
