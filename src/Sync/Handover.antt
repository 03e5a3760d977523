-- ===== src/Sync/Handover.antt =====
-- How a lock goes from the task that releases it to the next one.
use operativsystemer.Base.{ℕ, ◌≡◌, ◌≢◌, some, List, ◌∷◌, arith}
use operativsystemer.Kernel.{Kernel}
use operativsystemer.Sync.{System, returned, lock_acquire, lock_acquire_resume, lock_release}

-- `lock_release` names the first waiting task the owner, but the lock stays open until that task runs:
-- whichever task runs before it gets the lock at once from `lock_acquire` and becomes the owner, and the
-- first task, when it runs, also returns from its `lock_acquire` with success. So two tasks hold one lock after any release to a waiting task `p`
-- and an attempt of another task `c`, whatever the scheduler (the kernel `k`) has done between.
pub lock_release-two_holders :
    (l p : ℕ) (rest : List ℕ) (s : System) (k : Kernel)
    → (s.locks l).wait_queue ≡ p ∷ rest
    → k.current_running ≢ p
    → let s₁ = record (lock_release l s) { kernel = k } in
      let (result, s₂) = lock_acquire l s₁ in
      let (result', s₃) = lock_acquire_resume l s₂ in
      ((s₁.locks l).owner ≡ some p)
      × (result ≡ returned 0)
      × ((s₂.locks l).owner ≡ some k.current_running)
      × (result' ≡ returned 0)
      × ((s₃.locks l).owner ≢ some p)
unfolding lock_release lock_acquire lock_acquire_resume
lock_release-two_holders l p rest s k e n = ground arith
