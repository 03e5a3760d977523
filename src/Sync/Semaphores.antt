-- ===== src/Sync/Semaphores.antt =====
-- Semaphores of sync.c count: the value, less the waiting tasks, goes up by one for each
-- `semaphore_up` and down by one for each `semaphore_down`.
use operativsystemer.Base.{
  ℕ, suc, ◌+◌, ◌^◌, ◌≤◌, ◌<◌, ◌≡◌, ◌⊎◌, refl, List, [], ◌∷◌, arith, length, length-append,
}
use operativsystemer.Kernel.{Kernel}
use operativsystemer.Sync.{Semaphore, semaphore_up, semaphore_down}

-- The calls, each with the task that makes it.
pub data SemaphoreCall : Type 0 where
  up down : ℕ → SemaphoreCall

pub apply : SemaphoreCall → Semaphore × Kernel → Semaphore × Kernel
apply (up t) (s, k) = semaphore_up s (record k { current_running = t })
apply (down t) (s, k) =
    let (_, s', k') = semaphore_down s (record k { current_running = t }) in (s', k')

pub run : List SemaphoreCall → Semaphore × Kernel → Semaphore × Kernel
run [] s = s
run (c ∷ cs) s = run cs (apply c s)

unfoldable pub ups : List SemaphoreCall → ℕ
ups [] = 0
ups (up t ∷ cs) = suc (ups cs)
ups (down t ∷ cs) = ups cs

unfoldable pub downs : List SemaphoreCall → ℕ
downs [] = 0
downs (up t ∷ cs) = downs cs
downs (down t ∷ cs) = suc (downs cs)

-- No task waits while the semaphore has a value.
abbrev pub IsBalanced : Semaphore → Type 0
IsBalanced s = (s.value ≡ 0) ⊎ (s.wait_queue ≡ [])

up-level :
    (s : Semaphore) (k : Kernel) (q : List ℕ)
    → q ≡ s.wait_queue
    → s.value + 1 < 2 ^ 32
    → IsBalanced s
    → let s' = (semaphore_up s k).0 in
      IsBalanced s'
      × (s'.value + length s.wait_queue ≡ s.value + 1 + length s'.wait_queue)
      × (s'.value ≤ s.value + 1)
unfolding semaphore_up
up-level s k [] e small b = ground arith
up-level s k (p ∷ q) e small b = ground arith

down-level :
    (s : Semaphore) (k : Kernel)
    → IsBalanced s
    → let (_, s', _) = semaphore_down s k in
      IsBalanced s'
      × (s'.value + 1 + length s.wait_queue ≡ s.value + length s'.wait_queue)
      × (s'.value ≤ s.value)
unfolding semaphore_down
down-level s k b = grind (arith, length-append)

-- From a semaphore on which no task waits while it has a value, and while the value cannot pass
-- 2^32 - 1, any sequence of calls by any tasks leaves such a semaphore, and value less waiting
-- tasks has changed by the number of `semaphore_up` less that of `semaphore_down`.
pub run-level :
    (cs : List SemaphoreCall) (s : Semaphore) (k : Kernel)
    → s.value + ups cs < 2 ^ 32
    → IsBalanced s
    → let s' = (run cs (s, k)).0 in
      IsBalanced s'
      × (s'.value + length s.wait_queue + downs cs ≡ s.value + ups cs + length s'.wait_queue)
unfolding run ups downs apply
run-level [] s k small b = (b, omega arith)
run-level (up t ∷ cs) s k small b =
    let (b', level, le) =
      up-level s (record k { current_running = t }) s.wait_queue refl (omega arith) b in
    let (b'', level') =
      run-level cs (semaphore_up s (record k { current_running = t })).0
        (semaphore_up s (record k { current_running = t })).1 (omega arith) b' in
    (b'', omega arith)
run-level (down t ∷ cs) s k small b =
    let (b', level, le) = down-level s (record k { current_running = t }) b in
    let (b'', level') =
      run-level cs (semaphore_down s (record k { current_running = t })).1
        (semaphore_down s (record k { current_running = t })).2 (omega arith) b' in
    (b'', omega arith)
