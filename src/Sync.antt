-- ===== src/Sync.antt =====
-- Locks, condition variables, semaphores and barriers of cos318-project4/sync.c. A call that
-- blocks is cut in two where `block` hands the processor to another task: the part before it, and
-- the part that runs when the caller is running again.
pub mod Deadlock
pub mod Handover
pub mod Waking
pub mod Semaphores
pub mod Barriers
use operativsystemer.Base.{
  ℕ, zero, suc, ◌+◌, ◌-◌, ◌%◌, ◌^◌, Bool, true, false, ◌&&◌, ◌||◌, not, Option, none, some, List,
  [], ◌∷◌, ◌++◌, ◌==◌, ltb, leb, if◌then◌else◌,
}
use operativsystemer.Kernel.{Kernel, Pcb, blocked, update_pcb, set_status, unblock, is_empty}

pub data LockStatus : Type 0 where
  unlocked locked : LockStatus

pub record Lock : Type 0 where
  pub status : LockStatus
  pub wait_queue : List ℕ
  pub owner : Option ℕ

-- The kernel, and the locks by their names.
pub record System : Type 0 where
  pub kernel : Kernel
  pub locks : ℕ → Lock

abbrev pub num_pcbs : ℕ
num_pcbs = 32

abbrev pub set_lock : System → ℕ → Lock → System
set_lock s l v = record s { locks = λ a. if a == l then v else s.locks a }

abbrev pub set_waiting : Kernel → ℕ → Option ℕ → Kernel
set_waiting k t w = record k {
  pcb = update_pcb k.pcb t (record (k.pcb t) { waiting_for_lock = w });
}

-- The walk from an owner to the owner of the lock that it waits for; the number is the rounds left.
pub deadlock_loop : System → ℕ → ℕ → Option ℕ → Bool
deadlock_loop s src zero i = false
deadlock_loop s src (suc timeout) none = false
deadlock_loop s src (suc timeout) (some i) = elim (s.kernel.pcb i).waiting_for_lock [
  | none ↦ false
  | some l ↦
      (let next = deadlock_loop s src timeout (s.locks l).owner in if i == src then true else next)
]

-- `timeout` runs from NUM_PCBS down to 0.
pub check_for_deadlock : System → Option ℕ → ℕ → Bool
unfolding deadlock_loop
check_for_deadlock s owner src = deadlock_loop s src (num_pcbs + 1) owner

-- The result, the queue that is left, and the kernel.
pub unblock_one : List ℕ → Kernel → Option ℕ × List ℕ × Kernel
unblock_one [] k = (none, [], k)
unblock_one (p ∷ rest) k = (some p, rest, unblock k p)

pub unblock_all : List ℕ → Kernel → Kernel
unblock_all [] k = k
unblock_all (p ∷ rest) k = unblock_all rest (unblock k p)

-- The part of `block` before the scheduler runs.
pub block : List ℕ → Kernel → List ℕ × Kernel
block wait_queue k = (wait_queue ++ k.current_running ∷ [], set_status k k.current_running blocked)

abbrev pub fresh_lock : Lock
fresh_lock = record { status = unlocked; wait_queue = []; owner = none }

pub lock_init : ℕ → System → System
lock_init l s = set_lock s l fresh_lock

-- How a call comes back: with its result, or only after another task has run.
pub data Outcome : Type 0 where
  returned : ℕ → Outcome
  blocks : Outcome

abbrev is_locked : LockStatus → Bool
is_locked locked = true
is_locked unlocked = false

-- `lock_acquire_helper` up to its call of `block`.
pub lock_acquire : ℕ → System → Outcome × System
unfolding check_for_deadlock block
lock_acquire l s =
    if is_locked (s.locks l).status
    then (if check_for_deadlock waiting (s.locks l).owner c
        then (returned 1, record s { kernel = set_waiting waiting.kernel c none })
        else (
          blocks,
          set_lock (record s { kernel = enqueued.1 }) l
              (record (s.locks l) { wait_queue = enqueued.0 }),
        ))
    else (
      returned 0,
      set_lock (record s { kernel = set_waiting s.kernel c none }) l
          (record (s.locks l) { status = locked; owner = some c }),
    )
  where
    c : ℕ
    c = s.kernel.current_running

    waiting : System
    waiting = record s { kernel = set_waiting s.kernel c (some l) }

    enqueued : List ℕ × Kernel
    enqueued = block (s.locks l).wait_queue waiting.kernel

-- What is left of `lock_acquire_helper` when a blocked caller runs again.
pub lock_acquire_resume : ℕ → System → Outcome × System
lock_acquire_resume l s = (returned 0, set_lock s l (record (s.locks l) { status = locked }))

release_to : Option ℕ → Kernel → Kernel
release_to none k = k
release_to (some p) k = set_waiting k p none

pub lock_release : ℕ → System → System
unfolding unblock_one release_to
lock_release l s =
    let (p, rest, k) = unblock_one (s.locks l).wait_queue s.kernel in
    set_lock (record s { kernel = release_to p k }) l
      (record { status = unlocked; wait_queue = rest; owner = p })

-- `condition_wait(m, c)` up to its call of `block`; it goes on with `lock_acquire m`.
pub condition_wait : ℕ → List ℕ → System → List ℕ × System
unfolding lock_release block
condition_wait m wait_queue s =
    let s' = lock_release m s in
    let (queue, k) = block wait_queue s'.kernel in (queue, record s' { kernel = k })

pub condition_signal : List ℕ → Kernel → List ℕ × Kernel
unfolding unblock_one
condition_signal wait_queue k = let (p, rest, k') = unblock_one wait_queue k in (rest, k')

pub condition_broadcast : List ℕ → Kernel → List ℕ × Kernel
unfolding unblock_all
condition_broadcast wait_queue k = ([], unblock_all wait_queue k)

pub record Semaphore : Type 0 where
  pub value : ℕ
  pub wait_queue : List ℕ

pub semaphore_init : ℕ → Semaphore
semaphore_init value = record { value = value; wait_queue = [] }

pub semaphore_up : Semaphore → Kernel → Semaphore × Kernel
unfolding unblock_one
semaphore_up s k =
    if ltb s.value 1 && not (is_empty s.wait_queue)
    then (let (p, rest, k') = unblock_one s.wait_queue k in (record s { wait_queue = rest }, k'))
    else (record s { value = (s.value + 1) % 2 ^ 32 }, k)

pub semaphore_down : Semaphore → Kernel → Outcome × Semaphore × Kernel
unfolding block
semaphore_down s k =
    if ltb s.value 1
    then (let (queue, k') = block s.wait_queue k in (blocks, record s { wait_queue = queue }, k'))
    else (returned 0, record s { value = s.value - 1 }, k)

pub record Barrier : Type 0 where
  pub quorum : ℕ
  pub size : ℕ
  pub wait_queue : List ℕ

pub barrier_init : ℕ → Barrier
barrier_init n = record { quorum = n; size = 0; wait_queue = [] }

pub barrier_wait : Barrier → Kernel → Outcome × Barrier × Kernel
unfolding unblock_all block
barrier_wait b k =
    if leb b.quorum ((b.size + 1) % 2 ^ 32)
    then (returned 0, record b { size = 0; wait_queue = [] }, unblock_all b.wait_queue k)
    else (let (queue, k') = block b.wait_queue k in
        (blocks, record b { size = (b.size + 1) % 2 ^ 32; wait_queue = queue }, k'))
