-- ===== src/Tests/Locks.antt =====
-- sync.c on the tasks of the scheduler's tests.
use operativsystemer.Base.{
  ℕ, ◌+◌, ◌≤◌, ◌≡◌, ◌≢◌, ◌↔◌, refl, true, inr, none, some, [], ◌∷◌, ◌++◌, arith, ◌==◌,
  if◌then◌else◌, length,
}
use operativsystemer.Kernel.{Kernel, Pcb, blocked}
use operativsystemer.Kernel.Invariant.{IsScheduled}
use operativsystemer.Kernel.Lottery.{tickets}
use operativsystemer.Sync.{
  System, locked, returned, Semaphore, num_pcbs, check_for_deadlock, lock_acquire,
  lock_acquire_resume, lock_release, condition_broadcast, barrier_init,
}
use operativsystemer.Sync.Deadlock.{WaitsFor, check_for_deadlock_iff}
use operativsystemer.Sync.Handover.{lock_release-two_holders}
use operativsystemer.Sync.Waking.{condition_broadcast-ready}
use operativsystemer.Sync.Semaphores.{up, down, ups, downs, run, IsBalanced, run-level}
use operativsystemer.Sync.Barriers.{arrive, arrive_all, barrier_round}

abbrev task : Pcb
task = record {
  priority = 1;
  status = blocked;
  entry_count = 0;
  sleep_until = 0;
  last_entry_time = 0;
  total_process_time = 0;
  waiting_for_lock = none;
}

-- Task 1 runs, holds lock 0 and waits for lock 1; task 2 holds lock 1 and waits for lock 0.
abbrev kernel : Kernel
kernel = record {
  pcb = λ t. record task {
    waiting_for_lock = if t == 1 then some 1 else if t == 2 then some 0 else none;
  };
  current_running = 1;
  ready_queue = [];
  sleep_queue = [];
  total_ready_priority = 0;
  num_ticks = 0;
  my_rand = 7;
}

abbrev crossed : System
crossed = record {
  kernel = kernel;
  locks = λ l. record {
    status = locked;
    wait_queue = if l == 0 then 2 ∷ 5 ∷ [] else [];
    owner = if l == 0 then some 1 else some 2;
  };
}

check_for_deadlock_iff_example :
    (check_for_deadlock crossed (some 2) 1 ≡ true)
    ↔ ((n : ℕ) × (n ≤ num_pcbs) × WaitsFor crossed 1 n (some 2))
check_for_deadlock_iff_example = check_for_deadlock_iff crossed 1 (some 2)

crossed_deadlock : check_for_deadlock crossed (some 2) 1 ≡ true
crossed_deadlock =
    check_for_deadlock_iff_example.1
      (1, omega arith, WaitsFor.step (omega arith) refl (WaitsFor.here refl))

-- Task 3 runs before task 2 and takes the lock.
abbrev third : Kernel
third = record kernel { current_running = 3 }

abbrev released : System
released = record (lock_release 0 crossed) { kernel = third }

lock_release-two_holders_example :
    ((released.locks 0).owner ≡ some 2)
    × ((lock_acquire 0 released).0 ≡ returned 0)
    × (((lock_acquire 0 released).1.locks 0).owner ≡ some 3)
    × ((lock_acquire_resume 0 (lock_acquire 0 released).1).0 ≡ returned 0)
    × (((lock_acquire_resume 0 (lock_acquire 0 released).1).1.locks 0).owner ≢ some 2)
lock_release-two_holders_example =
    lock_release-two_holders 0 2 (5 ∷ []) crossed third refl (omega arith)

kernel-IsScheduled : IsScheduled kernel
unfolding tickets
kernel-IsScheduled = record {
  total = refl;
  small = omega arith;
  positive = λ t. ground arith;
  apart = tt;
  runnable = tt;
  asleep = tt;
  sorted = tt;
}

condition_broadcast-ready_example :
    ((condition_broadcast (5 ∷ 2 ∷ []) kernel).0 ≡ [])
    × ((condition_broadcast (5 ∷ 2 ∷ []) kernel).1.ready_queue ≡ [] ++ 5 ∷ 2 ∷ [])
    × ((condition_broadcast (5 ∷ 2 ∷ []) kernel).1.sleep_queue ≡ [])
    × IsScheduled (condition_broadcast (5 ∷ 2 ∷ []) kernel).1
condition_broadcast-ready_example =
    condition_broadcast-ready (5 ∷ 2 ∷ []) kernel kernel-IsScheduled (ground arith) (λ t i. refl)
      (unfold tickets in omega arith)

abbrev closed_semaphore : Semaphore
closed_semaphore = record { value = 1; wait_queue = [] }

run-level_example :
    IsBalanced (run (down 1 ∷ down 2 ∷ up 1 ∷ []) (closed_semaphore, kernel)).0
    × ((run (down 1 ∷ down 2 ∷ up 1 ∷ []) (closed_semaphore, kernel)).0.value
          + 0
          + downs (down 1 ∷ down 2 ∷ up 1 ∷ [])
        ≡ 1
          + ups (down 1 ∷ down 2 ∷ up 1 ∷ [])
          + length (run (down 1 ∷ down 2 ∷ up 1 ∷ []) (closed_semaphore, kernel)).0.wait_queue)
unfolding ups
run-level_example =
    run-level (down 1 ∷ down 2 ∷ up 1 ∷ []) closed_semaphore kernel (omega arith) (inr refl)

barrier_round_example :
    let (b, g) = arrive_all (barrier_init 3, kernel) (1 ∷ 2 ∷ []) in
    let (result, b', g') = arrive (b, g) 5 in
    (g.ready_queue ≡ [])
    × (result ≡ returned 0)
    × (g'.ready_queue ≡ [] ++ 1 ∷ 2 ∷ [])
    × (b' ≡ barrier_init 3)
barrier_round_example = barrier_round (1 ∷ 2 ∷ []) 5 kernel (omega arith)
