-- ===== src/Tests/Threads.antt =====
-- scheduler.c and thread.c of cos318-project6 on a ring of two jobs, 100 and 200.
use operativsystemer.Base.{
  ◌≡◌, refl, true, Option, some, none, List, [], ◌∷◌, arith, ◌==◌, if◌then◌else◌,
}
use operativsystemer.Queue.{Ptr, Heap}
use operativsystemer.Queue.Chain.{has}
use operativsystemer.Jobs.{running, Machine, schedule, yield, join, turn, remove_job}
use operativsystemer.Jobs.Ring.{IsRing}
use operativsystemer.Jobs.Next.{Picked, schedule-Picked}
use operativsystemer.Thread.{JobLock, lock_init, lock_acquire, locked, block}
use operativsystemer.Thread.Served.{System, acquires, yields, Reach, here, next, IsServed}
use operativsystemer.Thread.Safety.{Reach-current_first}

abbrev two_jobs : Heap
two_jobs = record {
  prev = λ p. if p == 100 then 200 else if p == 200 then 100 else 0;
  next = λ p. if p == 100 then 200 else if p == 200 then 100 else 0;
}

abbrev pub start : Machine
start = record {
  ring = two_jobs;
  next_blocked = λ p. 0;
  status = λ p. running;
  wakeup_time = λ p. 0;
  yield_count = λ p. 0;
  current_running = 100;
  next_free_pcb = 0;
}

two_jobs-IsRing : IsRing two_jobs 100 (200 ∷ [])
two_jobs-IsRing = record {
  circle = ((refl, refl), (refl, refl));
  apart = (refl, (refl, tt));
  real = refl;
}

schedule-Picked_example :
    (n : Machine) × (schedule 1 (λ i. i) start ≡ some n) × Picked start n 200 (100 ∷ [])
schedule-Picked_example =
    schedule-Picked 1 (λ i. i) start [] 200 [] two_jobs-IsRing tt refl (omega arith)

abbrev got {ℓ} : {A : Type ℓ} → A → Option A → A
got d none = d
got d (some a) = a

-- 100 takes the lock, 200 comes and waits for it.
abbrev taken : JobLock × Machine
taken = got (lock_init, start) (lock_acquire 5 (λ i. i) lock_init start)

abbrev passed : Machine
passed = got start (yield 5 (λ i. i) taken.1)

abbrev contended : JobLock × Machine
contended = got (lock_init, start) (lock_acquire 5 (λ i. i) taken.0 passed)

abbrev at_start : System
at_start = record { machine = start; lock = lock_init; line = [] }

abbrev at_end : System
at_end = record { machine = contended.1; lock = contended.0; line = 100 ∷ 200 ∷ [] }

way : Reach at_start at_end
unfolding lock_acquire yield schedule block join turn remove_job
way =
    next
      (next (next here (acquires 5 (λ i. i) start taken.1 lock_init taken.0 [] refl refl))
        (yields 5 (λ i. i) taken.1 passed taken.0 (100 ∷ []) refl))
      (acquires 5 (λ i. i) passed contended.1 taken.0 contended.0 (100 ∷ []) refl refl)

start-IsServed : IsServed at_start
start-IsServed = record {
  behind = 200 ∷ [];
  ring = two_jobs-IsRing;
  can = λ p i. refl;
  served = (refl, refl, refl);
  apart = tt;
  parked = tt;
}

back_to_100 : contended.1.current_running ≡ 100
unfolding lock_acquire yield schedule block join turn remove_job
back_to_100 = refl

in_line : has contended.1.current_running (100 ∷ 200 ∷ []) ≡ true
in_line = rw back_to_100 refl

Reach-current_first_example :
    (rest : List Ptr) × ((100 ∷ 200 ∷ []) ≡ contended.1.current_running ∷ rest)
    × (contended.0.status ≡ locked)
Reach-current_first_example = Reach-current_first at_start at_end start-IsServed way in_line
