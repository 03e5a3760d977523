-- ===== src/Kernel/Sleep.antt =====
-- `do_sleep` keeps the sleep queue in the order of the wake-up times.
use operativsystemer.Base.{
  ◌+◌, ◌%◌, ◌^◌, ◌<◌, Bool, refl, ◌++◌, ℕ, ◌≡◌, ◌≢◌, sym, subst, ◌||◌, ==_ne, true, some, List, [],
  ◌∷◌, arith, fun_ext,
}
use operativsystemer.Queue.Chain.{
  has, ◌∉◌, has-append, Distinct-left, Distinct-right, Distinct-parts, Distinct-join,
}
use operativsystemer.Queue.Sorted.{
  All, IsSorted, insert_sorted, insert_sorted-IsSorted, insert_sorted-All, insert_sorted-Distinct,
  has-insert_sorted,
}
use operativsystemer.Kernel.{
  Kernel, ready, blocked, priority_of, order_by_wake_up, do_sleep, prepare_sleep, mark_sleeping,
  scheduler,
}
use operativsystemer.Kernel.Lottery.{tickets, tickets-append}
use operativsystemer.Kernel.Idle.{Wakes}
use operativsystemer.Kernel.Run.{scheduler-IsRunning}
use operativsystemer.Kernel.Invariant.{IsScheduled, IsRunning}

-- The order of sleepers is not changed by the wake-up time of a task that is not among them.
order-except :
    (k g : Kernel) (c : ℕ)
    → ((t : ℕ) → t ≢ c → (g.pcb t).sleep_until ≡ (k.pcb t).sleep_until)
    → (xs : List ℕ) → c ∉ xs
    → IsSorted (order_by_wake_up k) xs
    → IsSorted (order_by_wake_up g) xs
unfolding order_by_wake_up
order-except k g c same [] o s = tt
order-except k g c same (x ∷ xs) o s =
    (first_of_rest xs (ground arith) s.0, order-except k g c same xs (ground arith) s.1)
  where
    first_of_rest :
        (ys : List ℕ)
        → c ∉ ys
        → All (λ y. order_by_wake_up k x y ≡ true) ys
        → All (λ y. order_by_wake_up g x y ≡ true) ys
    first_of_rest [] o' a = tt
    first_of_rest (y ∷ ys) o' a =
        (ground (arith, same x, same y), first_of_rest ys (ground arith) a.1)

All-except :
    (P Q : ℕ → Type 0) (c : ℕ)
    → ((t : ℕ) → t ≢ c → P t → Q t)
    → (xs : List ℕ) → c ∉ xs
    → All P xs
    → All Q xs
All-except P Q c f [] o a = tt
All-except P Q c f (x ∷ xs) o a = (f x (ground arith) a.0, All-except P Q c f xs (ground arith) a.1)

tickets-insert_sorted :
    (f : ℕ → ℕ) (lte : ℕ → ℕ → Bool) (c : ℕ) (xs : List ℕ)
    → tickets f (insert_sorted lte c xs) ≡ f c + tickets f xs
unfolding tickets insert_sorted
tickets-insert_sorted f lte c [] = refl
tickets-insert_sorted f lte c (x ∷ xs) = ground (arith, tickets-insert_sorted f lte c xs)

module _ (milliseconds : ℕ) (k : Kernel) (v : IsRunning k) where
  abbrev marked : Kernel
  marked = mark_sleeping milliseconds k

  order_total : (a b : ℕ) → (order_by_wake_up marked a b || order_by_wake_up marked b a) ≡ true
  unfolding order_by_wake_up
  order_total a b = ground arith

  order_trans :
      (a b d : ℕ)
      → order_by_wake_up marked a b ≡ true
      → order_by_wake_up marked b d ≡ true
      → order_by_wake_up marked a d ≡ true
  unfolding order_by_wake_up
  order_trans a b d p q = ground arith

  out : (k.current_running ∉ k.ready_queue) × (k.current_running ∉ k.sleep_queue)
  out = ground (arith, v.current, has-append k.current_running k.ready_queue k.sleep_queue)

  other : (t : ℕ) → t ≢ k.current_running → marked.pcb t ≡ k.pcb t
  other t n = rw (==_ne t k.current_running n)

  same_priority : priority_of marked ≡ priority_of k
  same_priority = fun_ext λ t. ground arith

  -- The running task may join the sleepers: `do_sleep` keeps the sleep queue in order.
  pub prepare_sleep-IsScheduled : IsScheduled (prepare_sleep milliseconds k)
  unfolding prepare_sleep order_by_wake_up
  prepare_sleep-IsScheduled = record {
    total =
        subst (λ f. k.total_ready_priority ≡ tickets f k.ready_queue) (sym same_priority)
          v.scheduled.total;
    small =
        subst
          (λ f.
            tickets f (k.ready_queue ++ insert_sorted (order_by_wake_up marked) c k.sleep_queue)
            < 2 ^ 31)
          (sym same_priority)
          (omega (
            arith,
            v.bounded,
            tickets-append (priority_of k) k.ready_queue k.sleep_queue,
            tickets-append (priority_of k) k.ready_queue
                (insert_sorted (order_by_wake_up marked) c k.sleep_queue),
            tickets-insert_sorted (priority_of k) (order_by_wake_up marked) c k.sleep_queue,
          ));
    positive = λ t. ground (arith, v.scheduled.positive t);
    apart =
        Distinct-join k.ready_queue (insert_sorted (order_by_wake_up marked) c k.sleep_queue)
          (Distinct-left k.ready_queue k.sleep_queue v.scheduled.apart)
          (insert_sorted-Distinct (order_by_wake_up marked) c k.sleep_queue
            (Distinct-right k.ready_queue k.sleep_queue v.scheduled.apart) out.1)
          (λ p i. ground (
            arith,
            has-insert_sorted (order_by_wake_up marked) p c k.sleep_queue,
            out,
            Distinct-parts p k.ready_queue k.sleep_queue v.scheduled.apart,
          ));
    runnable =
        All-except (λ t. (k.pcb t).status ≡ ready) _ c (λ t n h. ground arith) k.ready_queue out.0
          v.scheduled.runnable;
    asleep =
        insert_sorted-All (λ t. (marked.pcb t).status ≡ blocked) (order_by_wake_up marked) c
          k.sleep_queue (ground arith)
          (All-except (λ t. (k.pcb t).status ≡ blocked) _ c (λ t n h. ground arith) k.sleep_queue
            out.1 v.scheduled.asleep);
    sorted =
        insert_sorted-IsSorted (order_by_wake_up marked) order_total order_trans c k.sleep_queue
          (order-except k marked c (λ t n. ground arith) k.sleep_queue out.1 v.scheduled.sorted);
  }
    where
      c : ℕ
      c = k.current_running

-- The state in which the scheduler is called: the task that sleeps has joined the sleepers, who stand in
-- the order of their wake-up times.
pub record HasJoined (milliseconds : ℕ) (k s : Kernel) : Type 0 where
  pub asleep : has k.current_running s.sleep_queue ≡ true
  pub others : (t : ℕ) → t ≢ k.current_running → has t s.sleep_queue ≡ has t k.sleep_queue
  pub sorted : IsSorted (order_by_wake_up s) s.sleep_queue
  pub wake_up : (s.pcb k.current_running).sleep_until ≡ (k.num_ticks + milliseconds) % 2 ^ 64
  pub blocked_status : (s.pcb k.current_running).status ≡ blocked
  pub same_ready : s.ready_queue ≡ k.ready_queue

prepare_sleep-HasJoined :
    (milliseconds : ℕ) (k : Kernel)
    → IsRunning k
    → HasJoined milliseconds k (prepare_sleep milliseconds k)
unfolding prepare_sleep
prepare_sleep-HasJoined milliseconds k v = record {
  asleep = ground (
    arith,
    has-insert_sorted (order_by_wake_up (mark_sleeping milliseconds k)) k.current_running
        k.current_running k.sleep_queue,
  );
  others = λ t n. ground (
    arith,
    has-insert_sorted (order_by_wake_up (mark_sleeping milliseconds k)) t k.current_running
        k.sleep_queue,
  );
  sorted = (unfold prepare_sleep in (prepare_sleep-IsScheduled milliseconds k v).sorted);
  wake_up = ground arith;
  blocked_status = ground arith;
  same_ready = refl;
}

-- Where the running and the queued tasks keep the scheduler's invariant, with less than 2^31 tickets among
-- them, and one is ready or wakes: do_sleep puts the running task into the sleep queue, which stays in the
-- order of the wake-up times, BLOCKED until its time, and then returns with a READY task and with the
-- invariant.
pub do_sleep-IsRunning :
    (timer timer' : ℕ) (ticks : List ℕ) (milliseconds : ℕ) (k : Kernel)
    → IsRunning k
    → Wakes ticks (prepare_sleep milliseconds k)
    → (s : Kernel) × (g : Kernel) × HasJoined milliseconds k s
      × (do_sleep timer timer' ticks milliseconds k ≡ scheduler timer timer' ticks s)
      × (do_sleep timer timer' ticks milliseconds k ≡ some g)
      × IsRunning g
      × ((g.pcb g.current_running).status ≡ ready)
unfolding do_sleep
do_sleep-IsRunning timer timer' ticks milliseconds k v w =
    let (g, run, v', r) =
      scheduler-IsRunning timer timer' ticks (prepare_sleep milliseconds k)
        (prepare_sleep-IsScheduled milliseconds k v) w in
    (prepare_sleep milliseconds k, g, prepare_sleep-HasJoined milliseconds k v, refl, run, v', r)
