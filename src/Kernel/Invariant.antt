-- ===== src/Kernel/Invariant.antt =====
-- What every function of scheduler.c keeps.
use operativsystemer.Base.{
  fun_ext, ℕ, ◌+◌, ◌^◌, ◌<◌, ◌≤◌, ◌≡◌, refl, sym, subst, List, [], ◌∷◌, ◌++◌, append_assoc, arith,
  inl, inr, Bool-cases, leb,
}
use operativsystemer.Queue.Chain.{
  ◌∉◌, Distinct, has-append, Distinct-left, Distinct-right, Distinct-parts, Distinct-join,
  Distinct-insert,
}
use operativsystemer.Queue.Sorted.{All, IsSorted}
use operativsystemer.Kernel.{
  Kernel, priority_of, Status, ready, blocked, set_status, order_by_wake_up, make_ready, try_wake,
  wake_loop, put_current_running, unblock,
}
use operativsystemer.Kernel.Lottery.{tickets, tickets-append}

-- The ready and the sleeping tasks have less than 2^31 tickets, `total_ready_priority` counts those of
-- the ready queue, every task has a ticket, no task is
-- queued twice, ready tasks are READY, sleeping ones BLOCKED, and the first sleeper wakes first.
pub record IsScheduled (k : Kernel) : Type 0 where
  pub total : k.total_ready_priority ≡ tickets (priority_of k) k.ready_queue
  pub small : tickets (priority_of k) (k.ready_queue ++ k.sleep_queue) < 2 ^ 31
  pub positive : (t : ℕ) → 1 ≤ (k.pcb t).priority
  pub apart : Distinct (k.ready_queue ++ k.sleep_queue)
  pub runnable : All (λ t. (k.pcb t).status ≡ ready) k.ready_queue
  pub asleep : All (λ t. (k.pcb t).status ≡ blocked) k.sleep_queue
  pub sorted : IsSorted (order_by_wake_up k) k.sleep_queue

pub All-append : (P : ℕ → Type 0) (xs ys : List ℕ) → All P xs → All P ys → All P (xs ++ ys)
All-append P [] ys a b = b
All-append P (x ∷ xs) ys a b = (a.0, All-append P xs ys a.1 b)

-- A change of the status of one task is seen by no queue that it does not stand in.
pub All-status :
    (k : Kernel) (t : ℕ) (s s' : Status) (xs : List ℕ)
    → t ∉ xs
    → All (λ u. (k.pcb u).status ≡ s') xs
    → All (λ u. ((set_status k t s).pcb u).status ≡ s') xs
All-status k t s s' [] o a = tt
All-status k t s s' (x ∷ xs) o a = (ground arith, All-status k t s s' xs (ground arith) a.1)

priority-set_status :
    (k : Kernel) (t : ℕ) (s : Status) → priority_of (set_status k t s) ≡ priority_of k
priority-set_status k t s = fun_ext λ u. ground arith

pub order-eq :
    (k g : Kernel)
    → ((t : ℕ) → (g.pcb t).sleep_until ≡ (k.pcb t).sleep_until)
    → order_by_wake_up g ≡ order_by_wake_up k
unfolding order_by_wake_up
order-eq k g same = fun_ext λ a. fun_ext λ b. ground (arith, same a, same b)

pub sleep_until-make_ready :
    (k : Kernel) (t u : ℕ) → ((make_ready k t).pcb u).sleep_until ≡ (k.pcb u).sleep_until
unfolding make_ready
sleep_until-make_ready k t u = ground arith

pub priority-make_ready : (k : Kernel) (t : ℕ) → priority_of (make_ready k t) ≡ priority_of k
unfolding make_ready
priority-make_ready k t = fun_ext λ u. ground arith

pub sleep_queue-make_ready : (k : Kernel) (t : ℕ) → (make_ready k t).sleep_queue ≡ k.sleep_queue
unfolding make_ready
sleep_queue-make_ready k t = refl

tickets-queued :
    (f : ℕ → ℕ) (t : ℕ) (xs ys : List ℕ)
    → tickets f (xs ++ ys) + f t < 2 ^ 31
    → tickets f ((xs ++ t ∷ []) ++ ys) < 2 ^ 31
unfolding tickets
tickets-queued f t xs ys h = omega (
  arith,
  tickets-append f xs ys,
  tickets-append f (xs ++ t ∷ []) ys,
  tickets-append f xs (t ∷ []),
)

-- A task that stands in no queue may be made ready, as long as there are tickets.
pub make_ready-IsScheduled :
    (k : Kernel) (t : ℕ)
    → IsScheduled k
    → t ∉ (k.ready_queue ++ k.sleep_queue)
    → tickets (priority_of k) (k.ready_queue ++ k.sleep_queue) + priority_of k t < 2 ^ 31
    → IsScheduled (make_ready k t)
unfolding make_ready tickets
make_ready-IsScheduled k t v o fits = record {
  total =
      rw (priority-set_status k t ready, tickets-append)
        (omega (arith, v.total, tickets-append (priority_of k) k.ready_queue k.sleep_queue));
  small =
      rw (priority-set_status k t ready)
        (tickets-queued (priority_of k) t k.ready_queue k.sleep_queue fits);
  positive = ground (arith, v.positive);
  apart =
      rw (append_assoc k.ready_queue (t ∷ []) k.sleep_queue)
        (Distinct-insert t k.ready_queue k.sleep_queue v.apart o);
  runnable =
      All-append _ k.ready_queue (t ∷ [])
        (All-status k t ready ready k.ready_queue
          (ground (arith, has-append t k.ready_queue k.sleep_queue)) v.runnable)
        (ground arith);
  asleep =
      All-status k t ready blocked k.sleep_queue
        (ground (arith, has-append t k.ready_queue k.sleep_queue)) v.asleep;
  sorted =
      subst (λ f. IsSorted f k.sleep_queue)
        (sym (order-eq k (make_ready k t) (sleep_until-make_ready k t))) v.sorted;
}

-- A task is neither running nor queued twice, and with the running one there are still less than 2^31
-- tickets.
pub record IsRunning (k : Kernel) : Type 0 where
  pub scheduled : IsScheduled k
  pub current : k.current_running ∉ (k.ready_queue ++ k.sleep_queue)
  pub bounded :
      tickets (priority_of k) (k.ready_queue ++ k.sleep_queue) + priority_of k k.current_running
      < 2 ^ 31

pub put_current_running-IsScheduled :
    (k : Kernel) → IsRunning k → IsScheduled (put_current_running k)
unfolding put_current_running
put_current_running-IsScheduled k v =
    make_ready-IsScheduled k k.current_running v.scheduled v.current v.bounded

pub unblock-IsScheduled :
    (k : Kernel) (t : ℕ)
    → IsScheduled k
    → t ∉ (k.ready_queue ++ k.sleep_queue)
    → tickets (priority_of k) (k.ready_queue ++ k.sleep_queue) + priority_of k t < 2 ^ 31
    → IsScheduled (unblock k t)
unfolding unblock
unblock-IsScheduled k t v o fits = make_ready-IsScheduled k t v o fits

tickets-woken :
    (f : ℕ → ℕ) (s : ℕ) (xs ys : List ℕ)
    → tickets f (xs ++ s ∷ ys) < 2 ^ 31
    → tickets f (xs ++ ys) + f s < 2 ^ 31
unfolding tickets
tickets-woken f s xs ys h = omega (arith, tickets-append f xs (s ∷ ys), tickets-append f xs ys)

-- The first sleeper may be woken.
wake_first :
    (k : Kernel) (s : ℕ) (rest : List ℕ)
    → k.sleep_queue ≡ s ∷ rest
    → IsScheduled k
    → IsScheduled (make_ready (record k { sleep_queue = rest }) s)
unfolding order_by_wake_up
wake_first k s rest e v =
    make_ready-IsScheduled (record k { sleep_queue = rest }) s
      (record {
        total = v.total;
        small = omega (arith, fits);
        positive = v.positive;
        apart =
            Distinct-join k.ready_queue rest (Distinct-left k.ready_queue (s ∷ rest) apart)
              (Distinct-right k.ready_queue (s ∷ rest) apart).1
              (λ p i. ground (arith, Distinct-parts p k.ready_queue (s ∷ rest) apart));
        runnable = v.runnable;
        asleep = (subst (All (λ t. (k.pcb t).status ≡ blocked)) e v.asleep).1;
        sorted = (subst (IsSorted (order_by_wake_up k)) e v.sorted).1;
      })
      (ground (
        arith,
        has-append s k.ready_queue rest,
        Distinct-parts s k.ready_queue (s ∷ rest) apart,
        Distinct-right k.ready_queue (s ∷ rest) apart,
      ))
      fits
  where
    fits : tickets (priority_of k) (k.ready_queue ++ rest) + priority_of k s < 2 ^ 31
    fits =
        tickets-woken (priority_of k) s k.ready_queue rest
          (subst (λ l. tickets (priority_of k) (k.ready_queue ++ l) < 2 ^ 31) e v.small)

    apart : Distinct (k.ready_queue ++ s ∷ rest)
    apart = subst (λ l. Distinct (k.ready_queue ++ l)) e v.apart

wake_loop-IsScheduled :
    (now : ℕ) (xs : List ℕ) (k : Kernel)
    → k.sleep_queue ≡ xs
    → IsScheduled k
    → IsScheduled (wake_loop now xs k)
unfolding wake_loop
wake_loop-IsScheduled now [] k e v = v
wake_loop-IsScheduled now (s ∷ rest) k e v = elim (Bool-cases (leb (k.pcb s).sleep_until now)) [
  | inl due ↦ rw due (
      wake_loop-IsScheduled now rest _ (sleep_queue-make_ready (record k { sleep_queue = rest }) s)
        (wake_first k s rest e v))
  | inr not_yet ↦ rw not_yet v
]

pub try_wake-IsScheduled : (k : Kernel) → IsScheduled k → IsScheduled (try_wake k)
unfolding try_wake
try_wake-IsScheduled k v = wake_loop-IsScheduled k.num_ticks k.sleep_queue k refl v
