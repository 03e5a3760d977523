-- ===== src/Kernel/Run.antt =====
-- `scheduler` returns and keeps the invariant, and so do the calls that end in it.
use operativsystemer.Base.{
  ℕ, ◌≤◌, ◌≡◌, ◌≢◌, refl, subst, inl, inr, some, List, [], ◌∷◌, ◌++◌, arith,
}
use operativsystemer.Queue.Sorted.{All}
use operativsystemer.Kernel.{
  Kernel, ready, priority_of, account, dispatch, rand_step, scheduler, do_yield,
  put_current_running, make_ready,
}
use operativsystemer.Kernel.Lottery.{tickets, tickets-append, lottery-Drawn}
use operativsystemer.Kernel.Dispatch.{same_status, account-IsScheduled, dispatch-IsRunning}
use operativsystemer.Kernel.Idle.{Wakes, await_ready-ends}
use operativsystemer.Kernel.Invariant.{IsScheduled, IsRunning, put_current_running-IsScheduled}

tickets-ne_zero : (f : ℕ → ℕ) (xs : List ℕ) → ((t : ℕ) → 1 ≤ f t) → xs ≢ [] → tickets f xs ≢ 0
unfolding tickets
tickets-ne_zero f [] p n = absurd (n refl)
tickets-ne_zero f (x ∷ xs) p n = omega (arith, p x)

Wakes-account :
    (timer : ℕ) (ticks : List ℕ) (k : Kernel) → Wakes ticks k → Wakes ticks (account timer k)
Wakes-account timer ticks k (inl n) = inl n
Wakes-account timer ticks k (inr (s, rest, e, reach, small)) = inr (s, rest, e, ground arith, small)

All-middle : (P : ℕ → Type 0) (xs : List ℕ) (c : ℕ) (ys : List ℕ) → All P (xs ++ c ∷ ys) → P c
All-middle P [] c ys a = a.0
All-middle P (x ∷ xs) c ys a = All-middle P xs c ys a.1

snoc-ne_nil : (xs : List ℕ) (x : ℕ) → xs ++ x ∷ [] ≢ []
snoc-ne_nil [] x = λ e. cc
snoc-ne_nil (y ∷ ys) x = λ e. cc

-- A kernel that keeps the scheduler's invariant, with less than 2^31 tickets among its ready and sleeping
-- tasks, in which a task is ready or the clock reaches the
-- time of the first sleeper while the processor idles, always gets a next task: `scheduler`
-- returns, no division by zero and no read of an empty queue happens, the task that runs is READY
-- and stands in no queue, and the invariant holds again.
pub scheduler-IsRunning :
    (timer timer' : ℕ) (ticks : List ℕ) (k : Kernel)
    → IsScheduled k
    → Wakes ticks k
    → (g : Kernel) × (scheduler timer timer' ticks k ≡ some g)
      × IsRunning g
      × ((g.pcb g.current_running).status ≡ ready)
unfolding scheduler
scheduler-IsRunning timer timer' ticks k v w =
    let (h, waited, v', n) =
      await_ready-ends ticks (account timer k) (account-IsScheduled timer k v)
        (Wakes-account timer ticks k w) in
    let (front, back, c, e, drawn, lo, hi) =
      lottery-Drawn timer' h v'.total
        (rw v'.total (tickets-ne_zero (priority_of h) h.ready_queue v'.positive n))
        (omega (
          arith,
          v'.total,
          v'.small,
          tickets-append (priority_of h) h.ready_queue h.sleep_queue,
        )) in
    (
      dispatch c (rand_step h.my_rand) (back ++ front) timer' h,
      rw (waited, drawn),
      dispatch-IsRunning h front back c (rand_step h.my_rand) timer' e v',
      same_status h front back c (rand_step h.my_rand) timer' e v' c ready
          (All-middle _ front c back (subst (All (λ t. (h.pcb t).status ≡ ready)) e v'.runnable)),
    )

-- The calls that keep the running task ready return with no condition on the clock: `do_yield` puts
-- the task behind the ready ones, so that one is ready.
do_yield-IsRunning :
    (timer timer' : ℕ) (ticks : List ℕ) (k : Kernel)
    → IsRunning k
    → (g : Kernel) × (do_yield timer timer' ticks k ≡ some g)
      × IsRunning g
      × ((g.pcb g.current_running).status ≡ ready)
unfolding do_yield put_current_running make_ready
do_yield-IsRunning timer timer' ticks k v =
    scheduler-IsRunning timer timer' ticks (put_current_running k)
      (put_current_running-IsScheduled k v) (inl (snoc-ne_nil k.ready_queue k.current_running))
