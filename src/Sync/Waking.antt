-- ===== src/Sync/Waking.antt =====
-- Tasks that are woken: all of them, in the order in which they wait, and each once.
use operativsystemer.Base.{
  ℕ, ◌+◌, ◌^◌, ◌<◌, ◌≡◌, refl, true, List, [], ◌∷◌, ◌++◌, append_assoc, append-nil, sym, arith,
}
use operativsystemer.Queue.Chain.{has, ◌∉◌, Distinct, has-append}
use operativsystemer.Kernel.{Kernel, priority_of, unblock}
use operativsystemer.Kernel.Lottery.{tickets, tickets-append}
use operativsystemer.Kernel.Invariant.{IsScheduled, priority-make_ready, unblock-IsScheduled}
use operativsystemer.Sync.{unblock_all, condition_broadcast}

module _ (k : Kernel) (p : ℕ) where
  pub ready_queue-unblock : (unblock k p).ready_queue ≡ k.ready_queue ++ p ∷ []
  unfolding unblock
  ready_queue-unblock = refl

  priority-unblock : priority_of (unblock k p) ≡ priority_of k
  unfolding unblock
  priority-unblock = priority-make_ready k p

  pub sleep_queue-unblock : (unblock k p).sleep_queue ≡ k.sleep_queue
  unfolding unblock
  sleep_queue-unblock = refl

-- No task of the list stands in a queue of the kernel.
abbrev pub Apart : List ℕ → Kernel → Type 0
Apart xs k = (t : ℕ) → has t xs ≡ true → t ∉ (k.ready_queue ++ k.sleep_queue)

pub ready_queue-unblock_all :
    (xs : List ℕ) (k : Kernel)
    → ((unblock_all xs k).ready_queue ≡ k.ready_queue ++ xs)
      × ((unblock_all xs k).sleep_queue ≡ k.sleep_queue)
unfolding unblock_all
ready_queue-unblock_all [] k = (sym (append-nil k.ready_queue), refl)
ready_queue-unblock_all (p ∷ xs) k = ground (
  arith,
  ready_queue-unblock_all xs (unblock k p),
  ready_queue-unblock k p,
  sleep_queue-unblock k p,
  append_assoc k.ready_queue (p ∷ []) xs,
)

fits-unblock :
    (k : Kernel) (p : ℕ) (xs : List ℕ)
    → tickets (priority_of k) (k.ready_queue ++ k.sleep_queue) + tickets (priority_of k) (p ∷ xs)
      < 2 ^ 31
    → tickets (priority_of (unblock k p)) ((unblock k p).ready_queue ++ (unblock k p).sleep_queue)
        + tickets (priority_of (unblock k p)) xs
      < 2 ^ 31
unfolding tickets
fits-unblock k p xs fits =
    rw (ready_queue-unblock k p, sleep_queue-unblock k p, priority-unblock k p)
      (omega (
        arith,
        tickets-append (priority_of k) k.ready_queue k.sleep_queue,
        tickets-append (priority_of k) (k.ready_queue ++ p ∷ []) k.sleep_queue,
        tickets-append (priority_of k) k.ready_queue (p ∷ []),
      ))

pub unblock_all-IsScheduled :
    (xs : List ℕ) (k : Kernel)
    → IsScheduled k
    → Distinct xs
    → Apart xs k
    → tickets (priority_of k) (k.ready_queue ++ k.sleep_queue) + tickets (priority_of k) xs < 2 ^ 31
    → IsScheduled (unblock_all xs k)
unfolding unblock_all tickets
unblock_all-IsScheduled [] k v d o fits = v
unblock_all-IsScheduled (p ∷ xs) k v d o fits =
    unblock_all-IsScheduled xs (unblock k p)
      (unblock-IsScheduled k p v (o p (ground arith)) (omega arith)) d.1
      (λ t i.
        rw (ready_queue-unblock k p, sleep_queue-unblock k p)
          (ground (
            arith,
            o t,
            has-append t (k.ready_queue ++ p ∷ []) k.sleep_queue,
            has-append t k.ready_queue (p ∷ []),
            has-append t k.ready_queue k.sleep_queue,
          )))
      (fits-unblock k p xs fits)

-- Tasks that wait in one queue, and in no queue of the scheduler, and have with the tasks in those queues
-- less than 2^31 tickets, are all put behind the ready tasks
-- by `condition_broadcast`, first come first, the sleepers stay, the wait queue is empty, and the
-- scheduler's invariant holds on.
pub condition_broadcast-ready :
    (xs : List ℕ) (k : Kernel)
    → IsScheduled k
    → Distinct xs
    → Apart xs k
    → tickets (priority_of k) (k.ready_queue ++ k.sleep_queue) + tickets (priority_of k) xs < 2 ^ 31
    → let (rest, g) = condition_broadcast xs k in
      (rest ≡ [])
      × (g.ready_queue ≡ k.ready_queue ++ xs)
      × (g.sleep_queue ≡ k.sleep_queue)
      × IsScheduled g
unfolding condition_broadcast
condition_broadcast-ready xs k v d o fits = (
  refl,
  (ready_queue-unblock_all xs k).0,
  (ready_queue-unblock_all xs k).1,
  unblock_all-IsScheduled xs k v d o fits,
)
