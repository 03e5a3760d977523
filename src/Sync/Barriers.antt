-- ===== src/Sync/Barriers.antt =====
-- Barriers of sync.c: a round of `quorum` arrivals.
use operativsystemer.Base.{
  ℕ, ◌+◌, ◌^◌, ◌<◌, ◌≡◌, refl, sym, ap, ap₂, ◌∙◌, List, [], ◌∷◌, ◌++◌, append_assoc, append-nil,
  arith, length, length-append,
}
use operativsystemer.Kernel.{Kernel}
use operativsystemer.Sync.{Barrier, Outcome, returned, barrier_init, barrier_wait}
use operativsystemer.Sync.Waking.{ready_queue-unblock_all}

-- `size` counts the waiting tasks, and a full round never waits.
pub record IsFilling (b : Barrier) : Type 0 where
  pub counted : b.size ≡ length b.wait_queue
  pub below : b.size < b.quorum
  pub word : b.quorum < 2 ^ 32

pub arrive : Barrier × Kernel → ℕ → Outcome × Barrier × Kernel
arrive (b, k) t = barrier_wait b (record k { current_running = t })

pub arrive_all : Barrier × Kernel → List ℕ → Barrier × Kernel
unfolding arrive
arrive_all s [] = s
arrive_all s (t ∷ ts) = let (_, b, k) = arrive s t in arrive_all (b, k) ts

pub barrier_wait-IsFilling :
    (b : Barrier) (k : Kernel) → IsFilling b → IsFilling (barrier_wait b k).1
unfolding barrier_wait
barrier_wait-IsFilling b k v = grind (arith, length-append)

one_more :
    (b : Barrier) (k : Kernel) (t : ℕ)
    → IsFilling b
    → b.size + 1 < b.quorum
    → let (o, b', k') = arrive (b, k) t in
      (b'.size ≡ b.size + 1)
      × (b'.quorum ≡ b.quorum)
      × (b'.wait_queue ≡ b.wait_queue ++ t ∷ [])
      × (k'.ready_queue ≡ k.ready_queue)
unfolding arrive barrier_wait
one_more b k t v h = ground arith

arrive-IsFilling : (b : Barrier) (k : Kernel) (t : ℕ) → IsFilling b → IsFilling (arrive (b, k) t).1
unfolding arrive
arrive-IsFilling b k t v = barrier_wait-IsFilling b (record k { current_running = t }) v

-- What has happened while the tasks `ts` arrived and the round is not full.
record Gathered (b : Barrier) (k : Kernel) (ts : List ℕ) (r : Barrier × Kernel) : Type 0 where
  filling : IsFilling r.0
  quorum : r.0.quorum ≡ b.quorum
  waiting : r.0.wait_queue ≡ b.wait_queue ++ ts
  ready : r.1.ready_queue ≡ k.ready_queue

arrive_all-Gathered :
    (b : Barrier) (k : Kernel) (ts : List ℕ)
    → IsFilling b
    → b.size + length ts < b.quorum
    → Gathered b k ts (arrive_all (b, k) ts)
unfolding arrive_all
arrive_all-Gathered b k [] v h = record {
  filling = v;
  quorum = refl;
  waiting = sym (append-nil b.wait_queue);
  ready = refl;
}
arrive_all-Gathered b k (t ∷ ts) v h =
    let one = one_more b k t v (omega arith) in
    let rest =
      arrive_all-Gathered (arrive (b, k) t).1 (arrive (b, k) t).2 ts (arrive-IsFilling b k t v)
        (omega (arith, one)) in
    record {
      filling = rest.filling;
      quorum = rest.quorum ∙ one.1;
      waiting = rest.waiting ∙ ground (arith, one, append_assoc b.wait_queue (t ∷ []) ts);
      ready = rest.ready ∙ one.3;
    }

last_arrival :
    (b : Barrier) (k : Kernel) (t n : ℕ)
    → IsFilling b
    → b.quorum ≡ n
    → b.size + 1 ≡ n
    → let (o, b', k') = arrive (b, k) t in
      (o ≡ returned 0) × (k'.ready_queue ≡ k.ready_queue ++ b.wait_queue) × (b' ≡ barrier_init n)
unfolding arrive barrier_wait barrier_init
last_arrival b k t n v e f =
    ground (arith, ready_queue-unblock_all b.wait_queue (record k { current_running = t }))

-- A round of a barrier for one task more than `ts`: while the tasks `ts` arrive none becomes ready,
-- and when the last one arrives it goes on at once, all the others become ready in the order of
-- their arrival, and the barrier is as at the start, ready for the next round.
pub barrier_round :
    (ts : List ℕ) (last : ℕ) (k : Kernel)
    → length ts + 1 < 2 ^ 32
    → let (b, g) = arrive_all (barrier_init (length ts + 1), k) ts in
      let (result, b', g') = arrive (b, g) last in
      (g.ready_queue ≡ k.ready_queue)
      × (result ≡ returned 0)
      × (g'.ready_queue ≡ k.ready_queue ++ ts)
      × (b' ≡ barrier_init (length ts + 1))
unfolding barrier_init
barrier_round ts last k h =
    (all.ready, last_one.0, last_one.1 ∙ ap₂ ◌++◌ all.ready all.waiting, last_one.2)
  where
    b : Barrier
    b = barrier_init (length ts + 1)

    r : Barrier × Kernel
    r = arrive_all (b, k) ts

    all : Gathered b k ts r
    all =
        arrive_all-Gathered b k ts (record { counted = refl; below = omega arith; word = h })
          (omega arith)

    last_one :
        ((arrive r last).0 ≡ returned 0)
        × ((arrive r last).2.ready_queue ≡ r.1.ready_queue ++ r.0.wait_queue)
        × ((arrive r last).1 ≡ b)
    last_one =
        last_arrival r.0 r.1 last (length ts + 1) all.filling all.quorum
          (omega (arith, all.filling.counted, ap length all.waiting))
