-- ===== src/Kernel/Wake.antt =====
-- `try_wake` wakes exactly the sleepers whose time has come, in the order of their times.
use mathlib.Core.Path.{subst₂}
use operativsystemer.Base.{
  fun_ext, ℕ, ◌+◌, ◌%◌, ◌^◌, ◌<◌, ◌≡◌, refl, sym, Bool, true, false, List, [], ◌∷◌, ◌++◌,
  append_assoc, append-nil, arith, inl, inr, leb, Bool-cases, if◌then◌else◌,
}
use operativsystemer.Queue.Sorted.{All, IsSorted}
use operativsystemer.Kernel.{Kernel, priority_of, order_by_wake_up, make_ready, try_wake, wake_loop}
use operativsystemer.Kernel.Lottery.{tickets}
use operativsystemer.Kernel.Invariant.{
  sleep_until-make_ready, priority-make_ready, sleep_queue-make_ready,
}

abbrev pub wake_time : Kernel → ℕ → ℕ
wake_time k t = (k.pcb t).sleep_until

-- The sleepers that are due at `now`, and the others.
unfoldable pub due : (ℕ → ℕ) → ℕ → List ℕ → List ℕ
due wake now [] = []
due wake now (s ∷ rest) = if leb (wake s) now then s ∷ due wake now rest else due wake now rest

unfoldable pub later : (ℕ → ℕ) → ℕ → List ℕ → List ℕ
later wake now [] = []
later wake now (s ∷ rest) =
    if leb (wake s) now then later wake now rest else s ∷ later wake now rest

abbrev by_time : (ℕ → ℕ) → ℕ → ℕ → Bool
by_time wake a b = leb (wake a) (wake b)

none_due :
    (wake : ℕ → ℕ) (now s : ℕ) (xs : List ℕ)
    → now < wake s
    → All (λ y. by_time wake s y ≡ true) xs
    → (due wake now xs ≡ []) × (later wake now xs ≡ xs)
unfolding due later
none_due wake now s [] h a = (refl, refl)
none_due wake now s (x ∷ xs) h a = ground (arith, none_due wake now s xs h a.1)

-- What the loop has made of a ready queue and its tickets, and of the sleepers `xs`.
record Woken (wake f : ℕ → ℕ) (now : ℕ) (ready : List ℕ) (total : ℕ) (xs : List ℕ) (g : Kernel)
    : Type 0 where
  ready_queue : g.ready_queue ≡ ready ++ due wake now xs
  sleep_queue : g.sleep_queue ≡ later wake now xs
  pool : g.total_ready_priority ≡ (total + tickets f (due wake now xs)) % 2 ^ 32

module _ (wake f : ℕ → ℕ) (now : ℕ) (ready : List ℕ) (total x : ℕ) (rest : List ℕ) where
  Woken-cons :
      (g : Kernel)
      → leb (wake x) now ≡ true
      → Woken wake f now (ready ++ x ∷ []) ((total + f x) % 2 ^ 32) rest g
      → Woken wake f now ready total (x ∷ rest) g
  unfolding due later tickets
  Woken-cons g ripe w = record {
    ready_queue = rw (ripe, w.ready_queue) (append_assoc ready (x ∷ []) (due wake now rest));
    sleep_queue = rw ripe w.sleep_queue;
    pool = rw ripe (omega (arith, w.pool));
  }

  Woken-stop :
      (g : Kernel)
      → leb (wake x) now ≡ false
      → All (λ y. by_time wake x y ≡ true) rest
      → g.ready_queue ≡ ready
      → g.sleep_queue ≡ x ∷ rest
      → g.total_ready_priority ≡ total
      → total < 2 ^ 32
      → Woken wake f now ready total (x ∷ rest) g
  unfolding due later tickets
  Woken-stop g early a r s n word = record {
    ready_queue = rw (early, empty.0, append-nil ready) r;
    sleep_queue = rw (early, empty.1) s;
    pool = rw (early, empty.0) (omega (arith, n));
  }
    where
      empty : (due wake now rest ≡ []) × (later wake now rest ≡ rest)
      empty = none_due wake now x rest (ground arith) a

wake_loop-Woken :
    (now : ℕ) (xs : List ℕ) (k : Kernel)
    → k.sleep_queue ≡ xs
    → IsSorted (by_time (wake_time k)) xs
    → k.total_ready_priority < 2 ^ 32
    → Woken
        (wake_time k)
        (priority_of k)
        now
        k.ready_queue
        k.total_ready_priority
        xs
        (wake_loop now xs k)
unfolding wake_loop make_ready due later tickets
wake_loop-Woken now [] k e s word = record {
  ready_queue = sym (append-nil k.ready_queue);
  sleep_queue = e;
  pool = omega arith;
}
wake_loop-Woken now (x ∷ rest) k e s word = elim (Bool-cases (leb (wake_time k x) now)) [
  | inl ripe ↦ rw ripe (
      Woken-cons (wake_time k) (priority_of k) now k.ready_queue k.total_ready_priority x rest _
        ripe
        (step (wake_time g) (priority_of g) times (priority-make_ready k' x)
          (wake_loop-Woken now rest g (sleep_queue-make_ready k' x) (rw times s.1) (omega arith))))
  | inr early ↦ rw early (
      Woken-stop (wake_time k) (priority_of k) now k.ready_queue k.total_ready_priority x rest k
        early s.0 refl e refl word)
]
  where
    k' : Kernel
    k' = record k { sleep_queue = rest }

    g : Kernel
    g = make_ready k' x

    times : wake_time g ≡ wake_time k
    times = fun_ext (sleep_until-make_ready k' x)

    step :
        (w f : ℕ → ℕ)
        → w ≡ wake_time k
        → f ≡ priority_of k
        → Woken w f now g.ready_queue g.total_ready_priority rest (wake_loop now rest g)
        → Woken
            (wake_time k)
            (priority_of k)
            now
            (k.ready_queue ++ x ∷ [])
            ((k.total_ready_priority + priority_of k x) % 2 ^ 32)
            rest
            (wake_loop now rest g)
    step w f p q h =
        subst₂
          (λ w' f'.
            Woken w' f' now (k.ready_queue ++ x ∷ [])
              ((k.total_ready_priority + priority_of k x) % 2 ^ 32) rest (wake_loop now rest g))
          p q h

-- With the sleep queue in the order of the wake-up times, `try_wake` moves exactly the sleepers that
-- are due to the end of the ready queue, in their order, adds their tickets to the pool, an `int` of 32
-- bits that wraps, and leaves the others asleep.
pub try_wake-due :
    (k : Kernel)
    → IsSorted (order_by_wake_up k) k.sleep_queue
    → k.total_ready_priority < 2 ^ 32
    → ((try_wake k).ready_queue ≡ k.ready_queue ++ due (wake_time k) k.num_ticks k.sleep_queue)
      × ((try_wake k).sleep_queue ≡ later (wake_time k) k.num_ticks k.sleep_queue)
      × ((try_wake k).total_ready_priority
          ≡ (k.total_ready_priority
              + tickets (priority_of k) (due (wake_time k) k.num_ticks k.sleep_queue))
            % 2 ^ 32)
unfolding try_wake order_by_wake_up
try_wake-due k s word =
    let w = wake_loop-Woken k.num_ticks k.sleep_queue k refl s word in
    (w.ready_queue, w.sleep_queue, w.pool)
