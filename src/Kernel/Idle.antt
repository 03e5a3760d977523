-- ===== src/Kernel/Idle.antt =====
-- The idle loop of `scheduler`, while every task sleeps or is blocked.
use operativsystemer.Base.{
  ◌⊎◌, ℕ, ◌+◌, ◌%◌, ◌^◌, ◌≤◌, ◌<◌, ◌≡◌, ◌≢◌, refl, false, some, List, [], ◌∷◌, ◌++◌, arith, inl,
  inr, leb, Bool-cases,
}
use operativsystemer.Kernel.Lottery.{tickets-append}
use operativsystemer.Kernel.{priority_of, Kernel, try_wake, wake_loop, is_empty, await_ready}
use operativsystemer.Kernel.Wake.{due, wake_time, try_wake-due}
use operativsystemer.Kernel.Dispatch.{tick-IsScheduled}
use operativsystemer.Kernel.Invariant.{IsScheduled, try_wake-IsScheduled}

unfoldable pub sum : List ℕ → ℕ
sum [] = 0
sum (t ∷ ts) = t + sum ts

-- Some task is ready, or the clock reaches the time of the first sleeper, and does not wrap.
abbrev pub Wakes : List ℕ → Kernel → Type 0
Wakes ticks k =
    (k.ready_queue ≢ [])
    ⊎ ((s : ℕ) × (rest : List ℕ) × (k.sleep_queue ≡ s ∷ rest)
        × ((k.pcb s).sleep_until ≤ k.num_ticks + sum ticks)
        × (k.num_ticks + sum ticks < 2 ^ 64))

append-ne_nil : (xs ys : List ℕ) → xs ≢ [] → xs ++ ys ≢ []
append-ne_nil [] ys n = absurd (n refl)
append-ne_nil (x ∷ xs) ys n = λ e. cc

due-ne_nil :
    (wake : ℕ → ℕ) (now s : ℕ) (rest xs : List ℕ)
    → xs ≡ s ∷ rest
    → wake s ≤ now
    → due wake now xs ≢ []
unfolding due
due-ne_nil wake now s rest xs e h = ground arith

append-ne_nil_right : (xs ys : List ℕ) → ys ≢ [] → xs ++ ys ≢ []
append-ne_nil_right [] ys n = n
append-ne_nil_right (x ∷ xs) ys n = λ e. cc

try_wake-early :
    (k : Kernel) (s : ℕ) (rest : List ℕ)
    → k.sleep_queue ≡ s ∷ rest
    → k.num_ticks < (k.pcb s).sleep_until
    → try_wake k ≡ k
unfolding try_wake wake_loop
try_wake-early k s rest e h =
    let not_yet : leb (k.pcb s).sleep_until k.num_ticks ≡ false = ground arith in
    rw (e, wake_loop, not_yet)

await_ready-at_once :
    (ticks : List ℕ) (k : Kernel) → k.ready_queue ≢ [] → await_ready ticks k ≡ some k
unfolding await_ready
await_ready-at_once [] k n = ground arith
await_ready-at_once (t ∷ ticks) k n = ground arith

word : (k : Kernel) → IsScheduled k → k.total_ready_priority < 2 ^ 32
word k v =
    omega (arith, v.total, v.small, tickets-append (priority_of k) k.ready_queue k.sleep_queue)

due_first :
    (k : Kernel) (s : ℕ) (rest : List ℕ)
    → IsScheduled k
    → k.sleep_queue ≡ s ∷ rest
    → (k.pcb s).sleep_until ≤ k.num_ticks
    → (try_wake k).ready_queue ≢ []
due_first k s rest v e h = rw ((try_wake-due k v.sorted (word k v)).0) (
    append-ne_nil_right k.ready_queue _
      (due-ne_nil (wake_time k) k.num_ticks s rest k.sleep_queue e h))

is_empty-ne_nil : (xs : List ℕ) → is_empty xs ≡ false → xs ≢ []
is_empty-ne_nil [] h = cc
is_empty-ne_nil (x ∷ xs) h = λ e. cc

-- The idle loop ends with a ready task.
pub await_ready-ends :
    (ticks : List ℕ) (k : Kernel)
    → IsScheduled k
    → Wakes ticks k
    → (g : Kernel) × (await_ready ticks (try_wake k) ≡ some g)
      × IsScheduled g
      × (g.ready_queue ≢ [])
unfolding sum await_ready
await_ready-ends ticks k v (inl some_ready) =
    (try_wake k, await_ready-at_once ticks (try_wake k) ready', try_wake-IsScheduled k v, ready')
  where
    ready' : (try_wake k).ready_queue ≢ []
    ready' = rw ((try_wake-due k v.sorted (word k v)).0) (append-ne_nil k.ready_queue _ some_ready)
await_ready-ends [] k v (inr (s, rest, e, reach, small)) =
    (try_wake k, await_ready-at_once [] (try_wake k) woken, try_wake-IsScheduled k v, woken)
  where
    woken : (try_wake k).ready_queue ≢ []
    woken = due_first k s rest v e (omega arith)
await_ready-ends (t ∷ ticks) k v (inr (s, rest, e, reach, small)) =
    elim (Bool-cases (leb (k.pcb s).sleep_until k.num_ticks)) [
      | inl ripe ↦ (
        try_wake k,
        await_ready-at_once (t ∷ ticks) (try_wake k) (due_first k s rest v e (ground arith)),
        try_wake-IsScheduled k v,
        due_first k s rest v e (ground arith),
      )
      | inr early ↦
          rw (try_wake-early k s rest e (ground arith))
            (elim (Bool-cases (is_empty k.ready_queue)) [
              | inr some_ready ↦ (k, rw some_ready, v, is_empty-ne_nil k.ready_queue some_ready)
              | inl all_asleep ↦ rw all_asleep (
                  await_ready-ends ticks next (tick-IsScheduled _ k v)
                    (inr (s, rest, e, omega arith, omega arith)))
            ])
    ]
  where
    next : Kernel
    next = record k { num_ticks = (k.num_ticks + t) % 2 ^ 64 }
