-- ===== src/Tests/Queues.antt =====
-- queue.c on a store of five nodes.
use mathlib.Core.List.{Perm}
use operativsystemer.Base.{◌≡◌, refl, some, List, [], ◌∷◌, arith, leb}
use operativsystemer.Queue.{Heap, Ptr, update, queue_put_sort}
use operativsystemer.Queue.Chain.{IsQueue}
use operativsystemer.Queue.Sorted.{IsSorted, queue_put_sort-IsSorted}
use operativsystemer.Queue.Fifo.{enqueue, dequeue, run, serve, IsFresh, run-serve}

-- The queue at 9 holds 2 and 5.
abbrev two_items : Heap
two_items = record {
  prev = update (update (update (λ p. 0) 9 5) 5 2) 2 9;
  next = update (update (update (λ p. 0) 9 2) 2 5) 5 9;
}

two_items-IsQueue : IsQueue two_items 9 (2 ∷ 5 ∷ [])
two_items-IsQueue = record { circle = ground arith; apart = ground arith; real = refl }

run-serve_example :
    (g : Heap) × (run 9 (dequeue ∷ enqueue 3 ∷ enqueue 2 ∷ dequeue ∷ []) two_items
      ≡ some (2 ∷ 5 ∷ [], g))
    × IsQueue g 9 (3 ∷ 2 ∷ [])
unfolding serve IsFresh
run-serve_example =
    run-serve 9 (dequeue ∷ enqueue 3 ∷ enqueue 2 ∷ dequeue ∷ []) two_items (2 ∷ 5 ∷ [])
      two_items-IsQueue (omega arith, refl, (omega arith, refl, tt))

queue_put_sort-IsSorted_example :
    (g : Heap) × (ys : List Ptr) × (queue_put_sort leb 4 9 3 two_items ≡ some (tt, g))
    × IsQueue g 9 ys
    × Perm ys (3 ∷ 2 ∷ 5 ∷ [])
    × IsSorted leb ys
queue_put_sort-IsSorted_example =
    queue_put_sort-IsSorted leb (λ a b. ground arith) (λ a b c p q. ground arith) 4 two_items 9 3
      (2 ∷ 5 ∷ []) two_items-IsQueue (omega arith) refl (omega arith) ((refl, tt), (tt, tt))
