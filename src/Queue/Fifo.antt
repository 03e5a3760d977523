-- ===== src/Queue/Fifo.antt =====
-- queue_put and queue_get of queue.c against a first-in-first-out list.
use operativsystemer.Base.{◌≡◌, ◌≢◌, refl, Option, some, ◌>>=◌, List, [], ◌∷◌, ◌++◌}
use operativsystemer.Queue.{Ptr, null, Heap, queue_get, queue_put}
use operativsystemer.Queue.Chain.{◌∉◌, IsQueue}
use operativsystemer.Queue.Refine.{queue_put-snoc, queue_get-cons, queue_get-nil}

-- A call of queue_put with a node, or of queue_get.
pub data Call : Type 0 where
  enqueue : Ptr → Call
  dequeue : Call

-- The calls on the queue at `q`, with what queue_get returns.
unfoldable pub run : Ptr → List Call → Heap → Option (List Ptr × Heap)
run q [] h = some ([], h)
run q (enqueue e ∷ cs) h = queue_put q e h >>= (λ r. run q cs r.1)
run q (dequeue ∷ cs) h = queue_get q h >>= (λ r. run q cs r.1 >>= (λ n. some (r.0 ∷ n.0, n.1)))

-- The same on a list.
unfoldable pub serve : List Call → List Ptr → List Ptr × List Ptr
serve [] xs = ([], xs)
serve (enqueue e ∷ cs) xs = serve cs (xs ++ e ∷ [])
serve (dequeue ∷ cs) [] = let rest = serve cs [] in (null ∷ rest.0, rest.1)
serve (dequeue ∷ cs) (x ∷ xs) = let rest = serve cs xs in (x ∷ rest.0, rest.1)

-- A node that is put in is not in the queue `q` at that time.
unfoldable pub IsFresh : Ptr → List Call → List Ptr → Type 0
IsFresh q [] xs = Unit {0}
IsFresh q (enqueue e ∷ cs) xs = (e ≢ null) × (e ∉ (q ∷ xs)) × IsFresh q cs (xs ++ e ∷ [])
IsFresh q (dequeue ∷ cs) [] = IsFresh q cs []
IsFresh q (dequeue ∷ cs) (x ∷ xs) = IsFresh q cs xs

-- Any calls of queue_put with nodes that are not in the queue at that time, and of queue_get, succeed and
-- return what a first-in-first-out list returns, NULL where it is empty, and leave a queue
-- of the items that the list has.
pub run-serve :
    (q : Ptr) (cs : List Call) (h : Heap) (xs : List Ptr)
    → IsQueue h q xs
    → IsFresh q cs xs
    → (g : Heap) × (run q cs h ≡ some ((serve cs xs).0, g)) × IsQueue g q (serve cs xs).1
unfolding run serve IsFresh
run-serve q [] h xs v f = (h, refl, v)
run-serve q (enqueue e ∷ cs) h xs v f =
    let one : (g : Heap) × (queue_put q e h ≡ some (tt, g)) × IsQueue g q (xs ++ e ∷ []) =
      queue_put-snoc h q xs e v f.0 f.1 in
    let rest : (g : Heap) × (run q cs one.0 ≡ some ((serve cs (xs ++ e ∷ [])).0, g))
        × IsQueue g q (serve cs (xs ++ e ∷ [])).1 =
      run-serve q cs one.0 (xs ++ e ∷ []) one.2 f.2 in
    (rest.0, rw (one.1) (rest.1), rest.2)
run-serve q (dequeue ∷ cs) h [] v f =
    let rest : (g : Heap) × (run q cs h ≡ some ((serve cs []).0, g)) × IsQueue g q (serve cs []).1 =
      run-serve q cs h [] v f in
    (rest.0, rw (queue_get-nil h q v) (rw (rest.1) refl), rest.2)
run-serve q (dequeue ∷ cs) h (x ∷ xs) v f =
    let one : (g : Heap) × (queue_get q h ≡ some (x, g)) × IsQueue g q xs =
      queue_get-cons h q x xs v in
    let rest : (g : Heap) × (run q cs one.0 ≡ some ((serve cs xs).0, g))
        × IsQueue g q (serve cs xs).1 =
      run-serve q cs one.0 xs one.2 f in
    (rest.0, rw (one.1) (rw (rest.1) refl), rest.2)
